-- ===== src/Pricing/Guards/Tools.antt =====
-- The tools that `_validate_tools` of kazenai/request_pricing.py lets a request declare.
use kazenai_core.Base.{
  ◌≡◌, ◌≢◌, ◌⊎◌, inl, inr, refl, ap, subst, Bool, true, false, not, ◌&&◌, ◌||◌, String, str_eq,
  eq_iff, Option, none, some, List, [], ◌∷◌, any, All, if◌then◌else◌, if_cases, arith,
}
use kazenai_core.Base.Text.{concat}
use kazenai_core.DispatchGate.Paths.{starts_with, starts_with-concat}
use kazenai_core.Pricing.Request.{
  Result, ok, ◌>>=◌, ◌>>◌, refuse_if, Request, mcp_servers_unsupported, container_unsupported,
  web_search_options_unsupported, audio_output_unsupported, anthropic_server_tool_unsupported,
  anthropic_tool_unsupported, responses_builtin_tool_unsupported, chat_tool_unsupported, check_tool,
  check_tools, validate_tools,
}
use kazenai_core.Pricing.Guards.{
  bind_ok, not_refused, passed, Listed, any-Listed, is_text, other_text, not_both,
}

-- Not the name of a tool that the provider's server runs, whatever follows the name.
abbrev pub IsOwnTool : String → Type 0
IsOwnTool t =
    ((rest : String) → t ≢ concat "web_search" rest)
    × ((rest : String) → t ≢ concat "web_fetch" rest)
    × ((rest : String) → t ≢ concat "code_execution" rest)

-- The tools that a request may declare, by the provider and the surface.
pub data IsCertified (provider surface : String) (versions : List String) (tool : Option String)
    : Type 0 where
  anthropic_untyped :
      provider ≡ "anthropic" → tool ≡ none → IsCertified provider surface versions tool
  anthropic_custom :
      provider ≡ "anthropic" → tool ≡ some "custom" → IsCertified provider surface versions tool
  anthropic_version :
      (t : String)
      → provider ≡ "anthropic"
      → tool ≡ some t
      → IsOwnTool t
      → Listed t versions
      → IsCertified provider surface versions tool
  function_tool :
      provider ≢ "anthropic" → tool ≡ some "function" → IsCertified provider surface versions tool
  responses_custom :
      provider ≢ "anthropic"
      → surface ≡ "responses"
      → tool ≡ some "custom"
      → IsCertified provider surface versions tool

-- Without one of the names of the server's tools at its start.
own_tool :
    (t : String)
    → any (λ prefix. starts_with prefix t) ("web_search" ∷ "web_fetch" ∷ "code_execution" ∷ [])
      ≡ false
    → IsOwnTool t
own_tool t h = (
  λ rest same. let e = (starts_with-concat "web_search" t).1 (rest, same) in absurd (ground arith),
  λ rest same. let e = (starts_with-concat "web_fetch" t).1 (rest, same) in absurd (ground arith),
  λ rest same.
      let e = (starts_with-concat "code_execution" t).1 (rest, same) in absurd (ground arith),
)

-- Some text, the one named.
abbrev type_is : String → Option String → Bool
type_is name none = false
type_is name (some t) = str_eq t name

typed : (name : String) (tool : Option String) → type_is name tool ≡ true → tool ≡ some name
typed name none h = absurd (cc)
typed name (some t) h = ap some (is_text t name h)

or_cases : (a b : Bool) → not (a || b) ≡ false → (a ≡ true) ⊎ (b ≡ true)
or_cases true b h = inl refl
or_cases false b h = inr (ground arith)

-- The check of one tool of an Anthropic request.
abbrev anthropic_check : List String → Option String → Result (Unit {0})
anthropic_check versions tool = elim tool [
  | none ↦ ok tt
  | some t ↦ if str_eq t "custom" then ok tt else do
    refuse_if
        (any (λ prefix. starts_with prefix t) ("web_search" ∷ "web_fetch" ∷ "code_execution" ∷ []))
        anthropic_server_tool_unsupported
    refuse_if (not (any (λ v. str_eq v t) versions)) anthropic_tool_unsupported
]

module _ (provider surface : String) (versions : List String) where
  typed_tool :
      (t : String)
      → provider ≡ "anthropic"
      → anthropic_check versions (some t) ≡ ok tt
      → IsCertified provider surface versions (some t)
  typed_tool t is =
      if_cases
        (λ (m : Result (Unit {0})). m ≡ ok tt → IsCertified provider surface versions (some t))
        (str_eq t "custom") (λ same _. anthropic_custom is (ap some (is_text t "custom" same)))
        (λ _ e.
          let (own, e1) =
            passed
              (any (λ prefix. starts_with prefix t)
                ("web_search" ∷ "web_fetch" ∷ "code_execution" ∷ []))
              anthropic_server_tool_unsupported
              (λ _. refuse_if (not (any (λ v. str_eq v t) versions)) anthropic_tool_unsupported)
              e in
          let known =
            not_refused (not (any (λ v. str_eq v t) versions)) anthropic_tool_unsupported tt e1 in
          let (v, found, same) =
            any-Listed (λ v. str_eq v t) versions (λ v. is_text v t) (ground arith) in
          anthropic_version t is refl (own_tool t own) (subst (λ x. Listed x versions) same found))

  anthropic_tool :
      (tool : Option String)
      → provider ≡ "anthropic"
      → anthropic_check versions tool ≡ ok tt
      → IsCertified provider surface versions tool
  anthropic_tool none is e = anthropic_untyped is refl
  anthropic_tool (some t) is e = typed_tool t is e

  function_or_custom :
      (tool : Option String)
      → provider ≢ "anthropic"
      → surface ≡ "responses"
      → refuse_if
          (not (type_is "function" tool || type_is "custom" tool))
          responses_builtin_tool_unsupported
        ≡ ok tt
      → IsCertified provider surface versions tool
  function_or_custom tool other is e =
      elim (or_cases (type_is "function" tool) (type_is "custom" tool)
        (not_refused _ responses_builtin_tool_unsupported tt e)) [
          | inl h ↦ function_tool other (typed "function" tool h)
          | inr h ↦ responses_custom other is (typed "custom" tool h)
        ]

  function_only :
      (tool : Option String)
      → provider ≢ "anthropic"
      → refuse_if (not (type_is "function" tool)) chat_tool_unsupported ≡ ok tt
      → IsCertified provider surface versions tool
  function_only tool other e =
      let fine = not_refused (not (type_is "function" tool)) chat_tool_unsupported tt e in
      function_tool other (typed "function" tool (ground arith))

  check_tool-IsCertified :
      (tool : Option String)
      → check_tool provider surface versions tool ≡ ok tt
      → IsCertified provider surface versions tool
  unfolding check_tool
  check_tool-IsCertified tool =
      if_cases (λ (m : Result (Unit {0})). m ≡ ok tt → IsCertified provider surface versions tool)
        (str_eq provider "anthropic")
        (λ is e. anthropic_tool tool (is_text provider "anthropic" is) e)
        (λ other.
          if_cases
            (λ (m : Result (Unit {0})). m ≡ ok tt → IsCertified provider surface versions tool)
            (str_eq surface "responses")
            (λ is e.
              function_or_custom tool (other_text provider "anthropic" other)
                (is_text surface "responses" is) e)
            (λ _ e. function_only tool (other_text provider "anthropic" other) e))

  check_tools-IsCertified :
      (tools : List (Option String))
      → check_tools provider surface versions tools ≡ ok tt
      → All (IsCertified provider surface versions) tools
  unfolding check_tools
  check_tools-IsCertified [] e = tt
  check_tools-IsCertified (tool ∷ tools) e =
      let (u, one, rest) =
        bind_ok (check_tool provider surface versions tool)
          (λ _. check_tools provider surface versions tools) e in
      (check_tool-IsCertified tool one, check_tools-IsCertified tools rest)

-- The tools of a request are certified, and it has nothing else that the provider's server would run.
pub record HasCertifiedTools (provider surface : String) (versions : List String) (rq : Request)
    : Type 0 where
  pub mcp_servers : rq.mcp_servers ≡ false
  pub container : rq.container ≡ false
  pub web_search : provider ≡ "openai" → surface ≡ "chat" → rq.web_search_options ≡ false
  pub audio :
      provider ≡ "openai" → surface ≡ "chat" → (rq.audio_modality ≡ false) × (rq.audio ≡ false)
  pub tools : All (IsCertified provider surface versions) rq.tools

both_texts :
    (provider surface : String)
    → provider ≡ "openai"
    → surface ≡ "chat"
    → (str_eq provider "openai" && str_eq surface "chat") ≡ true
both_texts provider surface p s =
    let a = (eq_iff provider "openai").1 p in let b = (eq_iff surface "chat").1 s in ground arith

neither : (a b c : Bool) → (a && (b || c)) ≡ false → a ≡ true → (b ≡ false) × (c ≡ false)
neither a b c h k = (ground arith, ground arith)

pub validate_tools-HasCertifiedTools :
    (provider surface : String) (versions : List String) (rq : Request)
    → validate_tools provider surface versions rq ≡ ok tt
    → HasCertifiedTools provider surface versions rq
unfolding validate_tools
validate_tools-HasCertifiedTools provider surface versions rq e =
    let chat = str_eq provider "openai" && str_eq surface "chat" in
    let tools = check_tools provider surface versions rq.tools in
    let sound = λ (_ : Unit {0}).
      refuse_if (chat && (rq.audio_modality || rq.audio)) audio_output_unsupported >>= λ _. tools in
    let search = λ (_ : Unit {0}).
      refuse_if (chat && rq.web_search_options) web_search_options_unsupported >>= sound in
    let contained = λ (_ : Unit {0}). refuse_if rq.container container_unsupported >>= search in
    let (no_servers, e1) = passed rq.mcp_servers mcp_servers_unsupported contained e in
    let (no_container, e2) = passed rq.container container_unsupported search e1 in
    let (no_search, e3) =
      passed (chat && rq.web_search_options) web_search_options_unsupported sound e2 in
    let (no_audio, e4) =
      passed (chat && (rq.audio_modality || rq.audio)) audio_output_unsupported (λ _. tools) e3 in
    record {
      mcp_servers = no_servers;
      container = no_container;
      web_search = λ p s. not_both chat _ no_search (both_texts provider surface p s);
      audio = λ p s. neither chat _ _ no_audio (both_texts provider surface p s);
      tools = check_tools-IsCertified provider surface versions rq.tools e4;
    }
