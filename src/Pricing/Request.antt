-- ===== src/Pricing/Request.antt =====
-- The refusals of kazenai/request_pricing.py that look at the request alone: `_pin_service_tier`,
-- `_effective_request`, `_integer_n`, `_validate_tools` and `_validate_request_modifiers`.
use kazenai_core.Base.{
  ℕ, ltb, Bool, true, false, not, ◌&&◌, ◌||◌, String, str_eq, List, [], ◌∷◌, any, Option, none,
  some, if◌then◌else◌,
}
use kazenai_core.Base.Text.{lower_codes, codes_eq, codes, strip}
use kazenai_core.Base.Amount.{ℤ, pos, negsuc}
use kazenai_core.DispatchGate.Paths.{starts_with}
use kazenai_core.Pricing.Tiers.{Closed}

-- The error codes of a refusal, and the other exceptions that end the pricing of a call.
pub data Refusal : Type 0 where
  service_tier_unsupported extra_body_unsupported n_not_integer : Refusal
  unknown_tier_circuit_open : Closed → Refusal
  mcp_servers_unsupported container_unsupported web_search_options_unsupported : Refusal
  audio_output_unsupported anthropic_server_tool_unsupported anthropic_tool_unsupported : Refusal
  responses_builtin_tool_unsupported chat_tool_unsupported : Refusal
  fast_mode_unsupported inference_geo_unsupported document_reference_unsupported : Refusal
  image_unsupported long_context_chat_unsupported : Refusal
  input_counter_unavailable input_counter_failed unknown_model pricing_config : Refusal

pub data Result {ℓ} (A : Type ℓ) : Type ℓ where
  ok : A → Result A
  refused : Refusal → Result A

infixl 5 ◌>>=◌ ◌>>◌
abbrev pub ◌>>=◌ {ℓ κ} : {A : Type ℓ} {B : Type κ} → Result A → (A → Result B) → Result B
ok a >>= k = k a
refused code >>= k = refused code

abbrev pub ◌>>◌ {ℓ} : {B : Type ℓ} → Result (Unit {0}) → Result B → Result B
m >> k = m >>= λ _. k

abbrev pub refuse_if : Bool → Refusal → Result (Unit {0})
refuse_if true code = refused code
refuse_if false code = ok tt

abbrev pub or_refuse {ℓ} : {A : Type ℓ} → Option A → Refusal → Result A
or_refuse none code = refused code
or_refuse (some a) code = ok a

-- `n` of a request: missing or None, an int, or anything else.
pub data Count : Type 0 where
  missing other : Count
  int : ℤ → Count

-- What the code reads off the request that the provider will receive.
pub record Request : Type 0 where
  -- `service_tier` in `extra_body`, where it has the key, and at the top; none inside for null or ""
  pub extra_tier : Option (Option String)
  pub top_tier : Option String
  pub extra_is_object : Bool
  pub model : String
  pub n : Count
  pub mcp_servers : Bool
  pub container : Bool
  pub web_search_options : Bool
  pub audio_modality : Bool
  pub audio : Bool
  pub tools : List (Option String)
  pub speed : Option String
  pub inference_geo : Option String
  pub documents : Bool
  pub images : Bool
  pub max_output : ℕ
  pub cache_kind : String

abbrev pin_of : String → String
pin_of provider = if str_eq provider "anthropic" then "standard_only" else "default"

-- `_pin_service_tier`: the request leaves with the pinned tier, or it is refused.
unfoldable pub pin_service_tier : String → Request → Result (Unit {0})
pin_service_tier provider rq = do
  refuse_if
      (elim rq.extra_tier [
        | none ↦ false
        | some extra ↦ elim extra [ none ↦ false | some tier ↦ not (str_eq tier (pin_of provider)) ]
      ])
      service_tier_unsupported
  refuse_if (elim rq.top_tier [ none ↦ false | some tier ↦ not (str_eq tier (pin_of provider)) ])
      service_tier_unsupported

-- `_integer_n`.
unfoldable pub integer_n : Count → Result ℕ
integer_n missing = ok 1
integer_n other = refused n_not_integer
integer_n (int (pos n)) = if ltb n 1 then refused n_not_integer else ok n
integer_n (int (negsuc n)) = refused n_not_integer

abbrev server_tools : List String
server_tools = "web_search" ∷ "web_fetch" ∷ "code_execution" ∷ []

-- `tool_type in {"function", "custom"}`, of a tool without a type too.
abbrev type_is : String → Option String → Bool
type_is name none = false
type_is name (some t) = str_eq t name

-- One tool of the loop of `_validate_tools`.
unfoldable pub check_tool : String → String → List String → Option String → Result (Unit {0})
check_tool provider surface versions tool =
    if str_eq provider "anthropic"
    then elim tool [
      | none ↦ ok tt
      | some t ↦ if str_eq t "custom" then ok tt else do
        refuse_if (any (λ prefix. starts_with prefix t) server_tools)
            anthropic_server_tool_unsupported
        refuse_if (not (any (λ v. str_eq v t) versions)) anthropic_tool_unsupported
    ]
    else if str_eq surface "responses"
    then refuse_if (not (type_is "function" tool || type_is "custom" tool))
        responses_builtin_tool_unsupported
    else refuse_if (not (type_is "function" tool)) chat_tool_unsupported

unfoldable pub check_tools :
    String → String → List String → List (Option String) → Result (Unit {0})
check_tools provider surface versions [] = ok tt
check_tools provider surface versions (tool ∷ tools) =
    let rest = check_tools provider surface versions tools in
    check_tool provider surface versions tool >> rest

-- `_validate_tools`, where `versions` is `anthropic_client_tool_versions` of the active bundle.
unfoldable pub validate_tools : String → String → List String → Request → Result (Unit {0})
validate_tools provider surface versions rq = do
  refuse_if rq.mcp_servers mcp_servers_unsupported
  refuse_if rq.container container_unsupported
  let openai_chat = str_eq provider "openai" && str_eq surface "chat"
  refuse_if (openai_chat && rq.web_search_options) web_search_options_unsupported
  refuse_if (openai_chat && (rq.audio_modality || rq.audio)) audio_output_unsupported
  check_tools provider surface versions rq.tools

-- `str(value).strip().lower() in allowed`
abbrev is_allowed : String → List String → Bool
is_allowed value allowed = any (λ a. codes_eq (codes a) (lower_codes (strip value))) allowed

abbrev not_allowed : Option String → List String → Bool
not_allowed none allowed = false
not_allowed (some value) allowed = not (is_allowed value allowed)

-- `_validate_request_modifiers`.
unfoldable pub validate_modifiers : String → List String → List String → Request → Result (Unit {0})
validate_modifiers provider speeds geos rq = do
  let anthropic = str_eq provider "anthropic"
  refuse_if (anthropic && not_allowed rq.speed speeds) fast_mode_unsupported
  refuse_if (anthropic && not_allowed rq.inference_geo geos) inference_geo_unsupported
