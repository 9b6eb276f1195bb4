-- ===== src/Pricing/Guards.antt =====
-- The refusals of kazenai/request_pricing.py before a call is priced, and what is true of the requests
-- that pass them: lemmas on chains of refusals, on lists of texts and on texts.
pub mod Tier
pub mod Tools
pub mod Modifiers
use mathlib.Core.Option.{some-injective}
use kazenai_core.Base.{
  ℕ, ◌≡◌, ◌≢◌, ◌⊎◌, inl, inr, refl, ap, sym, ◌∙◌, subst, Bool, true, false, not, ◌&&◌, ◌||◌, String,
  str_eq, eq_iff, Option, none, some, List, [], ◌∷◌, any, All, if◌then◌else◌, if_cases, Bool-cases,
  arith,
}
use kazenai_core.Base.Text.{codes, codes_eq, codes_eq_sound, concat, lower_codes, strip}
use kazenai_core.DispatchGate.Paths.{starts_with, starts_with-concat}
use kazenai_core.Pricing.Tiers.{TierEntry, blocks_model}
use kazenai_core.Pricing.Request.{
  Refusal, Result, ok, refused, ◌>>=◌, ◌>>◌, refuse_if, Request, service_tier_unsupported,
  mcp_servers_unsupported, container_unsupported, web_search_options_unsupported,
  audio_output_unsupported, anthropic_server_tool_unsupported, anthropic_tool_unsupported,
  responses_builtin_tool_unsupported, chat_tool_unsupported, fast_mode_unsupported,
  inference_geo_unsupported, pin_service_tier, check_tool, check_tools, validate_tools,
  validate_modifiers,
}

-- A chain that succeeds succeeded at its first step.
pub bind_ok {ℓ κ} :
    {A : Type ℓ} {B : Type κ} (m : Result A) (k : A → Result B) {b : B}
    → (m >>= k) ≡ ok b
    → (a : A) × (m ≡ ok a) × (k a ≡ ok b)
bind_ok (ok a) k e = (a, refl, e)
bind_ok (refused code) k e = absurd (cc)

pub not_refused : (b : Bool) (code : Refusal) (u : Unit {0}) → refuse_if b code ≡ ok u → b ≡ false
not_refused true code u e = absurd (cc)
not_refused false code u e = refl

-- A chain that succeeds was not refused at its first step.
pub passed {ℓ} :
    {B : Type ℓ} (b : Bool) (code : Refusal) (k : Unit {0} → Result B) {out : B}
    → (refuse_if b code >>= k) ≡ ok out
    → (b ≡ false) × (k tt ≡ ok out)
passed true code k e = absurd (cc)
passed false code k e = (refl, e)

-- One of the texts of a list.
pub data Listed (t : String) : List String → Type 0 where
  first : {ts : List String} → Listed t (t ∷ ts)
  later : {u : String} {ts : List String} → Listed t ts → Listed t (u ∷ ts)

-- What a list passes a test for is one of its texts.
pub any-Listed {ℓ} :
    {P : String → Type ℓ} (p : String → Bool) (ts : List String)
    → ((t : String) → p t ≡ true → P t)
    → any p ts ≡ true
    → (t : String) × Listed t ts × P t
any-Listed p [] sound h = absurd (cc)
any-Listed p (t ∷ ts) sound h = elim (Bool-cases (p t)) [
  | inl hit ↦ (t, first, sound t hit)
  | inr miss ↦
      let (u, found, holds) = any-Listed p ts sound (ground arith) in (u, later found, holds)
]

pub is_text : (a b : String) → str_eq a b ≡ true → a ≡ b
is_text a b = (eq_iff a b).0

pub other_text : (a b : String) → str_eq a b ≡ false → a ≢ b
other_text a b h same = let e = (eq_iff a b).1 same in absurd (ground arith)

pub not_both : (a b : Bool) → (a && b) ≡ false → a ≡ true → b ≡ false
not_both a b h k = ground arith
