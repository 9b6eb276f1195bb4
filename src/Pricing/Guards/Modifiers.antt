-- ===== src/Pricing/Guards/Modifiers.antt =====
-- What `_validate_request_modifiers` and `_check_breaker` of kazenai/request_pricing.py let pass.
use mathlib.Core.Option.{some-injective}
use kazenai_core.Base.{
  ◌≡◌, ◌≢◌, subst, Bool, false, not, ◌&&◌, String, str_eq, eq_iff, Option, none, some, List, [],
  ◌∷◌, any, All, arith,
}
use kazenai_core.Base.Text.{codes, codes_eq, codes_eq_sound, lower_codes, strip}
use kazenai_core.Pricing.Tiers.{TierEntry, blocks_model}
use kazenai_core.Pricing.Request.{
  ok, refuse_if, Request, fast_mode_unsupported, inference_geo_unsupported, validate_modifiers,
}
use kazenai_core.Pricing.Guards.{not_refused, passed, Listed, any-Listed, not_both}

-- A value that is allowed once it is stripped and in lower case.
abbrev pub IsPlain : String → List String → Type 0
IsPlain value allowed = (a : String) × Listed a allowed × (codes a ≡ lower_codes (strip value))

-- An Anthropic request's `speed` and `inference_geo`, where it has them, are allowed ones.
pub record IsModified (provider : String) (speeds geos : List String) (rq : Request) : Type 0 where
  pub speed : provider ≡ "anthropic" → (v : String) → rq.speed ≡ some v → IsPlain v speeds
  pub geo : provider ≡ "anthropic" → (v : String) → rq.inference_geo ≡ some v → IsPlain v geos

abbrev is_allowed : String → List String → Bool
is_allowed value allowed = any (λ a. codes_eq (codes a) (lower_codes (strip value))) allowed

abbrev not_allowed : Option String → List String → Bool
not_allowed none allowed = false
not_allowed (some value) allowed = not (is_allowed value allowed)

plain :
    (given : Option String) (allowed : List String) (v : String)
    → not_allowed given allowed ≡ false
    → given ≡ some v
    → IsPlain v allowed
plain none allowed v h e = absurd (cc)
plain (some w) allowed v h e =
    subst (λ x. IsPlain x allowed) (some-injective w v e)
      (any-Listed (λ a. codes_eq (codes a) (lower_codes (strip w))) allowed
        (λ a. codes_eq_sound (codes a) (lower_codes (strip w))) (ground arith))

pub validate_modifiers-IsModified :
    (provider : String) (speeds geos : List String) (rq : Request)
    → validate_modifiers provider speeds geos rq ≡ ok tt
    → IsModified provider speeds geos rq
unfolding validate_modifiers
validate_modifiers-IsModified provider speeds geos rq e =
    let anthropic = str_eq provider "anthropic" in
    let (speed, e1) =
      passed (anthropic && not_allowed rq.speed speeds) fast_mode_unsupported
        (λ _. refuse_if (anthropic && not_allowed rq.inference_geo geos) inference_geo_unsupported)
        e in
    let geo =
      not_refused (anthropic && not_allowed rq.inference_geo geos) inference_geo_unsupported tt
        e1 in
    record {
      speed = λ is v.
          plain rq.speed speeds v (not_both anthropic _ speed ((eq_iff provider "anthropic").1 is));
      geo = λ is v.
          plain rq.inference_geo geos v
            (not_both anthropic _ geo ((eq_iff provider "anthropic").1 is));
    }

-- An entry of the breaker that does not stand against a call.
abbrev pub IsAside : String → String → String → TierEntry → Type 0
IsAside org provider model e = e.org ≡ org → e.provider ≡ provider → e.model ≢ model

aside :
    (org provider model : String) (e : TierEntry)
    → blocks_model org provider model e ≡ false
    → IsAside org provider model e
unfolding blocks_model
aside org provider model e h o p m =
    let a = (eq_iff e.org org).1 o in
    let b = (eq_iff e.provider provider).1 p in
    let c = (eq_iff e.model model).1 m in absurd (ground arith)

pub any-IsAside :
    (org provider model : String) (entries : List TierEntry)
    → any (blocks_model org provider model) entries ≡ false
    → All (IsAside org provider model) entries
any-IsAside org provider model [] h = tt
any-IsAside org provider model (e ∷ rest) h =
    (aside org provider model e (ground arith), any-IsAside org provider model rest (ground arith))
