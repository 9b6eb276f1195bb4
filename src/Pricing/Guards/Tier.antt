-- ===== src/Pricing/Guards/Tier.antt =====
-- The service tier that `_pin_service_tier` of kazenai/request_pricing.py lets a request name.
use mathlib.Core.Option.{some-injective}
use kazenai_core.Base.{
  ◌≡◌, ◌≢◌, inl, inr, refl, ap, ◌∙◌, subst, Bool, false, not, String, str_eq, eq_iff, Option, none,
  some, if◌then◌else◌, Bool-cases, arith,
}
use kazenai_core.Pricing.Request.{
  ok, refuse_if, Request, service_tier_unsupported, pin_service_tier,
}
use kazenai_core.Pricing.Guards.{not_refused, passed, is_text}

-- The one tier a request may name for a provider.
pub record IsPinned (provider tier : String) : Type 0 where
  pub for_anthropic : provider ≡ "anthropic" → tier ≡ "standard_only"
  pub for_others : provider ≢ "anthropic" → tier ≡ "default"

same_text : (t pin : String) → not (str_eq t pin) ≡ false → t ≡ pin
same_text t pin h = is_text t pin (ground arith)

tier-IsPinned :
    (provider t : String)
    → not (str_eq t (if str_eq provider "anthropic" then "standard_only" else "default")) ≡ false
    → IsPinned provider t
tier-IsPinned provider t h =
    let same = same_text t _ h in
    record {
      for_anthropic = λ is.
          same
          ∙ ap (λ b. if b then "standard_only" else "default") ((eq_iff provider "anthropic").1 is);
      for_others = λ other. same ∙ elim (Bool-cases (str_eq provider "anthropic")) [
        | inl is ↦ absurd (other (is_text provider "anthropic" is))
        | inr not_is ↦ ap (λ b. if b then "standard_only" else "default") not_is
      ];
    }

pub record IsTierPinned (provider : String) (rq : Request) : Type 0 where
  pub extra : (t : String) → rq.extra_tier ≡ some (some t) → IsPinned provider t
  pub top : (t : String) → rq.top_tier ≡ some t → IsPinned provider t

-- The test of a value that may be missing.
abbrev holds_of {ℓ} : {A : Type ℓ} → (A → Bool) → Option A → Bool
holds_of p x = elim x [ none ↦ false | some a ↦ p a ]

fails_of {ℓ} :
    {A : Type ℓ} (p : A → Bool) (x : Option A) (a : A)
    → holds_of p x ≡ false
    → x ≡ some a
    → p a ≡ false
fails_of p none a h e = absurd (cc)
fails_of p (some b) a h e = subst (λ c. p c ≡ false) (some-injective b a e) h

abbrev is_other : String → String → Bool
is_other provider tier =
    not (str_eq tier (if str_eq provider "anthropic" then "standard_only" else "default"))

pub pin_service_tier-IsTierPinned :
    (provider : String) (rq : Request)
    → pin_service_tier provider rq ≡ ok tt
    → IsTierPinned provider rq
unfolding pin_service_tier
pin_service_tier-IsTierPinned provider rq e =
    let p = is_other provider in
    let (inside, e1) =
      passed (holds_of (holds_of p) rq.extra_tier) service_tier_unsupported
        (λ _. refuse_if (holds_of p rq.top_tier) service_tier_unsupported) e in
    let outside = not_refused (holds_of p rq.top_tier) service_tier_unsupported tt e1 in
    record {
      extra = λ t is.
          tier-IsPinned provider t
            (fails_of p (some t) t (fails_of (holds_of p) rq.extra_tier (some t) inside is) refl);
      top = λ t is. tier-IsPinned provider t (fails_of p rq.top_tier t outside is);
    }
