-- ===== src/Pricing/Holds.antt =====
-- A tier that was reported and not expected, in kazenai/request_pricing.py: the call is held at no
-- less than its reserve and its price, and the breaker refuses the decision's own provider and canonical
-- model name from then on.
use native.Mathlib.Nat.{
  le-max_left, le-max_right, le_trans, mul-le-mul_left, sub_self, add-sub_cancel_left, mul-one,
}
use mathlib.Core.Option.{some-injective}
use kazenai_core.Base.{
  ℕ, ◌+◌, ◌*◌, ◌-◌, ◌^◌, ◌≤◌, ◌≡◌, ◌∙◌, refl, ap, subst, inl, inr, Bool, true, false, ◌&&◌, ◌||◌,
  String, str_eq, eq_iff, Option, none, some, List, [], ◌∷◌, ◌++◌, any, any-append, if_cases,
  is_some, arith, Bool-cases,
}
use kazenai_core.Pricing.Decimals.{
  Decimal, decimal_of, whole, ◌*ᴰ◌, half_even, rounded, nanos, ceil_thousand, decimal_to_micro_usd,
  micro_usd_to_decimal, round_up,
}
use kazenai_core.Pricing.Rounding.{decimal_to_micro_usd_mono}
use kazenai_core.Pricing.Rates.{Tokens, cost_micro_usd}
use kazenai_core.Pricing.Usage.{Node}
use kazenai_core.Pricing.Catalog.{CatalogRow}
use kazenai_core.Pricing.Decision.{PricingDecision, CallPricing}
use kazenai_core.Pricing.Tiers.{
  TierEntry, Tiers, has_key, blocks_model, check_entries, check_breaker, open_breaker,
}
use kazenai_core.Pricing.Settling.{
  Setting, unset, not_finite, negative, number, below_one, multiplier_of, Settings, Settled,
  settle_at, settle_other, held_for, settle_unknown, mismatches, settle_mismatch, settle_tier,
  settle_usage, tier_of, tier_row, certified_only, is_unexpected,
}

whole_nanos : (n : ℕ) → nanos n (10 ^ 6) ≡ n * 1000
unfolding nanos half_even rounded round_up
whole_nanos n = ground arith

-- Micro-dollars that are turned into a decimal and back are unchanged.
pub decimal_to_micro_usd-micro_usd_to_decimal :
    (micros : ℕ) → decimal_to_micro_usd (micro_usd_to_decimal micros) ≡ micros
unfolding decimal_to_micro_usd micro_usd_to_decimal
decimal_to_micro_usd-micro_usd_to_decimal micros =
    ap ceil_thousand (whole_nanos micros) ∙ omega arith

scaled_up :
    (base c q : ℕ) → 10 ^ q ≤ c → base * 10 ^ (6 + q - 6) ≤ base * c * 10 ^ (6 + q - (6 + q))
scaled_up base c q h =
    rw (sub_self (6 + q), add-sub_cancel_left 6 q, mul-one (base * c)) (mul-le-mul_left base h)

-- A factor of at least one never lowers an amount.
raised :
    (base : ℕ) (factor : Decimal)
    → below_one factor ≡ false
    → base ≤ decimal_to_micro_usd (micro_usd_to_decimal base *ᴰ factor)
unfolding micro_usd_to_decimal ◌*ᴰ◌
raised base factor h =
    subst (λ m. m ≤ decimal_to_micro_usd (decimal_of base 6 *ᴰ factor))
      (decimal_to_micro_usd-micro_usd_to_decimal base)
      (decimal_to_micro_usd_mono (decimal_of base 6) (decimal_of base 6 *ᴰ factor)
        (6 + factor.places) (omega arith) (omega arith)
        (scaled_up base factor.coefficient factor.places (ground (arith, h))))

-- A factor that the setting yields is at least one.
pub known_factor :
    (control : Bool) (setting : Setting) (factor : Decimal)
    → multiplier_of control setting ≡ some factor
    → below_one factor ≡ false
unfolding multiplier_of
known_factor true unset factor e = absurd (cc)
known_factor false unset factor e =
    subst (λ f. below_one f ≡ false) (some-injective (whole 1) factor e) refl
known_factor control not_finite factor e = absurd (cc)
known_factor control negative factor e = absurd (cc)
known_factor control (number d) factor e =
    if_cases (λ (o : Option Decimal). o ≡ some factor → below_one factor ≡ false) (below_one d)
      (λ _ e. absurd (cc))
      (λ fine e. subst (λ f. below_one f ≡ false) (some-injective d factor e) fine) e

-- By a factor of at least one, the exposure covers the reserve and the frozen price.
pub held_for-covers :
    (d : PricingDecision) (t : Tokens) (factor : Decimal)
    → below_one factor ≡ false
    → (d.reserved_micro_usd ≤ held_for d t factor)
      × (cost_micro_usd d.rate_vector t ≤ held_for d t factor)
unfolding held_for
held_for-covers d t factor h = (
  le-max_right _ d.reserved_micro_usd,
  le_trans (raised (cost_micro_usd d.rate_vector t) factor h) (le-max_left _ d.reserved_micro_usd),
)

first_closed :
    (now : ℕ) (org provider model : String) (entries : List TierEntry)
    → is_some (check_entries now org provider model entries).1
      ≡ any (blocks_model org provider model) entries
unfolding check_entries
first_closed now org provider model [] = refl
first_closed now org provider model (e ∷ rest) =
    elim (Bool-cases (blocks_model org provider model e)) [
      | inl hit ↦ rw (hit) refl
      | inr miss ↦ rw (miss) (first_closed now org provider model rest)
    ]

-- The check refuses a call exactly where an entry stands for its organization, provider and model.
pub check_breaker_lem :
    (now : ℕ) (org provider model : String) (tiers : Tiers)
    → is_some (check_breaker now org provider model tiers).1
      ≡ any (blocks_model org provider model) tiers.breaker
unfolding check_breaker
check_breaker_lem now org provider model tiers = first_closed now org provider model tiers.breaker

first_three : (a b c d : Bool) → (a && b && c && d) ≡ true → (a && b && c) ≡ true
first_three a b c d h = ground arith

wider :
    (org provider model tier : String) (e : TierEntry)
    → has_key org provider model tier e ≡ true
    → blocks_model org provider model e ≡ true
unfolding has_key blocks_model
wider org provider model tier e =
    first_three (str_eq e.org org) (str_eq e.provider provider) (str_eq e.model model)
      (str_eq e.tier tier)

any_wider :
    (a b c d : Bool)
    → (a ≡ true → b ≡ true)
    → (c ≡ true → d ≡ true)
    → (a || c) ≡ true
    → (b || d) ≡ true
any_wider true b c d f g h = rw (f refl) refl
any_wider false true c d f g h = refl
any_wider false false c d f g h = g h

blocked :
    (org provider model tier : String) (entries : List TierEntry)
    → any (has_key org provider model tier) entries ≡ true
    → any (blocks_model org provider model) entries ≡ true
blocked org provider model tier [] h = absurd (cc)
blocked org provider model tier (e ∷ rest) h =
    any_wider _ _ _ _ (wider org provider model tier e) (blocked org provider model tier rest) h

last_one : (b c : Bool) → c ≡ true → (b || (c || false)) ≡ true
last_one b c h = ground arith

added :
    (p : TierEntry → Bool) (entries : List TierEntry) (e : TierEntry)
    → p e ≡ true
    → any p (entries ++ (e ∷ [])) ≡ true
added p entries e h = rw (any-append p entries (e ∷ [])) (last_one (any p entries) (p e) h)

own_key :
    (org provider model : String)
    → (str_eq org org && str_eq provider provider && str_eq model model) ≡ true
own_key org provider model =
    ground (
      arith,
      (eq_iff org org).1 refl,
      (eq_iff provider provider).1 refl,
      (eq_iff model model).1 refl,
    )

new_blocks :
    (org provider model : String) (e : TierEntry)
    → e.org ≡ org
    → e.provider ≡ provider
    → e.model ≡ model
    → blocks_model org provider model e ≡ true
unfolding blocks_model
new_blocks org provider model e p q r = rw (p, q, r) (own_key org provider model)

-- Once the breaker is opened for a tier of a model, an entry stands for the model.
pub open_breaker-blocks :
    (now : ℕ) (org provider model tier : String) (held : ℕ) (tiers : Tiers)
    → any
        (blocks_model org provider model)
        (open_breaker now org provider model tier held tiers).breaker
      ≡ true
unfolding open_breaker
open_breaker-blocks now org provider model tier held tiers =
    if_cases (λ (l : List TierEntry). any (blocks_model org provider model) l ≡ true)
      (any (has_key org provider model tier) tiers.breaker)
      (λ stands. blocked org provider model tier tiers.breaker stands)
      (λ _.
        added (blocks_model org provider model) tiers.breaker _
          (new_blocks org provider model _ refl refl refl))

-- What is left behind after a tier that was not expected: the amount returned is held for
-- reconciliation, and the decision's own provider and canonical model name are refused at any later
-- time.
pub record IsHeld (s : Settings) (org : String) (d : PricingDecision) (m : ℕ) (out : Settled)
    : Type 0 where
  pub holds : out.pricing.hold_for_reconciliation ≡ true
  pub pending : out.pricing.reservation_state ≡ "pending_reconciliation"
  pub exposure : out.pricing.held_exposure ≡ m
  pub refuses :
      (later : ℕ)
      → is_some (check_breaker later org d.provider d.canonical_model_id out.tiers).1 ≡ true

closes :
    (s : Settings) (later : ℕ) (org tier : String) (d : PricingDecision) (held : ℕ) (tiers : Tiers)
    → is_some
        (check_breaker later org d.provider d.canonical_model_id
          (open_breaker s.now org d.provider d.canonical_model_id tier held tiers)).1
      ≡ true
closes s later org tier d held tiers =
    check_breaker_lem later org d.provider d.canonical_model_id _
    ∙ open_breaker-blocks s.now org d.provider d.canonical_model_id tier held tiers

other-IsHeld :
    (s : Settings) (row : CatalogRow) (tier org : String) (u : Node) (pricing : CallPricing)
    (tiers : Tiers) (m : ℕ)
    → (settle_other s row tier org u pricing tiers).micros ≡ some m
    → IsHeld s org pricing.decision m (settle_other s row tier org u pricing tiers)
unfolding settle_other settle_at
other-IsHeld s row tier org u pricing tiers m e = record {
  holds = refl;
  pending = refl;
  exposure = some-injective _ m e;
  refuses = λ later. closes s later org tier pricing.decision 0 tiers;
}

unknown-IsHeld :
    (s : Settings) (factor : Option Decimal) (tier org : String) (u : Node) (pricing : CallPricing)
    (tiers : Tiers) (m : ℕ)
    → (settle_unknown s factor tier org u pricing tiers).micros ≡ some m
    → IsHeld s org pricing.decision m (settle_unknown s factor tier org u pricing tiers)
unfolding settle_unknown
unknown-IsHeld s none tier org u pricing tiers m e = absurd (cc)
unknown-IsHeld s (some factor) tier org u pricing tiers m e = record {
  holds = refl;
  pending = refl;
  exposure = some-injective _ m e;
  refuses = λ later. closes s later org tier pricing.decision _ tiers;
}

mismatch-IsHeld :
    (s : Settings) (row : Option CatalogRow) (tier org : String) (u : Node) (pricing : CallPricing)
    (tiers : Tiers) (m : ℕ)
    → (settle_mismatch s row tier org u pricing tiers).micros ≡ some m
    → IsHeld s org pricing.decision m (settle_mismatch s row tier org u pricing tiers)
unfolding settle_mismatch
mismatch-IsHeld s (some row) tier org u pricing tiers m e =
    other-IsHeld s row tier org u pricing tiers m e
mismatch-IsHeld s none tier org u pricing tiers m e =
    unknown-IsHeld s _ tier org u pricing tiers m e

tier-IsHeld :
    (s : Settings) (tier : Option String) (org : String) (u : Node) (pricing : CallPricing)
    (tiers : Tiers) (m : ℕ)
    → mismatches pricing.decision tier ≡ true
    → (settle_tier s tier org u pricing tiers).micros ≡ some m
    → IsHeld s org pricing.decision m (settle_tier s tier org u pricing tiers)
unfolding settle_tier
tier-IsHeld s none org u pricing tiers m other e = absurd (cc)
tier-IsHeld s (some tier) org u pricing tiers m other e =
    if_cases (λ (out : Settled). out.micros ≡ some m → IsHeld s org pricing.decision m out)
      (is_unexpected pricing.decision tier)
      (λ _.
        mismatch-IsHeld s (certified_only (tier_row s.table pricing.decision tier)) tier org u
          pricing tiers m)
      (λ same. absurd (cc)) e

-- Where the report names a tier other than the expected one and an amount is returned, that amount is
-- the exposure that is held for reconciliation, whichever of the two prices was used; and from then on
-- a call of the organization that presents the decision's own provider and the canonical model name is
-- refused by the breaker. A call that presents an alias or another provider is not covered.
pub settle_usage-IsHeld :
    (s : Settings) (pricing : CallPricing) (u : Node) (reported : Option String) (org : String)
    (tiers : Tiers) (m : ℕ)
    → mismatches pricing.decision (tier_of s u reported) ≡ true
    → (settle_usage s pricing u reported org tiers).micros ≡ some m
    → IsHeld s org pricing.decision m (settle_usage s pricing u reported org tiers)
unfolding settle_usage
settle_usage-IsHeld s pricing u reported org tiers m =
    tier-IsHeld s (tier_of s u reported) org u _ tiers m
