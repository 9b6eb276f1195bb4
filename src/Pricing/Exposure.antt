-- ===== src/Pricing/Exposure.antt =====
-- The exposure of a call whose reported tier has no certified price, in kazenai/request_pricing.py.
use mathlib.Core.Option.{some-injective}
use kazenai_core.Base.{◌≡◌, ◌≤◌, ℕ, refl, subst, String, Option, none, some, true, false}
use kazenai_core.Pricing.Rates.{Tokens, cost_micro_usd}
use kazenai_core.Pricing.Usage.{Node, usage_components}
use kazenai_core.Pricing.Decimals.{Decimal}
use kazenai_core.Pricing.Decision.{PricingDecision, CallPricing}
use kazenai_core.Pricing.Tiers.{Tiers}
use kazenai_core.Pricing.Settling.{
  below_one, multiplier_of, Settings, settle_unknown, settle_mismatch, settle_tier, settle_usage,
  tier_of, tier_row, certified_only, is_unexpected,
}
use kazenai_core.Pricing.Holds.{known_factor, held_for-covers}

-- The amount covers what was reserved and the frozen price of the tokens.
abbrev pub Covers : PricingDecision → Tokens → ℕ → Type 0
Covers d t m = (d.reserved_micro_usd ≤ m) × (cost_micro_usd d.rate_vector t ≤ m)

module _ (s : Settings) (tier org : String) (u : Node) (pricing : CallPricing) (tiers : Tiers)
    (m : ℕ) where
  settle_unknown-Covers :
      (factor : Option Decimal)
      → ((f : Decimal) → factor ≡ some f → below_one f ≡ false)
      → (settle_unknown s factor tier org u pricing tiers).micros ≡ some m
      → Covers pricing.decision (usage_components u) m
  unfolding settle_unknown
  settle_unknown-Covers none fine e = absurd (cc)
  settle_unknown-Covers (some factor) fine e =
      subst (Covers pricing.decision (usage_components u)) (some-injective _ m e)
        (held_for-covers pricing.decision (usage_components u) factor (fine factor refl))

  settle_tier-Covers :
      is_unexpected pricing.decision tier ≡ true
      → certified_only (tier_row s.table pricing.decision tier) ≡ none
      → (settle_tier s (some tier) org u pricing tiers).micros ≡ some m
      → Covers pricing.decision (usage_components u) m
  unfolding settle_tier settle_mismatch
  settle_tier-Covers other unpriced =
      rw (other, unpriced)
        (settle_unknown-Covers (multiplier_of s.control s.mismatch)
          (known_factor s.control s.mismatch))

-- Where the report names a tier other than the expected one and no certified row prices that tier, an
-- amount that is returned is no less than what was reserved and no less than the frozen price of the
-- reported tokens, whatever KAZENAI_TIER_MISMATCH_MULTIPLIER is set to.
pub settle_usage-Covers :
    (s : Settings) (pricing : CallPricing) (u : Node) (reported : Option String) (org : String)
    (tiers : Tiers) (tier : String) (m : ℕ)
    → tier_of s u reported ≡ some tier
    → is_unexpected pricing.decision tier ≡ true
    → certified_only (tier_row s.table pricing.decision tier) ≡ none
    → (settle_usage s pricing u reported org tiers).micros ≡ some m
    → Covers pricing.decision (usage_components u) m
unfolding settle_usage
settle_usage-Covers s pricing u reported org tiers tier m named other unpriced =
    rw named (settle_tier-Covers s tier org u _ tiers m other unpriced)
