-- ===== src/Pricing/Settling.antt =====
-- `settle_usage` and `_multiplier` of kazenai/request_pricing.py: the micro-dollars of a usage report
-- on the frozen price of its call, and the hold where the report names a tier that was not expected.
use kazenai_core.Base.{
  ℕ, ◌^◌, max, Bool, true, false, not, ◌&&◌, String, str_eq, Option, none, some, if◌then◌else◌, ltb,
  or_else,
}
use kazenai_core.Base.Text.{is_empty}
use kazenai_core.Pricing.Decimals.{Decimal, whole, ◌*ᴰ◌, decimal_to_micro_usd, micro_usd_to_decimal}
use kazenai_core.Pricing.Rates.{RateVector, Tokens, scaled, cost_micro_usd}
use kazenai_core.Pricing.Usage.{Node, usage_components, reported_service_tier}
use kazenai_core.Pricing.Catalog.{CatalogRow, Table, lookup_row}
use kazenai_core.Pricing.Decision.{PricingDecision, CallPricing}
use kazenai_core.Pricing.Tiers.{Tiers, open_breaker}

-- KAZENAI_TIER_MISMATCH_MULTIPLIER as `Decimal` reads it.
pub data Setting : Type 0 where
  unset not_finite negative : Setting
  number : Decimal → Setting

abbrev pub below_one : Decimal → Bool
below_one d = ltb d.coefficient (10 ^ d.places)

-- `_multiplier`: none where it raises PricingConfigError.
unfoldable pub multiplier_of : Bool → Setting → Option Decimal
multiplier_of control unset = if control then none else some (whole 1)
multiplier_of control not_finite = none
multiplier_of control negative = none
multiplier_of control (number d) = if below_one d then none else some d

-- What the code reads while it settles, beside its arguments.
pub record Settings : Type 0 where
  pub now : ℕ
  pub table : Table
  pub control : Bool
  pub mismatch : Setting
  pub str_of : Node → String

-- The amount that is returned, none where PricingConfigError is raised, and what is left behind.
pub record Settled : Type 0 where
  pub micros : Option ℕ
  pub pricing : CallPricing
  pub tiers : Tiers

-- The row of the reported tier, in the band of the call, else in the short band.
unfoldable pub tier_row : Table → PricingDecision → String → Option CatalogRow
tier_row table d tier =
    or_else (lookup_row d.provider d.canonical_model_id tier d.context_band table)
      (lookup_row d.provider d.canonical_model_id tier "short" table)

abbrev pub certified_only : Option CatalogRow → Option CatalogRow
certified_only none = none
certified_only (some row) = if row.certified then some row else none

-- The end of `settle_usage`, at given rates.
unfoldable pub settle_at : RateVector → Node → CallPricing → Tiers → Settled
settle_at rates usage pricing tiers =
    let components = usage_components usage in
    let micros = cost_micro_usd rates components in
    record {
      micros = some micros;
      pricing = record pricing {
        settled_components = some components;
        held_exposure = if pricing.hold_for_reconciliation then micros else pricing.held_exposure;
      };
      tiers = tiers;
    }

-- The reported tier has a certified row: its price is charged, and the call is held.
unfoldable pub settle_other :
    Settings → CatalogRow → String → String → Node → CallPricing → Tiers → Settled
settle_other s other tier org usage pricing tiers =
    let d = pricing.decision in
    settle_at (scaled other.rates d.price_multiplier) usage
      (record pricing {
        hold_for_reconciliation = true;
        reservation_state = "pending_reconciliation";
        exposure_source = "certified_unexpected_tier";
        usage_evidence = some (record {
          service_tier = tier;
          provider = d.provider;
          canonical_model_id = d.canonical_model_id;
          exposure_source = "certified_unexpected_tier";
          catalog_version = some other.catalog_version;
          pricing_rule = some other.pricing_rule;
          pricing_basis = none;
          label = none;
          multiplier = none;
        });
      })
      (open_breaker s.now org d.provider d.canonical_model_id tier 0 tiers)

-- The exposure for a tier without a price: the frozen price times the operator's factor, and no less
-- than what was reserved.
unfoldable pub held_for : PricingDecision → Tokens → Decimal → ℕ
held_for d components factor =
    let base = cost_micro_usd d.rate_vector components in
    max (decimal_to_micro_usd (micro_usd_to_decimal base *ᴰ factor)) d.reserved_micro_usd

unfoldable pub settle_unknown :
    Settings → Option Decimal → String → String → Node → CallPricing → Tiers → Settled
settle_unknown s none tier org usage pricing tiers = record {
  micros = none;
  pricing = pricing;
  tiers = tiers;
}
settle_unknown s (some factor) tier org usage pricing tiers =
    let d = pricing.decision in
    let components = usage_components usage in
    let held = held_for d components factor in
    record {
      micros = some held;
      pricing = record pricing {
        settled_components = some components;
        hold_for_reconciliation = true;
        reservation_state = "pending_reconciliation";
        pricing_basis = "unknown_tier";
        exposure_source = "operator_risk_multiplier";
        held_exposure = held;
        usage_evidence = some (record {
          service_tier = tier;
          provider = d.provider;
          canonical_model_id = d.canonical_model_id;
          exposure_source = "operator_risk_multiplier";
          catalog_version = none;
          pricing_rule = none;
          pricing_basis = some "unknown_tier";
          label = some "estimate";
          multiplier = some factor;
        });
      };
      tiers = open_breaker s.now org d.provider d.canonical_model_id tier held tiers;
    }

-- `tier and tier != decision.expected_reported_tier`
abbrev pub is_unexpected : PricingDecision → String → Bool
is_unexpected d tier = not (is_empty tier) && not (str_eq tier d.expected_reported_tier)

abbrev pub mismatches : PricingDecision → Option String → Bool
mismatches d none = false
mismatches d (some tier) = is_unexpected d tier

unfoldable pub settle_mismatch :
    Settings → Option CatalogRow → String → String → Node → CallPricing → Tiers → Settled
settle_mismatch s (some other) tier org usage pricing tiers =
    settle_other s other tier org usage pricing tiers
settle_mismatch s none tier org usage pricing tiers =
    settle_unknown s (multiplier_of s.control s.mismatch) tier org usage pricing tiers

-- The tier that the report is read for, none where it names none.
abbrev pub tier_of : Settings → Node → Option String → Option String
tier_of s usage reported = or_else reported (reported_service_tier s.str_of usage)

unfoldable pub settle_tier :
    Settings → Option String → String → Node → CallPricing → Tiers → Settled
settle_tier s none org usage pricing tiers =
    settle_at pricing.decision.rate_vector usage pricing tiers
settle_tier s (some tier) org usage pricing tiers =
    if is_unexpected pricing.decision tier
    then settle_mismatch s (certified_only (tier_row s.table pricing.decision tier)) tier org usage
        pricing tiers
    else settle_at pricing.decision.rate_vector usage pricing tiers

-- `settle_usage`.
unfoldable pub settle_usage :
    Settings → CallPricing → Node → Option String → String → Tiers → Settled
settle_usage s pricing usage reported org tiers =
    settle_tier s (tier_of s usage reported) org usage
      (record pricing { exposure_source = "certified_row" }) tiers
