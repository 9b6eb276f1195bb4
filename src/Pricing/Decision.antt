-- ===== src/Pricing/Decision.antt =====
-- The frozen price of a call, `PricingDecision`, `CallPricing`, `_select_row` and `_build` of
-- kazenai/request_pricing.py: the amount that is reserved before the provider is called.
use kazenai_core.Base.{
  ℕ, Bool, false, not, ◌&&◌, ◌||◌, String, str_eq, Option, none, some, if◌then◌else◌,
}
use kazenai_core.Base.Amount.{pos}
use kazenai_core.Pricing.Decimals.{Decimal}
use kazenai_core.Pricing.Rates.{RateVector, Tokens, scaled, cost_micro_usd}
use kazenai_core.Pricing.Catalog.{CatalogRow, Table, lookup_row}

pub record PricingDecision : Type 0 where
  pub catalog_version : String
  pub provider : String
  pub canonical_model_id : String
  pub presented_model_id : String
  pub request_tier : String
  pub expected_reported_tier : String
  pub context_band : String
  pub rate_vector : RateVector
  pub pricing_basis : String
  pub label : String
  pub input_token_count_source : String
  pub pricing_rule : String
  pub long_context_threshold : Option ℕ
  pub threshold_decision : String
  pub spend_bound : String
  pub n : ℕ
  pub reserved_micro_usd : ℕ
  pub cache_write_kind : String
  pub certified : Bool
  pub projected_input_tokens : ℕ
  pub projected_output_tokens : ℕ
  pub projected_image_tokens : ℕ
  pub price_multiplier : Decimal

-- The keys that `usage_evidence` may hold, and the text of each.
pub record Evidence : Type 0 where
  pub service_tier : String
  pub provider : String
  pub canonical_model_id : String
  pub exposure_source : String
  pub catalog_version : Option String
  pub pricing_rule : Option String
  pub pricing_basis : Option String
  pub label : Option String
  pub multiplier : Option Decimal

-- Amounts in dollars are kept here in micro-dollars.
pub record CallPricing : Type 0 where
  pub decision : PricingDecision
  pub hold_for_reconciliation : Bool
  pub reservation_state : String
  pub pricing_basis : String
  pub held_exposure : ℕ
  pub usage_evidence : Option Evidence
  pub exposure_source : String
  pub settled_components : Option Tokens

-- `CallPricing.__init__`.
unfoldable pub call_pricing : PricingDecision → CallPricing
call_pricing d = record {
  decision = d;
  hold_for_reconciliation = false;
  reservation_state = "reserved";
  pricing_basis = d.pricing_basis;
  held_exposure = d.reserved_micro_usd;
  usage_evidence = none;
  exposure_source = "certified_row";
  settled_components = none;
}

-- `_select_row`: none where it raises UnknownModelError; `control` is `control_profile_active()`.
unfoldable pub select_row : Bool → Table → String → String → String → Option CatalogRow
select_row control table provider canonical band =
    elim (lookup_row provider canonical "standard" band table) [
      | none ↦ none
      | some row ↦ if control && not row.certified then none else some row
    ]

abbrev pub writes_cache : String → Bool
writes_cache kind = str_eq kind "5m" || str_eq kind "1h"

-- The tokens that the bound is computed for: every input token is a cache write of the kind that the
-- request can cause, if any.
unfoldable pub reserve_tokens : String → ℕ → ℕ → ℕ → Tokens
reserve_tokens kind input output image = record {
  input_tokens = pos (if writes_cache kind then 0 else input);
  cached_input_tokens = pos 0;
  cache_write_5m_tokens = pos (if str_eq kind "5m" then input else 0);
  cache_write_1h_tokens = pos (if str_eq kind "1h" then input else 0);
  output_tokens = pos output;
  image_tokens = pos image;
  tool_calls = pos 0;
  audio_input_tokens = pos 0;
  audio_cached_input_tokens = pos 0;
}

-- The keyword arguments of `_build`.
pub record Projection : Type 0 where
  pub presented : String
  pub canonical : String
  pub provider : String
  pub row : CatalogRow
  pub n : ℕ
  pub input_tokens : ℕ
  pub output_tokens : ℕ
  pub image_tokens : ℕ
  pub count_source : String
  pub threshold_decision : String
  pub spend_bound : String
  pub cache_kind : String
  pub basis : String
  pub label : String
  pub multiplier : Decimal

unfoldable pub build_decision : Projection → PricingDecision
build_decision p =
    let rates = scaled p.row.rates p.multiplier in
    record {
      catalog_version = p.row.catalog_version;
      provider = p.provider;
      canonical_model_id = p.canonical;
      presented_model_id = p.presented;
      request_tier = p.row.request_tier;
      expected_reported_tier = p.row.expected_reported_tier;
      context_band = p.row.context_band;
      rate_vector = rates;
      pricing_basis = p.basis;
      label = p.label;
      input_token_count_source = p.count_source;
      pricing_rule = p.row.pricing_rule;
      long_context_threshold = p.row.long_context_threshold;
      threshold_decision = p.threshold_decision;
      spend_bound = p.spend_bound;
      n = p.n;
      reserved_micro_usd =
          cost_micro_usd rates
            (reserve_tokens p.cache_kind p.input_tokens p.output_tokens p.image_tokens);
      cache_write_kind = p.cache_kind;
      certified = p.row.certified;
      projected_input_tokens = p.input_tokens;
      projected_output_tokens = p.output_tokens;
      projected_image_tokens = p.image_tokens;
      price_multiplier = p.multiplier;
    }

-- `_build`.
unfoldable pub build : Projection → CallPricing
build p = call_pricing (build_decision p)
