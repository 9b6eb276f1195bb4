-- ===== src/Pricing/Tests.antt =====
-- Runs of kazenai/price_catalog.py and kazenai/request_pricing.py: GPT-4o's rates, a report with
-- cached tokens, and a tier without a price.
use kazenai_core.Base.{◌≤◌, ◌≡◌, refl, not, ◌&&◌, true, false, none, some, [], ◌∷◌, All, arith}
use kazenai_core.Base.Text.{is_empty}
use kazenai_core.Base.Amount.{pos, pos_part, ◌-ℤ◌, ◌+ℤ◌, ◌≤ℤ◌}
use kazenai_core.Pricing.Decimals.{
  micro_usd_to_decimal, nanos, per_million, ◌*ᴰ◌, ◌+ᴰ◌, decimal_of, whole, decimal_to_micro_usd,
}
use kazenai_core.Pricing.Rates.{
  audio_cost, text_cost, RateVector, Tokens, component_cost, cost_micro_usd, scaled, text_cost,
  audio_cost,
}
use kazenai_core.Pricing.Cost.{IsFine, IsWorth, worth, component_cost-IsWorth}
use kazenai_core.Pricing.Usage.{
  Node, number, mapping, no_fields, field, usage_components, figures, components_of, uncached_of,
  cached_of, billed_of, audio_of, usage_field, nested, read, get, has_key, cache_writes,
  reported_service_tier,
}
use kazenai_core.Pricing.Components.{charged_input, usage_components-charged}
use kazenai_core.Pricing.Catalog.{
  CatalogRow, lookup_row, put_row, has_ended, key_eq, row_at, build_catalog, find_row,
}
use kazenai_core.Pricing.Schedule.{InForce, row_at-InForce}
use kazenai_core.Pricing.Rows.{IsFound, build_catalog-All}
use kazenai_core.Pricing.Decision.{Projection, build, build_decision, reserve_tokens, call_pricing}
use kazenai_core.Pricing.Tiers.{Tiers}
use kazenai_core.Pricing.Settling.{
  Settings, unset, settle_usage, settle_tier, settle_at, settle_mismatch, settle_unknown, tier_row,
  held_for, multiplier_of, mismatches, tier_of, certified_only, is_unexpected,
}
use kazenai_core.Pricing.Bound.{
  rates_of, input_count, IsWithin, IsUnder, reserved_rate, settle_usage-reserved,
}
use kazenai_core.Pricing.Exposure.{Covers, settle_usage-Covers}
use kazenai_core.Pricing.Holds.{
  decimal_to_micro_usd-micro_usd_to_decimal, IsHeld, settle_usage-IsHeld,
}

abbrev pub gpt_4o_rates : RateVector
gpt_4o_rates = record {
  input = decimal_of 250 2;
  cached_input = some (decimal_of 125 2);
  cache_write_5m = none;
  cache_write_1h = none;
  output = decimal_of 10 0;
  image = none;
  tool_per_call = none;
  audio_input = none;
  audio_cached_input = none;
}

abbrev pub gpt_4o : CatalogRow
gpt_4o = record {
  provider = "openai";
  model = "gpt-4o";
  request_tier = "standard";
  context_band = "short";
  expected_reported_tier = "default";
  rates = gpt_4o_rates;
  certified = true;
  long_context_threshold = none;
  pricing_rule = "openai_standard_short";
  label = "catalog";
  catalog_version = "2026-10-17";
  scheduled = [];
  valid_until = none;
}

abbrev call : Projection
call = record {
  presented = "gpt-4o";
  canonical = "gpt-4o";
  provider = "openai";
  row = gpt_4o;
  n = 1;
  input_tokens = 1000;
  output_tokens = 500;
  image_tokens = 0;
  count_source = "local_byte_estimate";
  threshold_decision = "no_long_band";
  spend_bound = "bounded";
  cache_kind = "none";
  basis = "catalog";
  label = "catalog";
  multiplier = whole 1;
}

-- {"prompt_tokens": 900, "completion_tokens": 400, "prompt_tokens_details": {"cached_tokens": 100}}
abbrev report : Node
report = mapping (
    field "prompt_tokens" (number (pos 900)) (
      field "completion_tokens" (number (pos 400)) (
        field "prompt_tokens_details" (mapping (field "cached_tokens" (number (pos 100)) no_fields))
          no_fields)))

abbrev settings : Settings
settings = record {
  now = 0;
  table = gpt_4o ∷ [];
  control = false;
  mismatch = unset;
  str_of = λ _. "priority";
}

abbrev pub no_tiers : Tiers
no_tiers = record { breaker = []; audit = [] }

reserved_cost : (build_decision call).reserved_micro_usd ≡ 7500
unfolding build_decision scaled cost_micro_usd component_cost text_cost audio_cost ◌+ᴰ◌ ◌*ᴰ◌
    per_million decimal_to_micro_usd nanos reserve_tokens
reserved_cost = refl

settled_cost : (settle_usage settings (build call) report none "acme" no_tiers).micros ≡ some 6125
unfolding build_decision scaled cost_micro_usd component_cost text_cost audio_cost ◌+ᴰ◌ ◌*ᴰ◌
    per_million decimal_to_micro_usd nanos reserve_tokens settle_usage settle_tier settle_at build
    call_pricing usage_components components_of figures uncached_of cached_of billed_of audio_of
    usage_field nested read get has_key cache_writes reported_service_tier ◌-ℤ◌
settled_cost = refl

rates-IsFine : IsFine 2 (rates_of call)
unfolding scaled
rates-IsFine = record {
  input_fits = omega arith;
  cached_fits = omega arith;
  write_5m_fits = omega arith;
  write_1h_fits = omega arith;
  output_fits = omega arith;
  image_fits = omega arith;
  tool_fits = omega arith;
  audio_fits = omega arith;
  audio_cached_fits = omega arith;
}

rates-IsUnder : IsUnder 2 (rates_of call) (reserved_rate "none" (rates_of call))
unfolding scaled
rates-IsUnder = record {
  input_under = omega arith;
  cached_under = omega arith;
  write_5m_under = omega arith;
  write_1h_under = omega arith;
  audio_under = omega arith;
}

within : input_count (usage_components report) ≤ 1000
unfolding build_decision scaled cost_micro_usd component_cost text_cost audio_cost ◌+ᴰ◌ ◌*ᴰ◌
    per_million decimal_to_micro_usd nanos reserve_tokens settle_usage settle_tier settle_at build
    call_pricing usage_components components_of figures uncached_of cached_of billed_of audio_of
    usage_field nested read get has_key cache_writes reported_service_tier ◌-ℤ◌
within = omega arith

few_out : pos_part (usage_components report).output_tokens ≤ 500
unfolding build_decision scaled cost_micro_usd component_cost text_cost audio_cost ◌+ᴰ◌ ◌*ᴰ◌
    per_million decimal_to_micro_usd nanos reserve_tokens settle_usage settle_tier settle_at build
    call_pricing usage_components components_of figures uncached_of cached_of billed_of audio_of
    usage_field nested read get has_key cache_writes reported_service_tier ◌-ℤ◌
few_out = omega arith

expected : mismatches (build_decision call) (tier_of settings report none) ≡ false
unfolding build_decision scaled cost_micro_usd component_cost text_cost audio_cost ◌+ᴰ◌ ◌*ᴰ◌
    per_million decimal_to_micro_usd nanos reserve_tokens settle_usage settle_tier settle_at build
    call_pricing usage_components components_of figures uncached_of cached_of billed_of audio_of
    usage_field nested read get has_key cache_writes reported_service_tier ◌-ℤ◌
expected = refl

settle_usage-reserved_example :
    IsWithin call no_tiers (settle_usage settings (build call) report none "acme" no_tiers)
settle_usage-reserved_example =
    settle_usage-reserved 2 call settings report none "acme" no_tiers rates-IsFine rates-IsUnder
      within few_out expected

-- A priority tier without a row: the reserve is held, as it is above the price.
held :
    (settle_usage settings (build call) report (some "priority") "acme" no_tiers).micros ≡ some 7500
unfolding build_decision scaled cost_micro_usd component_cost text_cost audio_cost ◌+ᴰ◌ ◌*ᴰ◌
    per_million decimal_to_micro_usd nanos reserve_tokens settle_usage settle_tier settle_at build
    call_pricing usage_components components_of figures uncached_of cached_of billed_of audio_of
    usage_field nested read get has_key cache_writes reported_service_tier ◌-ℤ◌ settle_mismatch
    settle_unknown tier_row lookup_row find_row key_eq held_for multiplier_of micro_usd_to_decimal
    is_empty
held = refl

other_tier : mismatches (build call).decision (tier_of settings report (some "priority")) ≡ true
unfolding build_decision build call_pricing is_empty
other_tier = refl

settle_usage-IsHeld_example :
    IsHeld settings "acme"
      (build call).decision
      7500
      (settle_usage settings (build call) report (some "priority") "acme" no_tiers)
settle_usage-IsHeld_example =
    settle_usage-IsHeld settings (build call) report (some "priority") "acme" no_tiers 7500
      other_tier held

abbrev tokens : Tokens
tokens = usage_components report

unpriced : certified_only (tier_row settings.table (build call).decision "priority") ≡ none
unfolding build_decision build call_pricing tier_row lookup_row find_row key_eq
unpriced = refl

unexpected : is_unexpected (build call).decision "priority" ≡ true
unfolding build_decision build call_pricing is_empty
unexpected = refl

settle_usage-Covers_example : Covers (build call).decision tokens 7500
settle_usage-Covers_example =
    settle_usage-Covers settings (build call) report (some "priority") "acme" no_tiers "priority"
      7500 refl unexpected unpriced held

component_cost-IsWorth_example :
    IsWorth 8 (component_cost (rates_of call) tokens) (worth 2 (rates_of call) tokens)
component_cost-IsWorth_example = component_cost-IsWorth 2 (rates_of call) tokens rates-IsFine

report_shape :
    ((figures report).normalized ≡ true)
    × (pos 0 ≤ℤ (figures report).cached)
    × (pos 0 ≤ℤ (figures report).write_5m)
    × (pos 0 ≤ℤ (figures report).write_1h)
    × ((figures report).cached +ℤ (figures report).write_5m +ℤ (figures report).write_1h
        ≤ℤ (figures report).prompt)
unfolding build_decision scaled cost_micro_usd component_cost text_cost audio_cost ◌+ᴰ◌ ◌*ᴰ◌
    per_million decimal_to_micro_usd nanos reserve_tokens settle_usage settle_tier settle_at build
    call_pricing usage_components components_of figures uncached_of cached_of billed_of audio_of
    usage_field nested read get has_key cache_writes reported_service_tier ◌-ℤ◌ ◌+ℤ◌
report_shape = (refl, omega arith, omega arith, omega arith, omega arith)

usage_components-charged_example : charged_input (usage_components report) ≡ (figures report).prompt
usage_components-charged_example =
    usage_components-charged report report_shape.0 report_shape.1 report_shape.2 report_shape.3
      report_shape.4

abbrev flash : CatalogRow
flash = record gpt_4o {
  scheduled = (some 300, gpt_4o_rates) ∷ (none, gpt_4o_rates) ∷ (some 100, gpt_4o_rates) ∷ [];
  valid_until = some 250;
}

row_at-InForce_example :
    InForce 200 flash.scheduled flash.rates (row_at 200 flash).rates
    × ((row_at 200 flash).certified ≡ (flash.certified && not (has_ended 200 flash.valid_until)))
row_at-InForce_example = row_at-InForce 200 flash

abbrev long_row : CatalogRow
long_row = record gpt_4o { context_band = "long" }

built : build_catalog (gpt_4o ∷ long_row ∷ []) [] ≡ some (gpt_4o ∷ long_row ∷ [])
unfolding build_catalog find_row put_row key_eq
built = refl

twice : build_catalog (gpt_4o ∷ long_row ∷ gpt_4o ∷ []) [] ≡ none
unfolding build_catalog find_row put_row key_eq
twice = refl

build_catalog-All_example : All (IsFound (gpt_4o ∷ long_row ∷ [])) (gpt_4o ∷ long_row ∷ [])
build_catalog-All_example =
    build_catalog-All (gpt_4o ∷ long_row ∷ []) (gpt_4o ∷ long_row ∷ []) built

decimal_to_micro_usd-micro_usd_to_decimal_example :
    decimal_to_micro_usd (micro_usd_to_decimal 6125) ≡ 6125
decimal_to_micro_usd-micro_usd_to_decimal_example = decimal_to_micro_usd-micro_usd_to_decimal 6125
