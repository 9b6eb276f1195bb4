-- ===== src/Pricing/CallTests.antt =====
-- Runs of `_prepare` of kazenai/request_pricing.py.
use kazenai_core.Pricing.Catalog.{
  provider_for_model, only_one, model_declares_long_band, lookup_row, key_eq, find_row,
}
use kazenai_core.Base.Text.{take_chars, strip, lower_codes, codes_eq, codes}
use kazenai_core.Pricing.Tiers.{check_entries, check_breaker}
use kazenai_core.DispatchGate.Paths.{starts_with, chars}
use kazenai_core.Policies.Prices.{resolve_model_key, alias_of}
use kazenai_core.Base.{◌≡◌, refl, true, false, String, none, some, [], ◌∷◌}
use kazenai_core.Pricing.Decimals.{whole}
use kazenai_core.Pricing.Decision.{select_row, CallPricing, build}
use kazenai_core.Pricing.Tests.{gpt_4o, no_tiers}
use kazenai_core.Pricing.Request.{
  validate_tools, validate_modifiers, integer_n, check_tools, check_tool, pin_service_tier, Request,
  missing, ok,
}
use kazenai_core.Pricing.Prepare.{
  resolve_canonical, price_counted, price_call, named, input_of, count_tokens, bound_images,
  band_row, admit_call, admit_if, check_and_admit, Scope, prepare, project,
}
use kazenai_core.Pricing.Priced.{IsAdmitted, IsPriced, prepare-IsAdmitted}

abbrev scope : Scope
scope = record {
  now = 0;
  surface = "chat";
  org = "acme";
  observe_images = false;
  control = true;
  table = gpt_4o ∷ [];
  aliases = [];
  explicit_policy = "";
  mode = "";
  tool_versions = [];
  speeds = [];
  geos = [];
  has_counter = λ _. false;
  count_input = λ _. none;
  counted = none;
  image_refused = false;
  image_tokens = λ _ _. none;
  chat_bound = some 900;
  text_tokens = 120;
  tool_overhead = λ _. 0;
  multiplier = λ _. some (whole 1);
}

abbrev request : Request
request = record {
  extra_tier = none;
  top_tier = none;
  extra_is_object = true;
  model = " GPT-4o ";
  n = missing;
  mcp_servers = false;
  container = false;
  web_search_options = false;
  audio_modality = false;
  audio = false;
  tools = some "function" ∷ [];
  speed = none;
  inference_geo = none;
  documents = false;
  images = false;
  max_output = 64;
  cache_kind = "none";
}

abbrev empty_call : CallPricing
empty_call = build (
    project scope request "openai" (some "gpt-4o") 1 (120, false) (whole 1) (0, "bounded")
      (gpt_4o, "no_long_band"))

prepared : (prepare scope request "openai" no_tiers).1 ≡ ok empty_call
unfolding prepare check_and_admit pin_service_tier admit_if check_breaker admit_call integer_n
    validate_tools check_tools check_tool validate_modifiers price_call resolve_canonical
    resolve_model_key codes_eq lower_codes strip codes chars starts_with take_chars alias_of
    find_row key_eq lookup_row only_one provider_for_model model_declares_long_band select_row
    band_row bound_images count_tokens input_of named price_counted project check_entries
prepared = refl

prepare-IsAdmitted_example :
    IsAdmitted scope request "openai" no_tiers
    × ((final : String) × IsPriced scope request final empty_call.decision)
prepare-IsAdmitted_example = prepare-IsAdmitted scope request "openai" no_tiers empty_call prepared
