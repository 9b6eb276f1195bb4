-- ===== src/Pricing/Prepare.antt =====
-- `_prepare` of kazenai/request_pricing.py: the refusals and the frozen price of a call, before it is
-- dispatched. What the provider's counter answers, the estimates of kazenai/monitor.py and the image
-- formulas are arguments.
use kazenai_core.Base.{
  ℕ, ◌+◌, ◌*◌, Bool, true, false, not, ◌&&◌, ◌||◌, String, str_eq, List, [], ◌∷◌, map, Option, none,
  some, ltb, if◌then◌else◌, is_some,
}
use kazenai_core.Base.Text.{codes_eq, codes, strip}
use kazenai_core.Policies.Prices.{Aliases, resolve_model_key, enforce_unknown_model}
use kazenai_core.Pricing.Decimals.{Decimal}
use kazenai_core.Pricing.Catalog.{CatalogRow, Table, provider_for_model, model_declares_long_band}
use kazenai_core.Pricing.Decision.{CallPricing, Projection, build, select_row}
use kazenai_core.Pricing.Tiers.{Tiers, Closed, check_breaker}
use kazenai_core.Pricing.Request.{
  unknown_tier_circuit_open, document_reference_unsupported, image_unsupported,
  long_context_chat_unsupported, input_counter_unavailable, input_counter_failed, unknown_model,
  pricing_config, Result, ok, refused, ◌>>=◌, ◌>>◌, refuse_if, or_refuse, Request, pin_service_tier,
  integer_n, validate_tools, validate_modifiers, extra_body_unsupported,
}

-- What the preparation reads beside the request.
pub record Scope : Type 0 where
  pub now : ℕ
  pub surface : String
  pub org : String
  pub observe_images : Bool
  pub control : Bool
  pub table : Table
  pub aliases : Aliases
  pub explicit_policy : String
  pub mode : String
  pub tool_versions : List String
  pub speeds : List String
  pub geos : List String
  -- `_client_has_exact_counter`, `_call_counter` (none where it refuses) and the count made before by
  -- the async path
  pub has_counter : String → Bool
  pub count_input : String → Option ℕ
  pub counted : Option ℕ
  -- the inline images before the count: whether one is refused
  pub image_refused : Bool
  -- `_image_tokens_for`, none where it refuses
  pub image_tokens : String → String → Option ℕ
  -- `_chat_input_upper_bound`, `_text_input_tokens`, `anthropic_tool_overhead_tokens`
  pub chat_bound : Option ℕ
  pub text_tokens : ℕ
  pub tool_overhead : String → ℕ
  -- `_price_multiplier`, none where it raises PricingConfigError
  pub multiplier : String → Option Decimal

-- The model of the table with a given key.
unfoldable pub named : List ℕ → Table → Option String
named key [] = none
named key (row ∷ rest) = if codes_eq (codes row.model) key then some row.model else named key rest

-- `_resolve_canonical`: none for a model that the table does not have and the policy lets pass.
unfoldable pub resolve_canonical : Scope → String → Result (Option String)
resolve_canonical s model =
    let keys = map (λ (row : CatalogRow). codes row.model) s.table in
    elim (resolve_model_key model keys s.aliases) [
      | some key ↦ ok (named key s.table)
      | none ↦
          if enforce_unknown_model model keys s.aliases s.explicit_policy s.mode
          then ok none
          else refused unknown_model
    ]

-- The provider whose prices apply: that of the table, if it has just one for the model.
abbrev pub provider_of : Scope → String → Option String → String
provider_of s provider none = provider
provider_of s provider (some canonical) = elim (provider_for_model canonical s.table) [
  | none ↦ provider
  | some other ↦ other
]

abbrev has_long_band : Scope → String → Option String → Bool
has_long_band s provider none = false
has_long_band s provider (some canonical) = model_declares_long_band provider canonical s.table

-- `_select_row`, of a model that the table may not have.
abbrev pub row_of : Scope → String → Option String → String → Result CatalogRow
row_of s provider none band = refused unknown_model
row_of s provider (some canonical) band =
    or_refuse (select_row s.control s.table provider canonical band) unknown_model

-- `threshold is None or bound is None or bound > threshold`
abbrev pub is_beyond : Option ℕ → Option ℕ → Bool
is_beyond none bound = true
is_beyond (some threshold) none = true
is_beyond (some threshold) (some bound) = ltb threshold bound

-- `_require_chat_below_long_band`.
unfoldable pub require_chat_below : Scope → Request → String → Option String → Result (Unit {0})
require_chat_below s rq provider canonical = do
  row ← row_of s provider canonical "short"
  refuse_if (is_beyond row.long_context_threshold (if rq.images then none else s.chat_bound))
      long_context_chat_unsupported

-- The exact count, asked for here unless the async path has it already.
unfoldable pub exact_count : Scope → String → Bool → Result (ℕ × Bool)
exact_count s provider needs_counter = do
  refuse_if (needs_counter && not (s.has_counter provider)) input_counter_unavailable
  tokens ← elim s.counted [
    | some tokens ↦ ok tokens
    | none ↦ or_refuse (s.count_input provider) input_counter_failed
  ]
  ok (tokens, true)

-- The input tokens, and whether an exact counter gave them.
unfoldable pub count_tokens : Scope → Request → String → Option String → Result (ℕ × Bool)
count_tokens s rq provider canonical = do
  let long = has_long_band s provider canonical
  let chat = str_eq s.surface "chat"
  (if long && chat then require_chat_below s rq provider canonical else ok tt)
  let needs_counter = long && not chat
  let counts_images = rq.images && not s.observe_images && s.has_counter provider
  (if needs_counter || counts_images
      then exact_count s provider needs_counter
      else ok (s.text_tokens, false))

-- The image tokens of the bound, and its `spend_bound`.
unfoldable pub bound_images : Scope → Request → String → String → Bool → Result (ℕ × String)
bound_images s rq provider model exact =
    if rq.images && s.observe_images
    then ok (0, "none")
    else if rq.images && not exact
    then or_refuse (s.image_tokens provider model) image_unsupported
      >>= (λ tokens. ok (tokens, "bounded"))
    else ok (0, "bounded")

-- `threshold is not None and input_tokens > threshold`
abbrev pub is_long : Option ℕ → ℕ → Bool
is_long none tokens = false
is_long (some threshold) tokens = ltb threshold tokens

abbrev pub in_long_band : CatalogRow → Result (CatalogRow × String)
in_long_band row = ok (row, "long")

-- The row that prices the call, and the decision on its band.
unfoldable pub band_row : Scope → String → Option String → ℕ → Result (CatalogRow × String)
band_row s provider canonical tokens = do
  row ← row_of s provider canonical "short"
  (if is_long row.long_context_threshold tokens
      then row_of s provider canonical "long" >>= in_long_band
      else ok (row, if is_some row.long_context_threshold then "short" else "no_long_band"))

-- The name of the model in the decision. One that the table does not have keeps what was presented
-- (the code's is lower-cased), and is refused for want of a row.
abbrev pub name_of : Request → Option String → String
name_of rq none = strip rq.model
name_of rq (some name) = name

-- The tools of an Anthropic request add tokens that only an exact count includes.
unfoldable pub input_of : Scope → Request → String → Option String → ℕ × Bool → ℕ
input_of s rq provider canonical (tokens, exact) =
    if str_eq provider "anthropic" && not exact
    then tokens + s.tool_overhead (name_of rq canonical)
    else tokens

-- The arguments of `_build`.
unfoldable pub project :
    Scope
    → Request
    → String
    → Option String
    → ℕ
    → ℕ × Bool
    → Decimal
    → ℕ × String
    → CatalogRow × String
    → Projection
project s rq provider canonical n counted multiplier (image_tokens, spend_bound) (row, decision) =
    record {
      presented = strip rq.model;
      canonical = name_of rq canonical;
      provider = provider;
      row = row;
      n = n;
      input_tokens = input_of s rq provider canonical counted;
      output_tokens = rq.max_output * n;
      image_tokens = image_tokens;
      count_source = if counted.1 then "provider_exact_counter" else "local_byte_estimate";
      threshold_decision = decision;
      spend_bound = spend_bound;
      cache_kind = rq.cache_kind;
      basis = if str_eq row.label "operator_override" then "operator_override" else "catalog";
      label = row.label;
      multiplier = multiplier;
    }

-- From the counted input to the price.
unfoldable pub price_counted :
    Scope → Request → String → Option String → ℕ → ℕ × Bool → Result CallPricing
price_counted s rq provider canonical n counted = do
  multiplier ← or_refuse (s.multiplier provider) pricing_config
  images ← bound_images s rq provider (name_of rq canonical) counted.1
  banded ← band_row s provider canonical (input_of s rq provider canonical counted)
  ok (build (project s rq provider canonical n counted multiplier images banded))

-- From the model to the price.
unfoldable pub price_call : Scope → Request → String → ℕ → Result CallPricing
price_call s rq first_provider n = do
  canonical ← resolve_canonical s rq.model
  let provider = provider_of s first_provider canonical
  counted ← count_tokens s rq provider canonical
  price_counted s rq provider canonical n counted

-- The refusals after the admission breaker, and the price.
unfoldable pub admit_call : Scope → Request → String → Result CallPricing
admit_call s rq provider = do
  n ← integer_n rq.n
  validate_tools provider s.surface s.tool_versions rq
  validate_modifiers provider s.speeds s.geos rq
  refuse_if rq.documents document_reference_unsupported
  refuse_if (rq.images && not s.observe_images && s.has_counter provider && s.image_refused)
      image_unsupported
  price_call s rq provider n

-- A closed breaker refuses before anything else of the request is looked at.
unfoldable pub admit_if : Scope → Request → String → Option Closed → Result CallPricing
admit_if s rq provider none = admit_call s rq provider
admit_if s rq provider (some closed) = refused (unknown_tier_circuit_open closed)

-- After the tier is pinned; the breaker may age an entry even when it refuses.
unfoldable pub check_and_admit :
    Scope → Request → String → Tiers → Result (Unit {0}) → Tiers × Result CallPricing
check_and_admit s rq provider tiers (refused code) = (tiers, refused code)
check_and_admit s rq provider tiers (ok _) =
    let (tiers', closed) = check_breaker s.now s.org provider rq.model tiers in
    (tiers', admit_if s rq provider closed)

-- `_prepare`.
unfoldable pub prepare : Scope → Request → String → Tiers → Tiers × Result CallPricing
prepare s rq provider tiers =
    check_and_admit s rq provider tiers
      (pin_service_tier provider rq >> refuse_if (not rq.extra_is_object) extra_body_unsupported)
