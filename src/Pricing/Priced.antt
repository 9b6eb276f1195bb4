-- ===== src/Pricing/Priced.antt =====
-- What holds of a call that `_prepare` of kazenai/request_pricing.py has priced.
use mathlib.Core.Option.{some-injective}
use kazenai_core.Base.{
  ℕ, ◌*◌, ◌≡◌, ◌∙◌, refl, sym, ap, subst, Bool, true, false, not, ◌&&◌, String, Option, none, some,
  is_some, if◌then◌else◌, if_cases, any, All,
}
use kazenai_core.Pricing.Catalog.{CatalogRow, lookup_row}
use kazenai_core.Pricing.Decimals.{Decimal}
use kazenai_core.Pricing.Rates.{scaled, cost_micro_usd}
use kazenai_core.Pricing.Decision.{
  CallPricing, PricingDecision, build, build_decision, call_pricing, select_row, reserve_tokens,
}
use kazenai_core.Pricing.Tiers.{Tiers, Closed, check_breaker, blocks_model}
use kazenai_core.Pricing.Holds.{check_breaker_lem}
use kazenai_core.Pricing.Guards.{bind_ok, not_refused}
use kazenai_core.Pricing.Guards.Tier.{IsTierPinned, pin_service_tier-IsTierPinned}
use kazenai_core.Pricing.Guards.Tools.{HasCertifiedTools, validate_tools-HasCertifiedTools}
use kazenai_core.Pricing.Guards.Modifiers.{
  IsModified, validate_modifiers-IsModified, IsAside, any-IsAside,
}
use kazenai_core.Pricing.Request.{
  document_reference_unsupported, image_unsupported, unknown_model, pricing_config, Result, ok,
  refused, ◌>>=◌, refuse_if, or_refuse, Request, pin_service_tier, integer_n, validate_tools,
  validate_modifiers,
}
use kazenai_core.Pricing.Prepare.{
  Scope, row_of, is_long, band_row, in_long_band, project, input_of, price_counted, provider_of,
  bound_images, count_tokens, price_call, admit_call, admit_if, check_and_admit, prepare, name_of,
  resolve_canonical,
}

value_or {ℓ} : {A : Type ℓ} → A → Result A → A
value_or d (ok a) = a
value_or d (refused code) = d

ok_inj {ℓ} : {A : Type ℓ} (a b : A) → ok a ≡ ok b → a ≡ b
unfolding value_or
ok_inj a b e = ap (value_or a) e

-- The row of a call's price: that of the long band where the input is above the short row's
-- threshold, and of the short band otherwise.
pub record IsBanded (s : Scope) (provider : String) (canonical : Option String) (tokens : ℕ)
    (row : CatalogRow) : Type 0 where
  pub short : CatalogRow
  pub short_is : row_of s provider canonical "short" ≡ ok short
  pub row_is :
      row_of s provider canonical
        (if is_long short.long_context_threshold tokens then "long" else "short")
      ≡ ok row

one_band :
    (rows : String → Result CatalogRow) (long : Bool) (short row : CatalogRow)
    (band decision : String)
    → rows "short" ≡ ok short
    → (if long then rows "long" >>= in_long_band else ok (short, band)) ≡ ok (row, decision)
    → rows (if long then "long" else "short") ≡ ok row
one_band rows true short row band decision _ e =
    let (r, found, same) = bind_ok (rows "long") _ e in
    found ∙ ap (λ (p : CatalogRow × String). ok (p.0)) (ok_inj (r, "long") (row, decision) same)
one_band rows false short row band decision short_is e =
    short_is ∙ ap (λ (p : CatalogRow × String). ok (p.0)) (ok_inj (short, band) (row, decision) e)

band_row-IsBanded :
    (s : Scope) (provider : String) (canonical : Option String) (tokens : ℕ) (row : CatalogRow)
    (decision : String)
    → band_row s provider canonical tokens ≡ ok (row, decision)
    → IsBanded s provider canonical tokens row
unfolding band_row
band_row-IsBanded s provider canonical tokens row decision e =
    let (short, short_is, rest) = bind_ok (row_of s provider canonical "short") _ e in
    record {
      short = short;
      short_is = short_is;
      row_is =
          one_band (row_of s provider canonical) (is_long short.long_context_threshold tokens) short
            row _ decision short_is rest;
    }

unrefused :
    (found : Option CatalogRow) (row : CatalogRow)
    → or_refuse found unknown_model ≡ ok row
    → found ≡ some row
unrefused none row e = absurd (cc)
unrefused (some r) row e = ap some (ok_inj r row e)

uncertified_only :
    (control : Bool) (found : Option CatalogRow) (row : CatalogRow)
    → (elim found [ none ↦ none | some r ↦ if control && not r.certified then none else some r ])
      ≡ some row
    → (control && not row.certified) ≡ false
uncertified_only control none row e = absurd (cc)
uncertified_only control (some r) row e =
    if_cases (λ (o : Option CatalogRow). o ≡ some row → (control && not row.certified) ≡ false)
      (control && not r.certified) (λ _ e'. absurd (cc))
      (λ fine e'.
        subst (λ (x : CatalogRow). (control && not x.certified) ≡ false) (some-injective r row e')
          fine)
      e

certified_lem :
    (s : Scope) (provider : String) (canonical : Option String) (band : String) (row : CatalogRow)
    → row_of s provider canonical band ≡ ok row
    → (s.control && not row.certified) ≡ false
unfolding select_row
certified_lem s provider none band row e = absurd (cc)
certified_lem s provider (some model) band row e =
    uncertified_only s.control (lookup_row provider model "standard" band s.table) row
      (unrefused _ row e)

-- A priced call: the decision is that of a row of its band, at the row's rates and the multiplier, it
-- reserves the cost of the projected tokens at them, and under Control the row is certified.
pub record IsPriced (s : Scope) (rq : Request) (provider : String) (d : PricingDecision)
    : Type 0 where
  pub canonical : Option String
  pub row : CatalogRow
  pub banded : IsBanded s provider canonical d.projected_input_tokens row
  pub certified : (s.control && not row.certified) ≡ false
  pub named : d.canonical_model_id ≡ name_of rq canonical
  pub priced : d.rate_vector ≡ scaled row.rates d.price_multiplier
  pub reserves :
      d.reserved_micro_usd
      ≡ cost_micro_usd d.rate_vector (
          reserve_tokens rq.cache_kind d.projected_input_tokens d.projected_output_tokens
            d.projected_image_tokens)
  pub outputs : d.projected_output_tokens ≡ rq.max_output * d.n

module _ (s : Scope) (rq : Request) (canonical : Option String) (n : ℕ) (counted : ℕ × Bool) where
  project-IsPriced :
      (provider : String) (multiplier : Decimal) (images : ℕ × String)
      (banded : CatalogRow × String)
      → band_row s provider canonical (input_of s rq provider canonical counted) ≡ ok banded
      → IsPriced s rq provider
          (build (project s rq provider canonical n counted multiplier images banded)).decision
  unfolding build call_pricing build_decision project
  project-IsPriced provider multiplier images (row, decision) found =
      let banded = band_row-IsBanded s provider canonical _ row decision found in
      record {
        canonical = canonical;
        row = row;
        banded = banded;
        certified = certified_lem s provider canonical _ row banded.row_is;
        named = refl;
        priced = refl;
        reserves = refl;
        outputs = refl;
      }

  price_counted-IsPriced :
      (provider : String) (pricing : CallPricing)
      → price_counted s rq provider canonical n counted ≡ ok pricing
      → IsPriced s rq provider pricing.decision
  unfolding price_counted
  price_counted-IsPriced provider pricing e =
      let (multiplier, _, e1) = bind_ok (or_refuse (s.multiplier provider) pricing_config) _ e in
      let (images, _, e2) =
        bind_ok (bound_images s rq provider (name_of rq canonical) counted.1) _ e1 in
      let (banded, found, e3) =
        bind_ok (band_row s provider canonical (input_of s rq provider canonical counted)) _ e2 in
      subst (λ (p : CallPricing). IsPriced s rq provider p.decision) (ok_inj _ pricing e3)
        (project-IsPriced provider multiplier images banded found)

price_call-IsPriced :
    (s : Scope) (rq : Request) (provider : String) (n : ℕ) (pricing : CallPricing)
    → price_call s rq provider n ≡ ok pricing
    → (final : String) × IsPriced s rq final pricing.decision
unfolding price_call
price_call-IsPriced s rq provider n pricing e =
    let (canonical, _, e1) = bind_ok (resolve_canonical s rq.model) _ e in
    let (counted, _, e2) =
      bind_ok (count_tokens s rq (provider_of s provider canonical) canonical) _ e1 in
    (
      provider_of s provider canonical,
      price_counted-IsPriced s rq canonical n counted (provider_of s provider canonical) pricing e2,
    )

-- The request is one that the refusals let pass.
pub record IsAdmitted (s : Scope) (rq : Request) (provider : String) (tiers : Tiers) : Type 0 where
  pub tier : IsTierPinned provider rq
  pub tools : HasCertifiedTools provider s.surface s.tool_versions rq
  pub modifiers : IsModified provider s.speeds s.geos rq
  pub documents : rq.documents ≡ false
  pub idle : All (IsAside s.org provider rq.model) tiers.breaker

unit_ok : (m : Result (Unit {0})) (u : Unit {0}) → m ≡ ok u → m ≡ ok tt
unit_ok m u e = e

module _ (s : Scope) (rq : Request) (provider : String) (tiers : Tiers)
    (pricing : CallPricing) where
  admit_call-Guards :
      admit_call s rq provider ≡ ok pricing
      → (validate_tools provider s.surface s.tool_versions rq ≡ ok tt)
        × (validate_modifiers provider s.speeds s.geos rq ≡ ok tt)
        × (rq.documents ≡ false)
        × ((final : String) × IsPriced s rq final pricing.decision)
  unfolding admit_call
  admit_call-Guards e =
      let (n, _, e1) = bind_ok (integer_n rq.n) _ e in
      let (u, tools, e2) = bind_ok (validate_tools provider s.surface s.tool_versions rq) _ e1 in
      let (v, modifiers, e3) = bind_ok (validate_modifiers provider s.speeds s.geos rq) _ e2 in
      let (w, documents, e4) =
        bind_ok (refuse_if rq.documents document_reference_unsupported) _ e3 in
      let (x, _, e5) =
        bind_ok
          (refuse_if
            (rq.images && not s.observe_images && s.has_counter provider && s.image_refused)
            image_unsupported)
          _ e4 in
      (
        unit_ok _ u tools,
        unit_ok _ v modifiers,
        not_refused rq.documents _ w documents,
        price_call-IsPriced s rq provider n pricing e5,
      )

  admit_if-open :
      (closed : Option Closed)
      → admit_if s rq provider closed ≡ ok pricing
      → (is_some closed ≡ false) × (admit_call s rq provider ≡ ok pricing)
  unfolding admit_if
  admit_if-open none e = (refl, e)
  admit_if-open (some closed) e = absurd (cc)

  check_and_admit-open :
      (pinned : Result (Unit {0}))
      → (check_and_admit s rq provider tiers pinned).1 ≡ ok pricing
      → (pinned ≡ ok tt)
        × (any (blocks_model s.org provider rq.model) tiers.breaker ≡ false)
        × (admit_call s rq provider ≡ ok pricing)
  unfolding check_and_admit
  check_and_admit-open (refused code) e = absurd (cc)
  check_and_admit-open (ok u) e =
      let (idle, admitted) =
        admit_if-open (check_breaker s.now s.org provider rq.model tiers).1 e in
      (refl, sym (check_breaker_lem s.now s.org provider rq.model tiers) ∙ idle, admitted)

  -- A call is priced only where the service tiers that it names are standard_only under Anthropic and
  -- default under others; it has no MCP servers and no container, and as an OpenAI chat no web search
  -- and no audio output; each tool that it declares is, under Anthropic, untyped, custom or of a
  -- listed version that does not begin with the name of a server tool, on the surface responses a
  -- function or custom, and otherwise a function; an Anthropic call's speed and geography are listed
  -- ones up to case and surrounding space; it has no document by reference; and no entry of the breaker
  -- has its organization, and the provider and the model as it presents them. It is then priced at
  -- the rates of a row of its band, certified under Control, with the cost of the projected tokens
  -- reserved.
  pub prepare-IsAdmitted :
      (prepare s rq provider tiers).1 ≡ ok pricing
      → IsAdmitted s rq provider tiers × ((final : String) × IsPriced s rq final pricing.decision)
  unfolding prepare
  prepare-IsAdmitted e =
      let (pinned, idle, admitted) = check_and_admit-open _ e in
      let (tools, modifiers, documents, priced) = admit_call-Guards admitted in
      let (u, tier, _) = bind_ok (pin_service_tier provider rq) _ pinned in
      (
        record {
          tier = pin_service_tier-IsTierPinned provider rq (unit_ok _ u tier);
          tools = validate_tools-HasCertifiedTools provider s.surface s.tool_versions rq tools;
          modifiers = validate_modifiers-IsModified provider s.speeds s.geos rq modifiers;
          documents = documents;
          idle = any-IsAside s.org provider rq.model tiers.breaker idle;
        },
        priced,
      )
