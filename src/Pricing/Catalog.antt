-- ===== src/Pricing/Catalog.antt =====
-- `CatalogRow` and the price table of kazenai/price_catalog.py: the row of a key, its price at a
-- moment, and the rows that a call may be priced from.
use kazenai_core.Base.{
  ℕ, Bool, false, not, ◌&&◌, String, str_eq, List, [], ◌∷◌, Option, none, some, any, map, leb,
  get_or, if◌then◌else◌, is_some, keep,
}
use kazenai_core.Base.Text.{codes, codes_eq, lower_codes, strip}
use kazenai_core.Policies.Prices.{Aliases}
use kazenai_core.Pricing.Rates.{RateVector}

-- Instants are in microseconds UTC, as `parse_instant` reads them; none for an empty text.
pub record CatalogRow : Type 0 where
  pub provider : String
  pub model : String
  pub request_tier : String
  pub context_band : String
  pub expected_reported_tier : String
  pub rates : RateVector
  pub certified : Bool
  pub long_context_threshold : Option ℕ
  pub pricing_rule : String
  pub label : String
  pub catalog_version : String
  pub scheduled : List (Option ℕ × RateVector)
  pub valid_until : Option ℕ

-- `sorted(self.scheduled, key=lambda item: parse_instant(item[0]) or now)`, which is stable.
abbrev pub starts_or : ℕ → Option ℕ × RateVector → ℕ
starts_or now entry = get_or entry.0 now

unfoldable pub insert_entry :
    ℕ → Option ℕ × RateVector → List (Option ℕ × RateVector) → List (Option ℕ × RateVector)
insert_entry now entry [] = entry ∷ []
insert_entry now entry (e ∷ rest) =
    if leb (starts_or now entry) (starts_or now e)
    then entry ∷ e ∷ rest
    else e ∷ insert_entry now entry rest

unfoldable pub sort_entries : ℕ → List (Option ℕ × RateVector) → List (Option ℕ × RateVector)
unfolding insert_entry
sort_entries now [] = []
sort_entries now (e ∷ rest) = insert_entry now e (sort_entries now rest)

-- `starts is not None and starts <= now`
abbrev pub has_started : ℕ → Option ℕ → Bool
has_started now none = false
has_started now (some starts) = leb starts now

-- The loop over the sorted entries.
unfoldable pub latest_rates : ℕ → List (Option ℕ × RateVector) → RateVector → RateVector
latest_rates now [] rates = rates
latest_rates now ((starts, scheduled_rates) ∷ rest) rates =
    latest_rates now rest (if has_started now starts then scheduled_rates else rates)

-- `ends is not None and now >= ends`
abbrev pub has_ended : ℕ → Option ℕ → Bool
has_ended now ends = has_started now ends

-- `CatalogRow.at(moment)`.
unfoldable pub row_at : ℕ → CatalogRow → CatalogRow
unfolding sort_entries latest_rates
row_at now row = record row {
  rates = latest_rates now (sort_entries now row.scheduled) row.rates;
  certified = row.certified && not (has_ended now row.valid_until);
}

pub record Key : Type 0 where
  pub provider : String
  pub model : String
  pub request_tier : String
  pub context_band : String

abbrev pub key_of : CatalogRow → Key
key_of row = record {
  provider = row.provider;
  model = row.model;
  request_tier = row.request_tier;
  context_band = row.context_band;
}

unfoldable pub key_eq : Key → Key → Bool
key_eq a b =
    str_eq a.provider b.provider
    && str_eq a.model b.model
    && str_eq a.request_tier b.request_tier
    && str_eq a.context_band b.context_band

-- A table is a dict by key: its rows in the order of insertion, one for each key.
abbrev pub Table : Type 0
Table = List CatalogRow

unfoldable pub find_row : Key → Table → Option CatalogRow
find_row key [] = none
find_row key (row ∷ rest) = if key_eq (key_of row) key then some row else find_row key rest

-- `table[row.key] = row`
unfoldable pub put_row : CatalogRow → Table → Table
put_row row [] = row ∷ []
put_row row (r ∷ rest) = if key_eq (key_of r) (key_of row) then row ∷ rest else r ∷ put_row row rest

-- `_build_catalog`: none where a key comes twice.
unfoldable pub build_catalog : List CatalogRow → Table → Option Table
unfolding find_row put_row
build_catalog [] table = some table
build_catalog (row ∷ rows) table =
    let rest = build_catalog rows (put_row row table) in
    if is_some (find_row (key_of row) table) then none else rest

-- `TokenCostEngine.__init__`: the operator's rows replace the catalog's or are added.
unfoldable pub override_rows : List CatalogRow → Table → Table
unfolding put_row
override_rows [] table = table
override_rows (row ∷ rows) table = override_rows rows (put_row row table)

-- The parts of `CatalogBundle` that the prices come from.
pub record Bundle : Type 0 where
  pub version : String
  pub rows : Table
  pub aliases : Aliases
  pub expires_at : Option ℕ

-- `CatalogBundle.expired(moment)`.
abbrev pub expired : ℕ → Bundle → Bool
expired now bundle = has_started now bundle.expires_at

-- `active_bundle(moment)`: the verified live catalog until it expires, else the bundled one.
unfoldable pub active_bundle : ℕ → Option Bundle → Bundle → Bundle
active_bundle now none bundled = bundled
active_bundle now (some live) bundled = if expired now live then bundled else live

-- `current_table(moment)`.
unfoldable pub current_table : ℕ → Option Bundle → Bundle → Table
unfolding active_bundle
current_table now live bundled = map (row_at now) (active_bundle now live bundled).rows

-- The one element of a set of providers, if it has just one.
unfoldable pub only_one : List String → Option String
only_one [] = none
only_one (p ∷ rest) = if any (λ q. not (str_eq q p)) rest then none else some p

-- `provider_for_model(model, table=table)`.
unfoldable pub provider_for_model : String → Table → Option String
unfolding only_one
provider_for_model model table = only_one (
    map (λ (r : CatalogRow). r.provider)
      (keep (λ (r : CatalogRow). codes_eq (codes r.model) (lower_codes (strip model))) table))

unfoldable pub lookup_row : String → String → String → String → Table → Option CatalogRow
lookup_row provider model tier band table =
    find_row
      (record { provider = provider; model = model; request_tier = tier; context_band = band })
      table

unfoldable pub model_declares_long_band : String → String → Table → Bool
model_declares_long_band provider model table =
    is_some (lookup_row provider model "standard" "long" table)
