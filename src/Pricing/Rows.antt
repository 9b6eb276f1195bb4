-- ===== src/Pricing/Rows.antt =====
-- The price table of kazenai/price_catalog.py as a map from keys to rows: what is written under a
-- key is read back, and a table that builds holds every row under its own key.
use mathlib.Core.Option.{some-injective}
use kazenai_core.Base.{
  ◌≡◌, refl, sym, ap, subst, ◌∙◌, inl, inr, Bool, true, false, ◌&&◌, eq_iff, List, [], ◌∷◌, Option,
  none, some, if◌then◌else◌, if_cases, Option-cases, All, Bool-cases, arith,
}
use kazenai_core.Pricing.Catalog.{
  CatalogRow, Key, key_of, key_eq, Table, find_row, put_row, build_catalog,
}

fields_eq :
    (a b c d : Bool) → (a && b && c && d) ≡ true → (a ≡ true) × (b ≡ true) × (c ≡ true) × (d ≡ true)
fields_eq a b c d h = ground arith

pub key_eq→≡ : (a b : Key) → key_eq a b ≡ true → a ≡ b
unfolding key_eq
key_eq→≡ a b h =
    let (p, m, t, c) = fields_eq _ _ _ _ h in
    λ i. record {
      provider = (eq_iff a.provider b.provider).0 p i;
      model = (eq_iff a.model b.model).0 m i;
      request_tier = (eq_iff a.request_tier b.request_tier).0 t i;
      context_band = (eq_iff a.context_band b.context_band).0 c i;
    }

pub key_eq_refl : (a : Key) → key_eq a a ≡ true
unfolding key_eq
key_eq_refl a = ground (
  arith,
  (eq_iff a.provider a.provider).1 refl,
  (eq_iff a.model a.model).1 refl,
  (eq_iff a.request_tier a.request_tier).1 refl,
  (eq_iff a.context_band a.context_band).1 refl,
)

module _ {ℓ} {A : Type ℓ} where
  chosen_twice :
      (b : Bool) (x y z : A) → (if b then x else z) ≡ (if b then x else if b then y else z)
  chosen_twice true x y z = refl
  chosen_twice false x y z = refl

  chosen_apart :
      (a b : Bool) (x y z : A)
      → (a ≡ true → b ≡ true → ⊥)
      → (if a then x else if b then y else z) ≡ (if b then y else if a then x else z)
  chosen_apart true true x y z h = absurd (h refl refl)
  chosen_apart true false x y z h = refl
  chosen_apart false b x y z h = refl

  not_chosen :
      (b : Bool) (x : A) (o : Option A) (y : A)
      → b ≡ false
      → o ≡ some y
      → (if b then some x else o) ≡ some y
  not_chosen b x o y h e = rw (h) e

differ : (key a b : Key) → key_eq a b ≡ false → key_eq a key ≡ true → key_eq b key ≡ true → ⊥
differ key a b other p q =
    let same : key_eq a b ≡ true =
      subst (λ (k : Key). key_eq a k ≡ true) (key_eq→≡ a key p ∙ sym (key_eq→≡ b key q))
        (key_eq_refl a) in
    absurd (cc)

-- Reading a key after `table[row.key] = row`: the row where the key is the row's, and what stood
-- there before otherwise.
pub find_row-put_row :
    (key : Key) (row : CatalogRow) (table : Table)
    → find_row key (put_row row table)
      ≡ (if key_eq (key_of row) key then some row else find_row key table)
unfolding find_row put_row
find_row-put_row key row [] = refl
find_row-put_row key row (r ∷ rest) = elim (Bool-cases (key_eq (key_of r) (key_of row))) [
  | inl same ↦
      rw (same, ap (λ (k : Key). key_eq k key) (key_eq→≡ (key_of r) (key_of row) same))
        (chosen_twice (key_eq (key_of row) key) (some row) (some r) (find_row key rest))
  | inr other ↦
      rw (other, find_row-put_row key row rest)
        (chosen_apart (key_eq (key_of r) key) (key_eq (key_of row) key) (some r) (some row)
          (find_row key rest) (differ key (key_of r) (key_of row) other))
]

-- Writing a row whose key is free leaves every other key as it was.
kept :
    (key : Key) (row found : CatalogRow) (table : Table)
    → find_row (key_of row) table ≡ none
    → find_row key table ≡ some found
    → find_row key (put_row row table) ≡ some found
kept key row found table free there = rw (find_row-put_row key row table) (
    if_cases (λ o. o ≡ some found) (key_eq (key_of row) key)
      (λ same.
        let gone : find_row key table ≡ none =
          subst (λ (k : Key). find_row k table ≡ none) (key_eq→≡ (key_of row) key same) free in
        absurd (cc))
      (λ _. there))

abbrev Keeps : Table → Table → Type 0
Keeps t t' = (key : Key) (row : CatalogRow) → find_row key t ≡ some row → find_row key t' ≡ some row

abbrev pub IsFound : Table → CatalogRow → Type 0
IsFound t row = find_row (key_of row) t ≡ some row

own : (row : CatalogRow) (t : Table) → find_row (key_of row) (put_row row t) ≡ some row
own row t = rw (find_row-put_row (key_of row) row t, key_eq_refl (key_of row)) refl

build_catalog-Keeps :
    (rows : List CatalogRow) (t t' : Table)
    → build_catalog rows t ≡ some t'
    → Keeps t t' × All (IsFound t') rows
unfolding build_catalog
build_catalog-Keeps [] t t' = λ e.
    ((λ key row there. subst (λ s. find_row key s ≡ some row) (some-injective t t' e) there), tt)
build_catalog-Keeps (row ∷ rows) t t' = elim (Option-cases (find_row (key_of row) t)) [
  | inr (old, taken) ↦ rw (taken) (λ e. absurd (cc))
  | inl free ↦ rw (free) (λ e.
      let (keeps, found) = build_catalog-Keeps rows (put_row row t) t' e in
      (
        (λ key r there. keeps key r (kept key row r t free there)),
        (keeps (key_of row) row (own row t), found),
      ))
]

-- A price table that builds (no key comes twice) holds every row under its own key, the two rows of a
-- model that differ only in their context band included.
pub build_catalog-All :
    (rows : List CatalogRow) (table : Table)
    → build_catalog rows [] ≡ some table
    → All (IsFound table) rows
build_catalog-All rows table e = (build_catalog-Keeps rows [] table e).1
