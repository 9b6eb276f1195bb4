-- ===== src/Pricing/Schedule.antt =====
-- `CatalogRow.at` of kazenai/price_catalog.py: among the published future prices, the one in force
-- is the latest that has started, in whatever order they are listed.
use mathlib.Core.List.{Memᴰ}
use mathlib.Core.List.Memᴰ
use kazenai_core.Base.{
  ℕ, ◌≤◌, ◌≡◌, refl, sym, ap, subst, ◌⊎◌, inl, inr, true, false, not, ◌&&◌, List, [], ◌∷◌, Option,
  none, some, leb, leb→le, if_cases, All, arith,
}
use kazenai_core.Pricing.Rates.{RateVector}
use kazenai_core.Pricing.Catalog.{
  CatalogRow, insert_entry, sort_entries, has_started, latest_rates, row_at, starts_or, has_ended,
}

abbrev Entry : Type 0
Entry = Option ℕ × RateVector

-- No entry of the list that has started by `now` starts after `bound`.
abbrev pub NoneAfter : ℕ → ℕ → Entry → Type 0
NoneAfter now bound e = has_started now e.0 ≡ true → starts_or now e ≤ bound

-- The price in force: the row's own while no entry has started, else that of an entry that has
-- started, and after which none has.
pub data InForce (now : ℕ) (entries : List Entry) (own : RateVector) (r : RateVector) : Type 0 where
  unchanged :
      All (λ (e : Entry). has_started now e.0 ≡ false) entries → r ≡ own → InForce now entries own r
  newest :
      (s : ℕ)
      → Memᴰ (some s, r) entries
      → s ≤ now
      → All (NoneAfter now s) entries
      → InForce now entries own r

abbrev AfterAll : ℕ → Entry → List Entry → Type 0
AfterAll now e = All (λ (x : Entry). starts_or now e ≤ starts_or now x)

abbrev Sorted : ℕ → List Entry → Type 0
Sorted now [] = Unit
Sorted now (e ∷ rest) = AfterAll now e rest × Sorted now rest

module _ (P : Entry → Type 0) where
  All-Memᴰ : (x : Entry) (xs : List Entry) → All P xs → Memᴰ x xs → P x
  All-Memᴰ x [] _ m = absurd (Memᴰ.not-nil m)
  All-Memᴰ x (y ∷ ys) (p, ps) m = elim (Memᴰ.cases_cons m) [
    | inl e ↦ subst P (sym e) p
    | inr rest ↦ All-Memᴰ x ys ps rest
  ]

  All-insert :
      (now : ℕ) (e : Entry) (xs : List Entry) → P e → All P xs → All P (insert_entry now e xs)
  unfolding insert_entry
  All-insert now e [] p _ = (p, tt)
  All-insert now e (x ∷ xs) p (q, qs) =
      if_cases (All P) (leb (starts_or now e) (starts_or now x)) (λ _. (p, (q, qs)))
        (λ _. (q, All-insert now e xs p qs))

  insert-All :
      (now : ℕ) (e : Entry) (xs : List Entry) → All P (insert_entry now e xs) → P e × All P xs
  unfolding insert_entry
  insert-All now e [] = λ h. h
  insert-All now e (x ∷ xs) =
      if_cases (λ (l : List Entry). All P l → P e × All P (x ∷ xs))
        (leb (starts_or now e) (starts_or now x)) (λ _ h. (h.0, h.1))
        (λ _ h. let (p, ps) = insert-All now e xs (h.1) in (p, (h.0, ps)))

  sort-All : (now : ℕ) (xs : List Entry) → All P (sort_entries now xs) → All P xs
  unfolding sort_entries
  sort-All now [] _ = tt
  sort-All now (e ∷ xs) h =
      let (p, ps) = insert-All now e (sort_entries now xs) h in (p, sort-All now xs ps)

after_trans :
    (now : ℕ) (e x : Entry) (xs : List Entry)
    → starts_or now e ≤ starts_or now x
    → AfterAll now x xs
    → AfterAll now e xs
after_trans now e x [] h _ = tt
after_trans now e x (y ∷ ys) h (p, ps) = (omega (arith, h, p), after_trans now e x ys h ps)

insert_entry-Sorted :
    (now : ℕ) (e : Entry) (xs : List Entry) → Sorted now xs → Sorted now (insert_entry now e xs)
unfolding insert_entry
insert_entry-Sorted now e [] _ = (tt, tt)
insert_entry-Sorted now e (x ∷ xs) (p, ps) =
    if_cases (Sorted now) (leb (starts_or now e) (starts_or now x))
      (λ h.
        let le : starts_or now e ≤ starts_or now x = leb→le _ _ h in
        ((le, after_trans now e x xs le p), (p, ps)))
      (λ h. (
        All-insert (λ (y : Entry). starts_or now x ≤ starts_or now y) now e xs (ground arith) p,
        insert_entry-Sorted now e xs ps,
      ))

sort_entries-Sorted : (now : ℕ) (xs : List Entry) → Sorted now (sort_entries now xs)
unfolding sort_entries
sort_entries-Sorted now [] = tt
sort_entries-Sorted now (e ∷ xs) = insert_entry-Sorted now e _ (sort_entries-Sorted now xs)

insert-Memᴰ :
    (now : ℕ) (e x : Entry) (xs : List Entry) → Memᴰ x (insert_entry now e xs) → (x ≡ e) ⊎ Memᴰ x xs
unfolding insert_entry
insert-Memᴰ now e x [] = Memᴰ.cases_cons
insert-Memᴰ now e x (y ∷ ys) =
    if_cases (λ (l : List Entry). Memᴰ x l → (x ≡ e) ⊎ Memᴰ x (y ∷ ys))
      (leb (starts_or now e) (starts_or now y)) (λ _ m. Memᴰ.cases_cons m)
      (λ _ m. elim (Memᴰ.cases_cons m) [
        | inl is ↦ inr (Memᴰ.head is)
        | inr deep ↦ elim (insert-Memᴰ now e x ys deep) [
          | inl is ↦ inl is
          | inr rest ↦ inr (Memᴰ.tail rest)
        ]
      ])

sort-Memᴰ : (now : ℕ) (x : Entry) (xs : List Entry) → Memᴰ x (sort_entries now xs) → Memᴰ x xs
unfolding sort_entries
sort-Memᴰ now x [] m = m
sort-Memᴰ now x (e ∷ xs) m = elim (insert-Memᴰ now e x (sort_entries now xs) m) [
  | inl is ↦ Memᴰ.head is
  | inr rest ↦ Memᴰ.tail (sort-Memᴰ now x xs rest)
]

waiting :
    (now : ℕ) (e : Entry) (xs : List Entry) (own r : RateVector)
    → has_started now e.0 ≡ false
    → InForce now xs own r
    → InForce now (e ∷ xs) own r
waiting now e xs own r idle (unchanged none_yet same) = unchanged (idle, none_yet) same
waiting now e xs own r idle (newest s there begun last) =
    newest s (Memᴰ.tail there) begun ((λ h. absurd (cc)), last)

unstarted :
    (now s : ℕ) (xs : List Entry)
    → All (λ (e : Entry). has_started now e.0 ≡ false) xs
    → All (NoneAfter now s) xs
unstarted now s [] _ = tt
unstarted now s (x ∷ xs) (p, ps) = ((λ h. absurd (cc)), unstarted now s xs ps)

started :
    (now : ℕ) (e : Entry) (xs : List Entry) (own r : RateVector)
    → has_started now e.0 ≡ true
    → AfterAll now e xs
    → InForce now xs e.1 r
    → InForce now (e ∷ xs) own r
started now (none, priced) xs own r begun after _ = absurd (cc)
started now (some s, priced) xs own r begun after (unchanged none_yet same) =
    newest s (Memᴰ.head (ap (λ (t : RateVector). (some s, t)) same)) (leb→le s now begun)
      ((λ _. omega arith), unstarted now s xs none_yet)
started now (some s, priced) xs own r begun after (newest s' there begun' last) =
    newest s' (Memᴰ.tail there) begun'
      ((λ _. All-Memᴰ (λ (x : Entry). s ≤ starts_or now x) (some s', r) xs after there), last)

latest_rates-InForce :
    (now : ℕ) (xs : List Entry) (own : RateVector)
    → Sorted now xs
    → InForce now xs own (latest_rates now xs own)
unfolding latest_rates
latest_rates-InForce now [] own _ = unchanged tt refl
latest_rates-InForce now (e ∷ xs) own (after, sorted) =
    if_cases (λ (next : RateVector). InForce now (e ∷ xs) own (latest_rates now xs next))
      (has_started now e.0)
      (λ begun. started now e xs own _ begun after (latest_rates-InForce now xs e.1 sorted))
      (λ idle. waiting now e xs own _ idle (latest_rates-InForce now xs own sorted))

InForce-sort :
    (now : ℕ) (xs : List Entry) (own r : RateVector)
    → InForce now (sort_entries now xs) own r
    → InForce now xs own r
InForce-sort now xs own r (unchanged idle same) = unchanged (sort-All _ now xs idle) same
InForce-sort now xs own r (newest s there begun last) =
    newest s (sort-Memᴰ now _ xs there) begun (sort-All _ now xs last)

-- A row's price at a moment is its own while none of the published future prices has started, and
-- otherwise one that has started and after which none has, in whatever order they are listed; the row
-- is certified just where it was so before and its `valid_until` has not been reached.
pub row_at-InForce :
    (now : ℕ) (row : CatalogRow)
    → InForce now row.scheduled row.rates (row_at now row).rates
      × ((row_at now row).certified ≡ (row.certified && not (has_ended now row.valid_until)))
unfolding row_at
row_at-InForce now row = (
  InForce-sort now row.scheduled row.rates _ (
      latest_rates-InForce now (sort_entries now row.scheduled) row.rates
        (sort_entries-Sorted now row.scheduled)),
  refl,
)
