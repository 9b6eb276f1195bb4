-- ===== src/RetryQueue/Rows.antt =====
-- Laws of the statements that kazenai/retry_queue.py runs on `pending_events`: keys stay in order,
-- and what each statement does to the rows that carry an event id.
use kazenai_core.Base.{
  ℕ, zero, suc, ◌+◌, ◌≤◌, ◌<◌, ◌≡◌, refl, ◌≢◌, inl, inr, Bool-cases, Bool, some, List, [], ◌∷◌,
  ◌++◌, arith, String, if◌then◌else◌, keep, take, count, All, All-map, All-take,
}
use kazenai_core.RetryQueue.Table.{
  Row, row_has, count_pending, delete_row, find_row, set_lease, is_due, first_due,
}

-- The keys ascend strictly, from `lo` on and below `hi`.
abbrev pub Within : ℕ → ℕ → List Row → Type 0
Within lo hi [] = lo ≤ hi
Within lo hi (r ∷ rs) = (lo ≤ r.id) × Within (suc r.id) hi rs

pub Within-mono : (lo lo' hi : ℕ) (rs : List Row) → lo ≤ lo' → Within lo' hi rs → Within lo hi rs
Within-mono lo lo' hi [] h w = omega arith
Within-mono lo lo' hi (r ∷ rs) h w = (omega arith, w.1)

pub Within-le : (lo hi : ℕ) (rs : List Row) → Within lo hi rs → lo ≤ hi
Within-le lo hi [] w = w
Within-le lo hi (r ∷ rs) w = omega (arith, Within-le (suc r.id) hi rs w.1)

pub Within-append :
    (lo hi : ℕ) (rs : List Row) (r : Row)
    → Within lo hi rs
    → r.id ≡ hi
    → Within lo (suc hi) (rs ++ r ∷ [])
Within-append lo hi [] r w e = (omega arith, omega arith)
Within-append lo hi (x ∷ rs) r w e = (w.0, Within-append (suc x.id) hi rs r w.1 e)

pub Within-keep :
    (p : Row → Bool) (lo hi : ℕ) (rs : List Row) → Within lo hi rs → Within lo hi (keep p rs)
Within-keep p lo hi [] w = w
Within-keep p lo hi (r ∷ rs) w =
    let below = Within-keep p (suc r.id) hi rs w.1 in
    ground (arith, below, Within-mono lo (suc r.id) hi (keep p rs))

pub Within-take : (n lo hi : ℕ) (rs : List Row) → Within lo hi rs → Within lo hi (take n rs)
Within-take zero lo hi rs w = Within-le lo hi rs w
Within-take (suc n) lo hi [] w = w
Within-take (suc n) lo hi (r ∷ rs) w = (w.0, Within-take n (suc r.id) hi rs w.1)

pub Within-delete : (i lo hi : ℕ) (rs : List Row) → Within lo hi rs → Within lo hi (delete_row i rs)
unfolding delete_row
Within-delete i lo hi [] w = w
Within-delete i lo hi (r ∷ rs) w =
    let below = Within-delete i (suc r.id) hi rs w.1 in
    ground (arith, below, Within-mono lo (suc r.id) hi (delete_row i rs))

pub Within-set_lease :
    (until more i lo hi : ℕ) (rs : List Row)
    → Within lo hi rs
    → Within lo hi (set_lease until more i rs)
unfolding set_lease
Within-set_lease until more i lo hi [] w = w
Within-set_lease until more i lo hi (r ∷ rs) w =
    ground (arith, Within-set_lease until more i (suc r.id) hi rs w.1)

delete_row_above : (i lo hi : ℕ) (rs : List Row) → i < lo → Within lo hi rs → delete_row i rs ≡ rs
unfolding delete_row
delete_row_above i lo hi [] h w = refl
delete_row_above i lo hi (r ∷ rs) h w = ground (arith, delete_row_above i (suc r.id) hi rs)

-- With distinct keys a deletion takes away the one row that a search finds.
pub count-delete :
    (p : Row → Bool) (i lo hi : ℕ) (rs : List Row) (r : Row)
    → Within lo hi rs
    → find_row i rs ≡ some r
    → count p (delete_row i rs) + (if p r then 1 else 0) ≡ count p rs
unfolding delete_row find_row
count-delete p i lo hi [] r w e = ground arith
count-delete p i lo hi (x ∷ rs) r w e =
    ground (arith, delete_row_above i (suc x.id) hi rs, count-delete p i (suc x.id) hi rs r w.1)

pub count-set_lease :
    (e : String) (until more i : ℕ) (rs : List Row)
    → count (row_has e) (set_lease until more i rs) ≡ count (row_has e) rs
unfolding set_lease
count-set_lease e until more i [] = refl
count-set_lease e until more i (r ∷ rs) = ground (arith, count-set_lease e until more i rs)

pub find_row-delete_ne :
    (i j : ℕ) (rs : List Row) → i ≢ j → find_row j (delete_row i rs) ≡ find_row j rs
unfolding delete_row find_row
find_row-delete_ne i j [] h = refl
find_row-delete_ne i j (r ∷ rs) h = ground (arith, find_row-delete_ne i j rs h)

pub find_row-set_lease_ne :
    (until more i j : ℕ) (rs : List Row)
    → i ≢ j
    → find_row j (set_lease until more i rs) ≡ find_row j rs
unfolding set_lease find_row
find_row-set_lease_ne until more i j [] h = refl
find_row-set_lease_ne until more i j (r ∷ rs) h =
    ground (arith, find_row-set_lease_ne until more i j rs h)

pub count_pending-set_lease :
    (until more i : ℕ) (rs : List Row)
    → count_pending (set_lease until more i rs) ≡ count_pending rs
unfolding set_lease
count_pending-set_lease until more i [] = refl
count_pending-set_lease until more i (r ∷ rs) =
    ground (arith, count_pending-set_lease until more i rs)

pub count_pending-delete-le :
    (i : ℕ) (rs : List Row) → count_pending (delete_row i rs) ≤ count_pending rs
unfolding delete_row
count_pending-delete-le i [] = omega arith
count_pending-delete-le i (r ∷ rs) = ground (arith, count_pending-delete-le i rs)

-- Every row that a search by condition selects is found again by its key.
abbrev pub Found : List Row → Row → Type 0
Found rs x = find_row x.id rs ≡ some x

keep-Found :
    (p : Row → Bool) (lo hi : ℕ) (rs : List Row)
    → Within lo hi rs
    → All (λ x. (lo ≤ x.id) × Found rs x) (keep p rs)
unfolding find_row
keep-Found p lo hi [] w = tt
keep-Found p lo hi (r ∷ rs) w = go (keep-Found p (suc r.id) hi rs w.1)
  where
    skip : (x : Row) → (suc r.id ≤ x.id) × Found rs x → (lo ≤ x.id) × Found (r ∷ rs) x
    skip x h = let above : lo ≤ r.id = w.0 in (omega arith, ground arith)

    go :
        All (λ x. (suc r.id ≤ x.id) × Found rs x) (keep p rs)
        → All (λ x. (lo ≤ x.id) × Found (r ∷ rs) x) (keep p (r ∷ rs))
    go h =
        let later =
          All-map (λ x. (suc r.id ≤ x.id) × Found rs x) (λ x. (lo ≤ x.id) × Found (r ∷ rs) x)
            (keep p rs) skip h in
        elim (Bool-cases (p r)) [ inl e ↦ rw e ((w.0, ground arith), later) | inr e ↦ rw e later ]

pub first_due-Found :
    (now limit hi : ℕ) (rs : List Row) → Within 0 hi rs → All (Found rs) (first_due now limit rs)
unfolding first_due
first_due-Found now limit hi rs w = All-take (Found rs) limit (keep (is_due now) rs) (
    All-map (λ x. (0 ≤ x.id) × Found rs x) (Found rs) (keep (is_due now) rs) (λ x h. h.1)
      (keep-Found (is_due now) 0 hi rs w))

pub first_due-Within :
    (now limit hi : ℕ) (rs : List Row) → Within 0 hi rs → Within 0 hi (first_due now limit rs)
unfolding first_due
first_due-Within now limit hi rs w = Within-take limit 0 hi _ (Within-keep (is_due now) 0 hi rs w)
