-- ===== src/Enforcement/Holds.antt =====
-- The exposure of kazenai/enforcement.py over every interleaving of the calls that share a cap.
use kazenai_core.Base.{
  ◌+◌, ◌≡◌, refl, sym, Bool, false, Option, some, List, [], ◌∷◌, arith, inl, inr, ◌⊎◌, Bool-cases,
  All,
}
use kazenai_core.Base.Amount.{
  ℤ, pos, ◌+ℤ◌, ◌-ℤ◌, ◌≤ℤ◌, ltb_ℤ, pos_part, neg_part, floor_zero, int_laws, +ℤ_parts, -ℤ_parts,
  eq_of_parts,
}
use kazenai_core.Enforcement.{
  Enforcement, admitted, rate_limited, over_budget, hold, check_local, record_call,
  release_projection, init,
}
use kazenai_core.Enforcement.Headroom.{used}

-- Taking one item out of a list.
pub data Pick : ℤ → List ℤ → List ℤ → Type 0 where
  here : {h : ℤ} {hs : List ℤ} → Pick h (h ∷ hs) hs
  further : {h x : ℤ} {hs rest : List ℤ} → Pick h hs rest → Pick h (x ∷ hs) (x ∷ rest)

unfoldable pub sum : List ℤ → ℤ
sum [] = pos 0
sum (h ∷ hs) = h +ℤ sum hs

-- The histories of one capped enforcement, with the holds of the calls under way and the sum by
-- which recorded costs passed their holds. The calls of all its clients come in any order.
pub data Reaches (limit : ℤ) : Enforcement → List ℤ → ℤ → Type 0 where
  started :
      (rate : Option ℤ) (window : ℤ) → Reaches limit (init (some limit) rate window) [] (pos 0)
  checks :
      {e : Enforcement} {hs : List ℤ} {over : ℤ} (now proj p : ℤ)
      → Reaches limit e hs over
      → pos 0 ≤ℤ proj
      → (check_local now proj e).1 ≡ admitted p
      → Reaches limit (check_local now proj e).0 (p ∷ hs) over
  refused :
      {e : Enforcement} {hs : List ℤ} {over : ℤ} (now proj : ℤ)
      → Reaches limit e hs over
      → ((check_local now proj e).1 ≡ rate_limited) ⊎ ((check_local now proj e).1 ≡ over_budget)
      → Reaches limit (check_local now proj e).0 hs over
  cancels :
      {e : Enforcement} {hs rest : List ℤ} {over : ℤ} (h : ℤ)
      → Reaches limit e hs over
      → Pick h hs rest
      → Reaches limit (release_projection h e) rest over
  records :
      {e : Enforcement} {hs rest : List ℤ} {over : ℤ} (now cost h : ℤ) (enforce : Bool)
      → Reaches limit e hs over
      → Pick h hs rest
      → pos 0 ≤ℤ cost
      → Reaches limit
          (record_call now (some cost) enforce h e).0
          rest
          (over +ℤ floor_zero (cost -ℤ h))

-- The holds are what is pending, and the exposure is within the cap and what was passed.
pub record IsCovered (limit : ℤ) (e : Enforcement) (hs : List ℤ) (over : ℤ) : Type 0 where
  pub capped : e.max_cost ≡ some limit
  pub pending : e.pending_projected ≡ sum hs
  pub positive : All (λ h. pos 0 ≤ℤ h) hs
  pub paid : pos 0 ≤ℤ over
  pub within : used e ≤ℤ limit +ℤ over

pub sum-positive : (hs : List ℤ) → All (λ h. pos 0 ≤ℤ h) hs → pos 0 ≤ℤ sum hs
unfolding sum
sum-positive [] all = omega arith
sum-positive (h ∷ hs) (first, all) = let rest = sum-positive hs all in omega int_laws

pub sum-Pick : {h : ℤ} {hs rest : List ℤ} → Pick h hs rest → sum hs ≡ h +ℤ sum rest
unfolding sum
sum-Pick here = refl
sum-Pick {h} (further {x} {hs} {rest} k) =
    let e = sum-Pick k in
    let e' : pos_part (sum hs) + (neg_part h + neg_part (sum rest))
        ≡ neg_part (sum hs) + (pos_part h + pos_part (sum rest)) =
      rw e (omega int_laws) in
    omega int_laws

pub Pick-All :
    (P : ℤ → Type 0) {h : ℤ} {hs rest : List ℤ} → Pick h hs rest → All P hs → P h × All P rest
Pick-All P here (a, all) = (a, all)
Pick-All P (further k) (a, all) = let (b, rest) = Pick-All P k all in (b, (a, rest))

pub sum-commutes : (a b : ℤ) → a +ℤ b ≡ b +ℤ a
sum-commutes a b = eq_of_parts (a +ℤ b) (b +ℤ a) (omega int_laws)

pub zero-sum : (a b : ℤ) → pos 0 ≤ℤ a → ltb_ℤ (pos 0) a ≡ false → a +ℤ b ≡ b
zero-sum a b positive h = let sum = +ℤ_parts a b in eq_of_parts (a +ℤ b) b (ground arith)

-- Taking a hold, and giving it back.
pub hold-pending :
    (proj : ℤ) (e : Enforcement)
    → pos 0 ≤ℤ proj
    → (hold proj e).pending_projected ≡ proj +ℤ e.pending_projected
unfolding hold
hold-pending proj e positive = elim (Bool-cases (ltb_ℤ (pos 0) proj)) [
  | inl h ↦ rw h (sum-commutes e.pending_projected proj)
  | inr h ↦ rw h (sym (zero-sum proj e.pending_projected positive h))
]

pub back : (h rest : ℤ) → pos 0 ≤ℤ rest → floor_zero (h +ℤ rest -ℤ h) ≡ rest
back h rest positive =
    let sum = +ℤ_parts h rest in
    let less = -ℤ_parts (h +ℤ rest) h in
    eq_of_parts (floor_zero (h +ℤ rest -ℤ h)) rest (ground arith)

pub release-pending :
    (h rest : ℤ) (e : Enforcement)
    → pos 0 ≤ℤ h
    → pos 0 ≤ℤ rest
    → e.pending_projected ≡ h +ℤ rest
    → (release_projection h e).pending_projected ≡ rest
unfolding release_projection
release-pending h rest e positive left same = elim (Bool-cases (ltb_ℤ (pos 0) h)) [
  | inl k ↦ rw (k, same) (back h rest left)
  | inr k ↦ rw (k, same) (zero-sum h rest positive k)
]

pub hold-others :
    (proj : ℤ) (e : Enforcement)
    → ((hold proj e).max_cost ≡ e.max_cost) × ((hold proj e).cumulative_cost ≡ e.cumulative_cost)
unfolding hold
hold-others proj e = ground arith

pub release-others :
    (h : ℤ) (e : Enforcement)
    → ((release_projection h e).max_cost ≡ e.max_cost)
      × ((release_projection h e).cumulative_cost ≡ e.cumulative_cost)
unfolding release_projection
release-others h e = ground arith
