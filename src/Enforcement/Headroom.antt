-- ===== src/Enforcement/Headroom.antt =====
-- The cap of kazenai/enforcement.py: how `check_local` ends, and `release_projection` after it.
use kazenai_core.Base.{
  ◌≡◌, refl, sym, true, false, none, some, arith, if◌then◌else◌, inl, inr, subst, if_cases,
  Option-cases, Bool-cases,
}
use kazenai_core.Base.Amount.{
  ℤ, pos, ◌+ℤ◌, ◌-ℤ◌, ◌≤ℤ◌, ltb_ℤ, floor_zero, +ℤ_parts, -ℤ_parts, eq_of_parts,
}
use kazenai_core.Enforcement.{
  Enforcement, prune, Check, admitted, rate_limited, over_budget, is_rate_limited, check_budget,
  hold, check_local, release_projection,
}

-- What a cap has left, with what is spent and held.
abbrev pub used : Enforcement → ℤ
used e = e.cumulative_cost +ℤ e.pending_projected

check-limited :
    (now proj : ℤ) (e : Enforcement)
    → is_rate_limited (prune now e) ≡ true
    → check_local now proj e ≡ (prune now e, rate_limited)
unfolding check_local
check-limited now proj e slow = rw slow refl

check-uncapped :
    (now proj : ℤ) (e : Enforcement)
    → e.max_cost ≡ none
    → is_rate_limited (prune now e) ≡ false
    → check_local now proj e ≡ (prune now e, admitted proj)
unfolding check_local check_budget
check-uncapped now proj e c slow = rw (slow, c) refl

-- What `check_local` answers under a cap.
check-capped :
    (now proj limit : ℤ) (e : Enforcement)
    → e.max_cost ≡ some limit
    → is_rate_limited (prune now e) ≡ false
    → check_local now proj e ≡ (
        if ltb_ℤ limit (used e +ℤ proj)
        then (prune now e, over_budget)
        else (hold proj (prune now e), admitted proj))
unfolding check_local check_budget
check-capped now proj limit e c slow = rw (slow, c) refl

unhold : (a p : ℤ) → pos 0 ≤ℤ a → floor_zero (a +ℤ p -ℤ p) ≡ a
unhold a p positive =
    let sum = +ℤ_parts a p in
    let rest = -ℤ_parts (a +ℤ p) p in eq_of_parts (floor_zero (a +ℤ p -ℤ p)) a (ground arith)

release-hold :
    (p : ℤ) (e : Enforcement) → pos 0 ≤ℤ e.pending_projected → release_projection p (hold p e) ≡ e
unfolding release_projection hold
release-hold p e positive = let back = unhold e.pending_projected p positive in ground arith

-- How `check_local` ends, with what it leaves.
pub data Checked (now proj : ℤ) (e : Enforcement) : Enforcement × Check → Type 0 where
  limited : Checked now proj e (prune now e, rate_limited)
  uncapped : e.max_cost ≡ none → Checked now proj e (prune now e, admitted proj)
  passed :
      (limit : ℤ)
      → e.max_cost ≡ some limit
      → ltb_ℤ limit (used e +ℤ proj) ≡ true
      → Checked now proj e (prune now e, over_budget)
  held :
      (limit : ℤ)
      → e.max_cost ≡ some limit
      → ltb_ℤ limit (used e +ℤ proj) ≡ false
      → Checked now proj e (hold proj (prune now e), admitted proj)

pub check_local-Checked :
    (now proj : ℤ) (e : Enforcement) → Checked now proj e (check_local now proj e)
check_local-Checked now proj e = elim (Bool-cases (is_rate_limited (prune now e))) [
  | inl slow ↦ subst (Checked now proj e) (sym (check-limited now proj e slow)) limited
  | inr slow ↦ elim (Option-cases e.max_cost) [
    | inl c ↦ subst (Checked now proj e) (sym (check-uncapped now proj e c slow)) (uncapped c)
    | inr (limit, c) ↦ subst (Checked now proj e) (sym (check-capped now proj limit e c slow)) (
        if_cases (Checked now proj e) (ltb_ℤ limit (used e +ℤ proj)) (λ h. passed limit c h)
          (λ h. held limit c h))
  ]
]

Checked-release :
    (now proj p limit : ℤ) (e : Enforcement) (r : Enforcement × Check)
    → Checked now proj e r
    → e.max_cost ≡ some limit
    → pos 0 ≤ℤ e.pending_projected
    → r.1 ≡ admitted p
    → release_projection p r.0 ≡ prune now e
Checked-release now proj p limit e _ limited c positive ok = absurd (ground arith)
Checked-release now proj p limit e _ (uncapped n) c positive ok = absurd (ground arith)
Checked-release now proj p limit e _ (passed l k h) c positive ok = absurd (ground arith)
Checked-release now proj p limit e _ (held l k h) c positive ok =
    let same : proj ≡ p = ground arith in rw⁻¹ same (release-hold proj (prune now e) positive)

-- A call that is admitted under a cap and never dispatched leaves the exposure as it was, and
-- records no call, when what is pending is not negative.
pub release-check_local :
    (now proj p limit : ℤ) (e : Enforcement)
    → e.max_cost ≡ some limit
    → pos 0 ≤ℤ e.pending_projected
    → (check_local now proj e).1 ≡ admitted p
    → release_projection p (check_local now proj e).0 ≡ prune now e
release-check_local now proj p limit e c positive ok =
    Checked-release now proj p limit e (check_local now proj e) (check_local-Checked now proj e) c
      positive ok
