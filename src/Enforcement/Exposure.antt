-- ===== src/Enforcement/Exposure.antt =====
-- The exposure of kazenai/enforcement.py stays within its cap over every interleaving of the calls
-- that share it.
use kazenai_core.Base.{
  ◌≡◌, refl, Bool, false, Option, some, List, [], ◌∷◌, ◌++◌, arith, ◌⊎◌, ap, ◌∙◌, subst,
}
use kazenai_core.Base.Amount.{ℤ, pos, negsuc, ◌+ℤ◌, ◌-ℤ◌, ◌≤ℤ◌, ltb_ℤ, floor_zero, int_laws}
use kazenai_core.Enforcement.{
  Enforcement, prune, Check, admitted, rate_limited, over_budget, check_local, record_call,
  release_projection, init,
}
use kazenai_core.Enforcement.Headroom.{
  Checked, limited, uncapped, passed, held, check_local-Checked,
}
use kazenai_core.Enforcement.Holds.{
  Pick, sum, Reaches, IsCovered, sum-positive, sum-Pick, Pick-All, hold-pending, release-pending,
  hold-others, release-others, started, checks, refused, cancels, records,
}

hold-within :
    (cum pend proj limit over : ℤ)
    → pos 0 ≤ℤ over
    → ltb_ℤ limit (cum +ℤ pend +ℤ proj) ≡ false
    → cum +ℤ (proj +ℤ pend) ≤ℤ limit +ℤ over
hold-within cum pend proj limit over paid h =
    let total : cum +ℤ pend +ℤ proj ≤ℤ limit = ground arith in omega int_laws

release-within :
    (cum h rest limit over : ℤ)
    → pos 0 ≤ℤ h
    → cum +ℤ (h +ℤ rest) ≤ℤ limit +ℤ over
    → cum +ℤ rest ≤ℤ limit +ℤ over
release-within cum h rest limit over positive within = omega int_laws

passing : (x : ℤ) → x ≤ℤ floor_zero x
passing (pos n) = omega arith
passing (negsuc n) = omega arith

record-within :
    (cum cost h rest limit over : ℤ)
    → cum +ℤ (h +ℤ rest) ≤ℤ limit +ℤ over
    → cum +ℤ cost +ℤ rest ≤ℤ limit +ℤ (over +ℤ floor_zero (cost -ℤ h))
record-within cum cost h rest limit over within = let more = passing (cost -ℤ h) in omega int_laws

more-paid : (over x : ℤ) → pos 0 ≤ℤ over → pos 0 ≤ℤ over +ℤ floor_zero x
more-paid over (pos n) paid = omega int_laws
more-paid over (negsuc n) paid = omega int_laws

module _ {limit over : ℤ} {e : Enforcement} {hs : List ℤ} (c : IsCovered limit e hs over) where
  check-IsCovered :
      (now proj p : ℤ) (r : Enforcement × Check)
      → Checked now proj e r
      → pos 0 ≤ℤ proj
      → r.1 ≡ admitted p
      → IsCovered limit r.0 (p ∷ hs) over
  unfolding sum
  check-IsCovered now proj p _ limited positive ok = absurd (ground arith)
  check-IsCovered now proj p _ (uncapped n) positive ok = absurd (let k = c.capped in ground arith)
  check-IsCovered now proj p _ (passed l k h) positive ok = absurd (ground arith)
  check-IsCovered now proj p _ (held l k h) positive ok =
      let same : proj ≡ p = ground arith in
      let others = hold-others proj (prune now e) in
      rw⁻¹ same (record {
        capped = others.0 ∙ c.capped;
        pending = hold-pending proj (prune now e) positive ∙ ap (λ k. proj +ℤ k) c.pending;
        positive = (positive, c.positive);
        paid = c.paid;
        within =
            rw (others.1, hold-pending proj (prune now e) positive)
              (hold-within e.cumulative_cost e.pending_projected proj limit over c.paid
                (rw⁻¹ (let cap = c.capped in let agree : l ≡ limit = ground arith in agree) h));
      })

  refused-IsCovered :
      (now proj : ℤ) (r : Enforcement × Check)
      → Checked now proj e r
      → (r.1 ≡ rate_limited) ⊎ (r.1 ≡ over_budget)
      → IsCovered limit r.0 hs over
  refused-IsCovered now proj _ limited refusal = record {
    capped = c.capped;
    pending = c.pending;
    positive = c.positive;
    paid = c.paid;
    within = c.within;
  }
  refused-IsCovered now proj _ (uncapped n) refusal = absurd (let k = c.capped in ground arith)
  refused-IsCovered now proj _ (passed l k h) refusal = record {
    capped = c.capped;
    pending = c.pending;
    positive = c.positive;
    paid = c.paid;
    within = c.within;
  }
  refused-IsCovered now proj _ (held l k h) refusal = absurd (ground arith)

  release-IsCovered :
      (h : ℤ) (rest : List ℤ) → Pick h hs rest → IsCovered limit (release_projection h e) rest over
  release-IsCovered h rest k =
      let (positive, left) = Pick-All (λ h. pos 0 ≤ℤ h) k c.positive in
      let others = release-others h e in
      let split = c.pending ∙ sum-Pick k in
      let freed = release-pending h (sum rest) e positive (sum-positive rest left) split in
      record {
        capped = others.0 ∙ c.capped;
        pending = freed;
        positive = left;
        paid = c.paid;
        within =
            rw (others.1, freed)
              (release-within e.cumulative_cost h (sum rest) limit over positive
                (subst (λ s. e.cumulative_cost +ℤ s ≤ℤ limit +ℤ over) split c.within));
      }

  record-IsCovered :
      (now cost h : ℤ) (enforce : Bool) (rest : List ℤ)
      → Pick h hs rest
      → IsCovered limit
          (record_call now (some cost) enforce h e).0
          rest
          (over +ℤ floor_zero (cost -ℤ h))
  unfolding record_call
  record-IsCovered now cost h enforce rest k =
      let (positive, left) = Pick-All (λ h. pos 0 ≤ℤ h) k c.positive in
      let counted : Enforcement = record (prune now e) {
        call_timestamps = (prune now e).call_timestamps ++ (now ∷ []);
      } in
      let others = release-others h counted in
      let split = c.pending ∙ sum-Pick k in
      let freed = release-pending h (sum rest) counted positive (sum-positive rest left) split in
      record {
        capped = others.0 ∙ c.capped;
        pending = freed;
        positive = left;
        paid = more-paid over (cost -ℤ h) c.paid;
        within =
            rw (others.1, freed)
              (record-within e.cumulative_cost cost h (sum rest) limit over
                (subst (λ s. e.cumulative_cost +ℤ s ≤ℤ limit +ℤ over) split c.within));
      }

init-IsCovered :
    (limit : ℤ) (rate : Option ℤ) (window : ℤ)
    → pos 0 ≤ℤ limit
    → IsCovered limit (init (some limit) rate window) [] (pos 0)
unfolding init sum
init-IsCovered limit rate window positive = record {
  capped = refl;
  pending = refl;
  positive = tt;
  paid = omega arith;
  within = omega int_laws;
}

-- Under one cap that is not negative and does not change, for clients that check each call with a
-- projection that is not negative and then either give its hold back or record a cost that is not
-- negative with the release of its hold, in any order: what is pending is the sum of the holds of
-- the calls under way, and the cost recorded together with what is pending passes the cap by no
-- more than recorded costs passed their holds.
pub Reaches-IsCovered :
    {limit : ℤ} {e : Enforcement} {hs : List ℤ} {over : ℤ}
    → pos 0 ≤ℤ limit
    → Reaches limit e hs over
    → IsCovered limit e hs over
Reaches-IsCovered {limit} positive (started rate window) = init-IsCovered limit rate window positive
Reaches-IsCovered positive (checks {e} now proj p r more ok) =
    check-IsCovered (Reaches-IsCovered positive r) now proj p (check_local now proj e)
      (check_local-Checked now proj e) more ok
Reaches-IsCovered positive (refused {e} now proj r refusal) =
    refused-IsCovered (Reaches-IsCovered positive r) now proj (check_local now proj e)
      (check_local-Checked now proj e) refusal
Reaches-IsCovered positive (cancels {rest} h r k) =
    release-IsCovered (Reaches-IsCovered positive r) h rest k
Reaches-IsCovered positive (records {rest} now cost h enforce r k more) =
    record-IsCovered (Reaches-IsCovered positive r) now cost h enforce rest k
