-- ===== src/Enforcement/Tests.antt =====
-- Runs of kazenai/enforcement.py under a cap of 100 and a limit of 2 calls in 60 seconds.
use kazenai_core.Base.{◌≡◌, ◌↔◌, refl, false, none, some, [], ◌∷◌, length, keep, arith}
use kazenai_core.Base.Amount.{pos, ◌+ℤ◌, ◌-ℤ◌, ◌≤ℤ◌, floor_zero}
use kazenai_core.Enforcement.Window.{is_recent, Ascends, check_local-rate}
use kazenai_core.Enforcement.Holds.{here, started, checks, records, IsCovered}
use kazenai_core.Enforcement.Exposure.{Reaches-IsCovered}
use kazenai_core.Enforcement.{
  Enforcement, init, check_local, record_call, remaining_budget, admitted, rate_limited,
  is_rate_limited, popleft_before, check_budget, hold,
}

abbrev capped : Enforcement
capped = record {
  max_cost = some (pos 100);
  calls_per_minute = some (pos 2);
  window = pos 60;
  cumulative_cost = pos 30;
  pending_projected = pos 20;
  call_timestamps = pos 10 ∷ pos 50 ∷ pos 65 ∷ [];
}

abbrev fresh : Enforcement
fresh = init (some (pos 100)) none (pos 60)

ascending : Ascends (pos 10 ∷ pos 50 ∷ pos 65 ∷ [])
ascending = ((omega arith, (omega arith, tt)), ((omega arith, tt), (tt, tt)))

left_over : remaining_budget capped ≡ some (pos 50)
unfolding remaining_budget ◌+ℤ◌ ◌-ℤ◌
left_over = refl

allowed : (check_local (pos 120) (pos 40) capped).1 ≡ admitted (pos 40)
unfolding check_local is_rate_limited popleft_before check_budget hold ◌+ℤ◌ ◌-ℤ◌
allowed = refl

fresh_allowed : (check_local (pos 5) (pos 40) fresh).1 ≡ admitted (pos 40)
unfolding init check_local is_rate_limited popleft_before check_budget hold ◌+ℤ◌ ◌-ℤ◌
fresh_allowed = refl

-- At 80, the call at 10 has left the window, and two calls are in it.
check_local-rate_example :
    ((check_local (pos 80) (pos 5) capped).1 ≡ rate_limited)
    ↔ (pos 2 ≤ℤ pos (length (keep (is_recent (pos 80 -ℤ pos 60)) (pos 10 ∷ pos 50 ∷ pos 65 ∷ []))))
check_local-rate_example = check_local-rate (pos 80) (pos 5) (pos 2) capped ascending refl

-- A call is held at 40 and costs 45: the cap is passed by 5 at most.
Reaches-IsCovered_example :
    IsCovered
      (pos 100)
      (record_call (pos 9) (some (pos 45)) false (pos 40) (check_local (pos 5) (pos 40) fresh).0).0
      []
      (pos 0 +ℤ floor_zero (pos 45 -ℤ pos 40))
Reaches-IsCovered_example = Reaches-IsCovered (omega arith) (
    records (pos 9) (pos 45) (pos 40) false
      (checks (pos 5) (pos 40) (pos 40) (started none (pos 60)) (omega arith) fresh_allowed) here
      (omega arith))
