-- ===== src/Enforcement.antt =====
-- kazenai/enforcement.py (`Enforcement`) and kazenai/budget.py (`SharedBudget`). Amounts of money
-- and moments of the monotonic clock are exact integers of one unit.
pub mod Holds
pub mod Exposure
pub mod Window
pub mod Headroom
mod Tests
use kazenai_core.Base.{
  ℕ, Bool, true, false, not, ◌&&◌, Option, none, some, List, [], ◌∷◌, ◌++◌, String, if◌then◌else◌,
  length,
}
use kazenai_core.Base.Amount.{ℤ, pos, negsuc, ◌+ℤ◌, ◌-ℤ◌, ltb_ℤ, floor_zero}

pub record Enforcement : Type 0 where
  pub max_cost : Option ℤ
  pub calls_per_minute : Option ℤ
  pub window : ℤ
  pub cumulative_cost : ℤ
  pub pending_projected : ℤ
  pub call_timestamps : List ℤ

-- `__init__`.
unfoldable pub init : Option ℤ → Option ℤ → ℤ → Enforcement
init max_cost calls_per_minute window = record {
  max_cost = max_cost;
  calls_per_minute = calls_per_minute;
  window = window;
  cumulative_cost = pos 0;
  pending_projected = pos 0;
  call_timestamps = [];
}

-- The loop of `_prune_locked`: the oldest calls leave while they are before the cutoff.
unfoldable pub popleft_before : ℤ → List ℤ → List ℤ
popleft_before cutoff [] = []
popleft_before cutoff (t ∷ ts) =
    let rest = popleft_before cutoff ts in if ltb_ℤ t cutoff then rest else t ∷ ts

abbrev pub prune : ℤ → Enforcement → Enforcement
prune now e = record e { call_timestamps = popleft_before (now -ℤ e.window) e.call_timestamps }

-- `check_local` returns the hold, or raises RateLimitExceeded or BudgetExceeded.
pub data Check : Type 0 where
  admitted : ℤ → Check
  rate_limited over_budget : Check

-- `self._calls_per_minute is not None and len(...) >= self._calls_per_minute`.
unfoldable pub is_rate_limited : Enforcement → Bool
is_rate_limited e = elim e.calls_per_minute [
  | none ↦ false
  | some limit ↦ not (ltb_ℤ (pos (length e.call_timestamps)) limit)
]

-- The hold is taken where there is a cap and it is more than nothing.
unfoldable pub hold : ℤ → Enforcement → Enforcement
hold proj e =
    if ltb_ℤ (pos 0) proj then record e { pending_projected = e.pending_projected +ℤ proj } else e

unfoldable pub check_budget : ℤ → Enforcement → Enforcement × Check
unfolding hold
check_budget proj e = elim e.max_cost [
  | none ↦ (e, admitted proj)
  | some limit ↦
      if ltb_ℤ limit (e.cumulative_cost +ℤ e.pending_projected +ℤ proj)
      then (e, over_budget)
      else (hold proj e, admitted proj)
]

-- `check_local(projected_cost_usd=…)` at a moment of the monotonic clock.
pub check_local : ℤ → ℤ → Enforcement → Enforcement × Check
unfolding is_rate_limited check_budget
check_local now proj e =
    let pruned = prune now e in
    if is_rate_limited pruned then (pruned, rate_limited) else check_budget proj pruned

-- `remaining_budget_usd`.
pub remaining_budget : Enforcement → Option ℤ
remaining_budget e = elim e.max_cost [
  | none ↦ none
  | some limit ↦ some (floor_zero (limit -ℤ (e.cumulative_cost +ℤ e.pending_projected)))
]

-- `release_projection`.
unfoldable pub release_projection : ℤ → Enforcement → Enforcement
release_projection released e =
    if ltb_ℤ (pos 0) released
    then record e { pending_projected = floor_zero (e.pending_projected -ℤ released) }
    else e

abbrev pub add_cost : Option ℤ → ℤ → ℤ
add_cost none total = total
add_cost (some cost) total = total +ℤ cost

-- Whether a cumulative cost is over the cap.
abbrev pub is_over : Option ℤ → ℤ → Bool
is_over none total = false
is_over (some limit) total = ltb_ℤ limit total

-- `record_call`: the state after it, and whether it raises StreamCutoffError.
pub record_call : ℤ → Option ℤ → Bool → ℤ → Enforcement → Enforcement × Bool
unfolding release_projection
record_call now cost enforce released e =
    let pruned = prune now e in
    let counted = record pruned { call_timestamps = pruned.call_timestamps ++ (now ∷ []) } in
    let freed = release_projection released counted in
    let total = add_cost cost freed.cumulative_cost in
    (record freed { cumulative_cost = total }, enforce && is_over freed.max_cost total)

-- What the backend decides: a key that is absent changes nothing, and a null cap or rate lifts it.
pub record Decision : Type 0 where
  pub window_seconds : Option ℤ
  pub max_cost_usd : Option (Option ℤ)
  pub calls_per_minute : Option (Option ℤ)

abbrev pub override {ℓ} : {A : Type ℓ} → Option A → A → A
override none old = old
override (some new) old = new

-- `apply_server_decision`.
pub apply_server_decision : Decision → Enforcement → Enforcement
apply_server_decision d e = record e {
  window = override d.window_seconds e.window;
  max_cost = override d.max_cost_usd e.max_cost;
  calls_per_minute = override d.calls_per_minute e.calls_per_minute;
}

-- `snapshot`: the state after its pruning is what it reports.
abbrev pub snapshot : ℤ → Enforcement → Enforcement
snapshot now e = prune now e

-- `SharedBudget(max_usd)`: an error on a negative cap; `monitor` clients share its enforcement.
unfoldable pub shared_budget : ℤ → Option Enforcement
unfolding init
shared_budget max_usd =
    if ltb_ℤ max_usd (pos 0) then none else some (init (some max_usd) none (pos 60))
