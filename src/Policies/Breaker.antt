-- ===== src/Policies/Breaker.antt =====
-- kazenai/circuit_breaker.py. Amounts are numbers of one unit, and the share of the budget is in
-- thousandths; the token of the serializer is an argument.
use kazenai_core.Base.{
  ℕ, ◌*◌, ◌≡◌, Bool, true, false, Option, none, some, List, [], ◌∷◌, String, if◌then◌else◌, leb,
  arith, All,
}

pub record CircuitBreaker : Type 0 where
  pub budget : Option ℕ
  pub soft_pct : ℕ
  pub opened : Bool

pub data Reason : Type 0 where
  not_over already_open projected_cost_exceeds_soft_threshold : Reason

pub record CircuitBreakerDecision : Type 0 where
  pub opened : Bool
  pub reason : Reason
  pub resume_token : String

abbrev pub closed_decision : CircuitBreakerDecision
closed_decision = record { opened = false; reason = not_over; resume_token = "" }

-- `evaluate`, with the token that a snapshot would give.
pub evaluate : ℕ → String → CircuitBreaker → CircuitBreaker × CircuitBreakerDecision
evaluate projected token b = elim b.budget [
  | none ↦ (b, closed_decision)
  | some budget ↦
      if b.opened
      then (b, record { opened = true; reason = already_open; resume_token = "" })
      else if leb (projected * 1000) (budget * b.soft_pct)
      then (b, closed_decision)
      else (
        record b { opened = true },
        record {
          opened = true;
          reason = projected_cost_exceeds_soft_threshold;
          resume_token = token;
        },
      )
]

pub reset : CircuitBreaker → CircuitBreaker
reset b = record b { opened = false }

-- The decisions of a list of calls.
pub decisions : List (ℕ × String) → CircuitBreaker → List CircuitBreakerDecision
decisions [] b = []
decisions ((projected, token) ∷ calls) b =
    let (after, decision) = evaluate projected token b in decision ∷ decisions calls after

evaluate-open :
    (b : CircuitBreaker) (budget projected : ℕ) (token : String)
    → b.budget ≡ some budget
    → b.opened ≡ true
    → ((evaluate projected token b).0 ≡ b) × ((evaluate projected token b).1.opened ≡ true)
unfolding evaluate
evaluate-open b budget projected token e paused = ground arith

-- A breaker that has opened pauses every later call, until a reset, whatever their projections.
pub decisions-latched :
    (b : CircuitBreaker) (budget : ℕ) (calls : List (ℕ × String))
    → b.budget ≡ some budget
    → b.opened ≡ true
    → All (λ d. d.opened ≡ true) (decisions calls b)
unfolding decisions
decisions-latched b budget [] e paused = tt
decisions-latched b budget ((projected, token) ∷ calls) e paused =
    let (same, held) = evaluate-open b budget projected token e paused in
    (held, rw same (decisions-latched b budget calls e paused))
