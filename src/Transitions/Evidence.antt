-- ===== src/Transitions/Evidence.antt =====
-- What `settlement_evidence_matches` of kazenai/lifecycle_transitions.py asks of a reservation.
use kazenai_core.Base.{
  ◌≡◌, ◌↔◌, ◌⊎◌, refl, true, Option, none, some, String, str_eq, eq_iff, arith, subst,
}
use kazenai_core.Base.Amount.{ℤ, pos}
use kazenai_core.Transitions.{
  Number, absent, whole, not_whole, Reservation, int_eq, number_is, number_or, result_is_settled,
  actual_is, settlement_evidence_matches,
}

-- The number that stands in a value: 0 in an absent one.
abbrev pub Reads : Number → ℤ → Type 0
Reads absent n = pos 0 ≡ n
Reads (whole k) n = k ≡ n
Reads not_whole n = ⊥

-- A replay of one settlement: the same reservation, call and attempt, in the settled state, with
-- the same amount where one is asked for.
pub record IsReplay (r : Reservation) (call_id : String) (attempt : ℤ) (reservation_id : String)
    (actual : Option ℤ) : Type 0 where
  pub same_reservation : r.reservation_id ≡ reservation_id
  pub same_call : r.call_id ≡ call_id
  pub same_attempt : Reads r.attempt attempt
  pub is_settled : r.state ≡ "settled"
  pub is_applied : result_is_settled r.settle_result ≡ true
  pub same_amount :
      (n : ℤ)
      → actual ≡ some n
      → (r.last_settle_actual ≡ whole n)
        ⊎ ((r.last_settle_actual ≡ absent) × (r.actual_usd_micros ≡ whole n))

int_eq_iff : (a b : ℤ) → (int_eq a b ≡ true) ↔ (a ≡ b)
unfolding int_eq
int_eq_iff a b = ground arith

number_is-Reads : (x : Number) (n : ℤ) → (number_is x n ≡ true) ↔ Reads x n
unfolding number_is
number_is-Reads absent n = int_eq_iff (pos 0) n
number_is-Reads (whole k) n = int_eq_iff k n
number_is-Reads not_whole n = (λ e. absurd (ground arith), λ e. absurd e)

actual_iff :
    (last actual : Number) (n : ℤ)
    → (actual_is (number_or last actual) n ≡ true)
      ↔ ((last ≡ whole n) ⊎ ((last ≡ absent) × (actual ≡ whole n)))
unfolding actual_is number_or
actual_iff absent absent n = ground arith
actual_iff absent (whole k) n = let same = int_eq_iff k n in ground arith
actual_iff absent not_whole n = ground arith
actual_iff (whole k) actual n = let same = int_eq_iff k n in ground arith
actual_iff not_whole actual n = ground arith

amount_iff :
    (r : Reservation) (actual : Option ℤ)
    → (elim actual [
      | none ↦ true
      | some n ↦ actual_is (number_or r.last_settle_actual r.actual_usd_micros) n
    ]
        ≡ true)
      ↔ ((n : ℤ)
          → actual ≡ some n
          → (r.last_settle_actual ≡ whole n)
            ⊎ ((r.last_settle_actual ≡ absent) × (r.actual_usd_micros ≡ whole n)))
amount_iff r none = (λ e n none_is. absurd (ground arith), λ _. refl)
amount_iff r (some m) =
    let same = actual_iff r.last_settle_actual r.actual_usd_micros m in
    (
      λ e n m_is.
          subst
            (λ k.
              (r.last_settle_actual ≡ whole k)
              ⊎ ((r.last_settle_actual ≡ absent) × (r.actual_usd_micros ≡ whole k)))
            (let e' : m ≡ n = ground arith in e') (same.0 e),
      λ all. same.1 (all m refl),
    )

matches→replay :
    (r : Reservation) (call_id : String) (attempt : ℤ) (reservation_id : String) (actual : Option ℤ)
    → settlement_evidence_matches r call_id attempt reservation_id actual ≡ true
    → IsReplay r call_id attempt reservation_id actual
unfolding settlement_evidence_matches
matches→replay r call_id attempt reservation_id actual e =
    let parts : (str_eq r.reservation_id reservation_id ≡ true)
        × (str_eq r.call_id call_id ≡ true)
        × (number_is r.attempt attempt ≡ true)
        × (str_eq r.state "settled" ≡ true)
        × (result_is_settled r.settle_result ≡ true)
        × (elim actual [
          | none ↦ true
          | some n ↦ actual_is (number_or r.last_settle_actual r.actual_usd_micros) n
        ]
            ≡ true) =
      ground arith in
    record {
      same_reservation = (eq_iff r.reservation_id reservation_id).0 parts.0;
      same_call = (eq_iff r.call_id call_id).0 parts.1;
      same_attempt = (number_is-Reads r.attempt attempt).0 parts.2;
      is_settled = (eq_iff r.state "settled").0 parts.3;
      is_applied = parts.4;
      same_amount = (amount_iff r actual).0 parts.5;
    }

-- A reservation proves a settlement exactly when it is a replay of it: the identities, the state,
-- the result and the amount all agree.
pub settlement_evidence_matches-IsReplay :
    (r : Reservation) (call_id : String) (attempt : ℤ) (reservation_id : String) (actual : Option ℤ)
    → (settlement_evidence_matches r call_id attempt reservation_id actual ≡ true)
      ↔ IsReplay r call_id attempt reservation_id actual
unfolding settlement_evidence_matches
settlement_evidence_matches-IsReplay r call_id attempt reservation_id actual = (
  matches→replay r call_id attempt reservation_id actual,
  λ replay.
      let amount = amount_iff r actual in
      rw
        (
          (eq_iff r.reservation_id reservation_id).1 replay.same_reservation,
          (eq_iff r.call_id call_id).1 replay.same_call,
          (number_is-Reads r.attempt attempt).1 replay.same_attempt,
          (eq_iff r.state "settled").1 replay.is_settled,
          replay.is_applied,
        )
        (amount.1 replay.same_amount),
)
