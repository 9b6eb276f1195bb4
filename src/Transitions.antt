-- ===== src/Transitions.antt =====
-- kazenai/lifecycle_transitions.py: the identities of an attempt, the keys and bodies of its
-- settlement, and what an acknowledgement proves. `new_id` is an argument.
pub mod Keys
pub mod Evidence
mod Tests
use kazenai_core.Base.{
  ℕ, Bool, true, false, not, ◌&&◌, ◌||◌, Option, none, some, String, if◌then◌else◌, str_eq, max,
  ◌==◌,
}
use kazenai_core.Base.Text.{strip, concat, or_text, is_empty, decimal}
use kazenai_core.Base.Amount.{ℤ, pos, negsuc}

pub record AttemptIdentities : Type 0 where
  pub operation_id : String
  pub call_id : String
  pub attempt : ℕ
  pub attempt_id : String
  pub idempotency_key : String

-- `(text or "").strip()`.
abbrev pub given : Option String → String
given none = ""
given (some s) = strip s

-- `max(1, int(attempt or 1))`.
abbrev pub attempt_number : ℤ → ℕ
attempt_number (pos n) = max 1 n
attempt_number (negsuc n) = 1

-- What a caller of `create_attempt_identities` may leave out.
pub record Wanted : Type 0 where
  pub operation_id : Option String
  pub call_id : Option String
  pub attempt : ℤ
  pub attempt_id : Option String
  pub idempotency_key : Option String

pub create_attempt_identities : (new_op new_call new_key : String) → Wanted → AttemptIdentities
create_attempt_identities new_op new_call new_key w =
    let cid = or_text (given w.call_id) (concat "call_" new_call) in
    let att = attempt_number w.attempt in
    record {
      operation_id = or_text (given w.operation_id) (concat "op_" new_op);
      call_id = cid;
      attempt = att;
      attempt_id = or_text (given w.attempt_id) (concat cid (concat ":attempt:" (decimal att)));
      idempotency_key =
          or_text (given w.idempotency_key) (
            concat "reserve:"
              (concat cid (concat ":" (concat (decimal att) (concat ":" new_key)))));
    }

-- `SETTLE_EVENT_SUFFIX`.
unfoldable pub settle_event_suffix : String → Option String
settle_event_suffix event =
    if str_eq event "provider_started"
    then some "started"
    else if str_eq event "usage_known"
    then some "usage"
    else if str_eq event "outcome_unknown"
    then some "unknown"
    else if str_eq event "cancel_before_call"
    then some "cancelled"
    else if str_eq event "replay_pending"
    then some "replay"
    else none

-- `settle_idempotency_key`: an event that is not known is an error.
pub settle_idempotency_key : String → String → Option String
unfolding settle_event_suffix
settle_idempotency_key reservation_id event = elim (settle_event_suffix event) [
  | none ↦ none
  | some suffix ↦ some (concat "settle:" (concat reservation_id (concat ":" suffix)))
]

-- The body of a settlement; `usage_evidence` is the text of the evidence, "" where there is none.
pub record Payload : Type 0 where
  pub lifecycle_version : String
  pub reservation_id : String
  pub call_id : String
  pub attempt : ℕ
  pub idempotency_key : String
  pub event : String
  pub org_id : String
  pub settlement_capability : String
  pub actual_usd_micros : Option ℤ
  pub usage_evidence : String

-- The arguments of `build_settle_payload`; "" stands for None in the optional texts.
pub record SettleCall : Type 0 where
  pub reservation_id : String
  pub call_id : String
  pub attempt : ℤ
  pub org_id : String
  pub event : String
  pub actual_usd_micros : Option ℤ
  pub lifecycle_version : String
  pub idempotency_key : String
  pub settlement_capability : String
  pub usage_evidence : String

-- `idempotency_key or settle_idempotency_key(reservation_id, event)`.
unfoldable pub key_of : SettleCall → Option String
key_of c =
    if is_empty c.idempotency_key
    then settle_idempotency_key c.reservation_id c.event
    else some c.idempotency_key

unfoldable pub payload_of : SettleCall → String → Option ℤ → String → Payload
payload_of c key actual evidence = record {
  lifecycle_version = c.lifecycle_version;
  reservation_id = c.reservation_id;
  call_id = c.call_id;
  attempt = attempt_number c.attempt;
  idempotency_key = key;
  event = c.event;
  org_id = c.org_id;
  settlement_capability = c.settlement_capability;
  actual_usd_micros = actual;
  usage_evidence = evidence;
}

-- `build_settle_payload`: none where it raises ValueError.
unfoldable pub build_settle_payload : SettleCall → Option Payload
unfolding key_of payload_of
build_settle_payload c = elim (key_of c) [
  | none ↦ none
  | some key ↦
      if not (str_eq c.event "usage_known")
      then some (payload_of c key none "")
      else elim c.actual_usd_micros [
        | none ↦ none
        | some actual ↦ some (payload_of c key (some actual) c.usage_evidence)
      ]
]

pub data Delivery : Type 0 where
  open_delivery settled pending_usage exact_usage_pending_settlement pending_reconciliation :
      Delivery

-- `classify_settlement_delivery`.
unfoldable pub classify_settlement_delivery : Bool → Bool → Bool → Delivery
classify_settlement_delivery local_finalized financial_ack authoritative_usage =
    if not local_finalized
    then open_delivery
    else if financial_ack && authoritative_usage
    then settled
    else if financial_ack && not authoritative_usage
    then pending_usage
    else if authoritative_usage && not financial_ack
    then exact_usage_pending_settlement
    else pending_reconciliation

-- A JSON value that is read as a number: absent or null, a number, or what `int` refuses.
pub data Number : Type 0 where
  absent : Number
  whole : ℤ → Number
  not_whole : Number

-- What the server returns of a reservation; "" stands for an absent text. `settle_result` is none
-- for null.
pub record Reservation : Type 0 where
  pub reservation_id : String
  pub call_id : String
  pub attempt : Number
  pub state : String
  pub settle_result : Option String
  pub last_settle_actual : Number
  pub actual_usd_micros : Number

unfoldable pub int_eq : ℤ → ℤ → Bool
int_eq (pos a) (pos b) = a == b
int_eq (pos a) (negsuc b) = false
int_eq (negsuc a) (pos b) = false
int_eq (negsuc a) (negsuc b) = a == b

-- `int(value or 0) == n`, false where `int` refuses.
unfoldable pub number_is : Number → ℤ → Bool
unfolding int_eq
number_is absent n = int_eq (pos 0) n
number_is (whole k) n = int_eq k n
number_is not_whole n = false

unfoldable pub result_is_settled : Option String → Bool
result_is_settled none = true
result_is_settled (some r) = str_eq r "applied" || str_eq r "duplicate"

unfoldable pub number_or : Number → Number → Number
number_or absent other = other
number_or (whole k) other = whole k
number_or not_whole other = not_whole

unfoldable pub actual_is : Number → ℤ → Bool
unfolding int_eq
actual_is absent n = false
actual_is (whole k) n = int_eq k n
actual_is not_whole n = false

-- `settlement_evidence_matches`.
pub settlement_evidence_matches : Reservation → String → ℤ → String → Option ℤ → Bool
unfolding number_is result_is_settled number_or actual_is
settlement_evidence_matches r call_id attempt reservation_id actual =
    if not (str_eq r.reservation_id reservation_id)
    then false
    else if not (str_eq r.call_id call_id)
    then false
    else if not (number_is r.attempt attempt)
    then false
    else if not (str_eq r.state "settled")
    then false
    else if not (result_is_settled r.settle_result)
    then false
    else elim actual [
      | none ↦ true
      | some n ↦ actual_is (number_or r.last_settle_actual r.actual_usd_micros) n
    ]
