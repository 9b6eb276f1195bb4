-- ===== src/SettleQueue.antt =====
-- kazenai/spine/settle_queue.py: the journal of settlements on disk. The clock, the random draws,
-- the answers of the server and what other processes do while a record is written are arguments.
-- Times are milliseconds.
pub mod Intent
pub mod Claims
pub mod Bindings
pub mod Acquire
pub mod Journal
pub mod Enqueue
pub mod Outcomes
pub mod Files
pub mod Samples
mod Tests
use kazenai_core.Base.{
  ℕ, zero, suc, ◌+◌, ◌-◌, ◌*◌, ◌^◌, min, max, ◌||◌, Bool, true, false, not, ◌&&◌, Option, none,
  some, List, [], ◌∷◌, map, String, leb, if◌then◌else◌, length, str_eq,
}
use kazenai_core.Base.Text.{is_empty, or_text, rstrip_slash}
use kazenai_core.Base.Dir.{Dir, read, write, delete, exists}
use Intent.{Body, body_eq, Digests, intent_fingerprint, claim_identity, record_name, claim_name}
use Claims.{
  Record, File, journaled, unreadable, malformed, Quarantined, Queue, Setup, pre_send_grace_ms,
  acquire_claim, claim_binds, release_claim_for,
}

-- The arguments of `enqueue`.
pub record Request : Type 0 where
  pub body : Body
  pub error : String
  pub base_url : String
  pub api_key : String
  pub org_id : String
  pub persist_api_key : Bool

abbrev pub org_of : Request → String
org_of r = or_text r.org_id r.body.org_id

abbrev pub base_of : Request → String
base_of r = rstrip_slash r.base_url

abbrev pub fingerprint_of : Setup → Request → String
fingerprint_of setup r = intent_fingerprint setup.digests r.body (org_of r) (base_of r)

abbrev pub claim_of : Setup → Request → String
claim_of setup r = claim_identity setup.digests (org_of r) (base_of r) r.body.idempotency_key

-- The record under the request's name is the same intent.
unfoldable pub is_refresh : Setup → Request → Option File → Bool
is_refresh setup r none = false
is_refresh setup r (some unreadable) = false
is_refresh setup r (some malformed) = false
is_refresh setup r (some (journaled old)) =
    str_eq old.fingerprint (fingerprint_of setup r)
    && body_eq old.body r.body
    && str_eq old.org_id (org_of r)
    && str_eq old.base_url (base_of r)

-- The record that is written, with a fresh id.
unfoldable pub record_of : Setup → Request → String → ℕ → Record
record_of setup r record_id now = record {
  fingerprint = fingerprint_of setup r;
  record_id = record_id;
  body = r.body;
  error = r.error;
  base_url = base_of r;
  api_key = if r.persist_api_key then r.api_key else "";
  org_id = org_of r;
  enqueued_at = now;
  attempts = 0;
  next_attempt_at = now + (if str_eq r.error "pre_send" then pre_send_grace_ms setup else 0);
}

-- The fingerprint in a file that holds a record; that of a file that holds another object is left out, and
-- counts as none.
abbrev pub has_fingerprint : String → File → Bool
has_fingerprint fingerprint (journaled r) = str_eq r.fingerprint fingerprint
has_fingerprint fingerprint unreadable = false
has_fingerprint fingerprint malformed = false

pub release_file : Setup → Bool → Queue → File → Queue
release_file setup release_claim q (journaled r) =
    if release_claim then release_claim_for setup q r else q
release_file setup release_claim q unreadable = q
release_file setup release_claim q malformed = q

-- `ack(path, fingerprint=…, release_claim=…)`; an empty fingerprint is none.
pub ack : Setup → Queue → String → String → Bool → Queue × Bool
unfolding release_file
ack setup q name fingerprint release_claim = elim (read name q.pending) [
  | none ↦ (q, false)
  | some file ↦
      if not (is_empty fingerprint) && not (has_fingerprint fingerprint file) then (q, false) else (
        release_file setup release_claim (record q { pending = delete name q.pending }) file,
        true,
      )
]

pub data Journaling : Type 0 where
  written kept conflict : Journaling

-- The last part of `enqueue`: the record is written, and its claim looked at again.
pub publish : Setup → ℕ → Queue → Request → Record → Queue × Journaling
unfolding ack
publish setup now q r new =
    let name = record_name new.fingerprint in
    let written_q = record q { pending = write name (journaled new) q.pending } in
    let again = acquire_claim setup now written_q (claim_of setup r) new.fingerprint in
    if is_empty r.body.idempotency_key || claim_binds written_q (claim_of setup r) new.fingerprint
    then (written_q, written)
    else if again.1
    then (again.0, written)
    else ((ack setup again.0 name new.fingerprint false).0, conflict)

-- `enqueue(body, …)`. `others` is what other processes do to the directories between the claim and
-- the appearance of the record.
pub enqueue : Setup → ℕ → ℕ → String → (Queue → Queue) → Queue → Request → Queue × Journaling
unfolding publish
enqueue setup now later record_id others q r =
    let fingerprint = fingerprint_of setup r in
    let claimed = acquire_claim setup now q (claim_of setup r) fingerprint in
    let q' = if is_empty r.body.idempotency_key then q else claimed.0 in
    if not (is_empty r.body.idempotency_key) && not claimed.1
    then (q', conflict)
    else if is_refresh setup r (read (record_name fingerprint) q'.pending)
    then (q', kept)
    else publish setup later (others q') r (record_of setup r record_id later)

-- `_quarantine(path, reason)`: a file that is gone is passed over.
pub quarantine : Queue → String → String → Queue
quarantine q name reason = elim (read name q.pending) [
  | none ↦ q
  | some file ↦ record q {
    pending = delete name q.pending;
    quarantine = record { name = name; reason = reason; file = file } ∷ q.quarantine;
  }
]

-- `list_pending`: the records of a listing, with their names; what is no record is set aside.
unfoldable pub list_files : Dir File → Queue → Queue × List (String × Record)
unfolding quarantine
list_files [] q = (q, [])
list_files ((name, journaled r) ∷ files) q =
    let (q', items) = list_files files q in (q', (name, r) ∷ items)
list_files ((name, unreadable) ∷ files) q = list_files files (quarantine q name "unreadable")
list_files ((name, malformed) ∷ files) q = list_files files (quarantine q name "malformed record")

unfoldable pub list_pending : Queue → Queue × List (String × Record)
unfolding list_files
list_pending q = list_files q.pending q

-- The ceiling of the random wait before attempt number `attempts`.
unfoldable pub backoff_ceiling : ℕ → ℕ
backoff_ceiling attempts = min 300000 (1000 * 2 ^ min attempts 16)

-- The wait that `schedule_retry` chooses from a draw and the server's hint.
unfoldable pub retry_wait : ℕ → Option ℕ → ℕ
retry_wait draw none = draw
retry_wait draw (some retry_after) = min 300000 (max draw retry_after)

-- `schedule_retry(item, retry_after_s=…)`.
pub schedule_retry : Queue → ℕ → ℕ → Option ℕ → String → Record → Queue
unfolding retry_wait
schedule_retry q now draw retry_after name r = if is_empty name then q else record q {
  pending =
      write name
        (journaled (record r {
          attempts = r.attempts + 1;
          next_attempt_at = now + retry_wait draw retry_after;
        }))
        q.pending;
}

unfoldable pub due_now : ℕ → Record → Record
due_now now r = record r { error = "sender_unacked"; next_attempt_at = now }

-- `release` on a file that was read.
release_found : Queue → ℕ → String → String → File → Queue × Bool
unfolding due_now
release_found q now name fingerprint unreadable = (q, false)
release_found q now name fingerprint malformed = (q, false)
release_found q now name fingerprint (journaled r) =
    if not (str_eq r.error "pre_send")
    then (q, false)
    else if not (is_empty fingerprint) && not (str_eq r.fingerprint fingerprint)
    then (q, false)
    else (record q { pending = write name (journaled (due_now now r)) q.pending }, true)

-- `release(path, fingerprint=…)`: an empty fingerprint is none.
pub release : Queue → ℕ → String → String → Queue × Bool
unfolding release_found
release q now name fingerprint = elim (read name q.pending) [
  | none ↦ (q, false)
  | some file ↦ release_found q now name fingerprint file
]
