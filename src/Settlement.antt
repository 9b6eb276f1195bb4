-- ===== src/Settlement.antt =====
-- kazenai/spine/guard.py, the delivery of a settlement (`_post_settle_sync` and what it calls), and
-- kazenai/spine/settle_queue.py, the redelivery of the journal (`_flush_locked`). What the server
-- answers is an argument.
pub mod Answers
pub mod Live
pub mod Flush
pub mod Redelivery
pub mod Listing
mod Tests
use kazenai_core.Base.{
  ℕ, suc, ◌+◌, Bool, true, false, not, ◌&&◌, ◌||◌, Option, none, some, List, [], ◌∷◌, String, ltb,
  leb, if◌then◌else◌, str_eq,
}
use kazenai_core.Base.Text.{decimal, concat, is_empty, or_text, rstrip_slash}
use kazenai_core.SettleQueue.Intent.{Body, intent_fingerprint, record_name}
use kazenai_core.SettleQueue.Claims.{Record, Queue, Setup}
use kazenai_core.SettleQueue.{
  Request, fingerprint_of, Journaling, written, kept, conflict, enqueue, ack, release, quarantine,
  list_pending, schedule_retry, backoff_ceiling,
}
use Answers.{
  Answer, response, http_error, transport_error, result_ack, Rejection, coded, http_status,
  permanent_rejection, retryable, retry_after_ms,
}

-- The flags of `_post_settle_sync`.
pub record Mode : Type 0 where
  pub enqueue_on_failure : Bool
  pub journal_before_send : Bool
  pub raise_on_permanent : Bool

-- How `_post_settle_sync` ends: it returns, or raises SettleRejected, SettleRetry, or the conflict
-- of the journal, before anything is sent.
pub data Posted : Type 0 where
  returned : Bool → Posted
  rejected : Rejection → Posted
  retry : Option ℕ → Posted
  not_sent : Posted

-- The moments of one delivery, and the id of a record that it may write.
pub record Clock : Type 0 where
  pub started : ℕ
  pub recorded : ℕ
  pub answered : ℕ
  pub record_id : String

-- What `_journal_settle_intent` passes to the journal: no credential.
abbrev pub journal_request : String → String → Body → String → Request
journal_request base org_id body error = record {
  body = body;
  error = error;
  base_url = base;
  api_key = "";
  org_id = org_id;
  persist_api_key = false;
}

-- `_enqueue_settle_intent`: a failure to journal is passed over.
pub enqueue_late : Setup → Clock → Mode → Bool → Queue → Request → Queue
enqueue_late setup clock mode has_path q r =
    if mode.enqueue_on_failure && not has_path
    then (enqueue setup clock.answered clock.answered clock.record_id (λ k. k) q r).0
    else q

-- The answer, with what it does to the journal before `finally`.
pub answered : Setup → Clock → Mode → Bool → Queue → Request → Answer → Queue × Posted
unfolding enqueue_late
answered setup clock mode has_path q r (response result status) =
    if result_ack r.body.event result status
    then (
      if has_path
          then (ack setup q (record_name (fingerprint_of setup r)) (fingerprint_of setup r) true).0
          else q,
      returned true,
    )
    else (
      enqueue_late setup clock mode has_path q
          (record r { error = concat "result_" (or_text (or_text result status) "unacked") }),
      returned false,
    )
answered setup clock mode has_path q r (http_error status code header) =
    elim (permanent_rejection status code) [
      | some rejection ↦ if mode.raise_on_permanent then (q, rejected rejection) else (
        enqueue_late setup clock mode has_path q
            (record r { error = concat "http_" (decimal status) }),
        returned false,
      )
      | none ↦
          if mode.raise_on_permanent && retryable status
          then (q, retry (retry_after_ms header))
          else (
            enqueue_late setup clock mode has_path q
                (record r { error = concat "http_" (decimal status) }),
            returned false,
          )
    ]
answered setup clock mode has_path q r transport_error = (
  enqueue_late setup clock mode has_path q (record r { error = "transport_error" }),
  returned false,
)

abbrev pub is_acked : Posted → Bool
is_acked (returned acked) = acked
is_acked _ = false

-- `finally`: a record that was journaled and not acknowledged is due at once.
pub finish : Setup → Clock → Bool → Request → Queue × Posted → Queue × Posted
finish setup clock has_path r (q, posted) =
    if has_path && not (is_acked posted)
    then (
      (release q clock.answered (record_name (fingerprint_of setup r)) (fingerprint_of setup r)).0,
      posted,
    )
    else (q, posted)

pub is_conflict : Journaling → Bool
is_conflict written = false
is_conflict kept = false
is_conflict conflict = true

-- `_post_settle_sync(base, org_id, payload, …)`. `others` acts while the record is written, and
-- `meanwhile` while the request is under way.
pub post_settle :
    Setup
    → Clock
    → Mode
    → (others meanwhile : Queue → Queue) → Queue
    → String
    → String
    → Body
    → Answer
    → Queue × Posted
unfolding answered finish is_conflict
post_settle setup clock mode others meanwhile q base org_id body answer =
    let r = journal_request base org_id body "pre_send" in
    let journaled_q = enqueue setup clock.started clock.recorded clock.record_id others q r in
    if mode.journal_before_send && mode.enqueue_on_failure
    then if is_conflict journaled_q.1
      then (journaled_q.0, not_sent)
      else finish setup clock true r
          (answered setup clock mode true (meanwhile journaled_q.0) r answer)
    else answered setup clock mode false (meanwhile q) r answer

-- How many records a flush delivered, had to keep, and set aside.
pub record Tally : Type 0 where
  pub applied : ℕ
  pub failed : ℕ
  pub rejected : ℕ

abbrev pub flush_mode : Mode
flush_mode = record {
  enqueue_on_failure = false;
  journal_before_send = false;
  raise_on_permanent = true;
}

-- The reason of a quarantine: the code of the rejection.
pub rejection_text : Rejection → String
rejection_text (coded code) = concat "rejected_" code
rejection_text (http_status status) = concat "rejected_http_" (decimal status)

-- What a flush reads from outside for one record: the time of the look at its due time and of the
-- answer, the draw of the backoff, and the answer. `destination` is `_destination` of a URL.
pub record Outside : Type 0 where
  pub now : ℕ
  pub draw : Record → ℕ
  pub answer : Record → Answer
  pub destination : String → String

abbrev pub bump_applied : Tally → Tally
bump_applied t = record t { applied = t.applied + 1 }

abbrev pub bump_failed : Tally → Tally
bump_failed t = record t { failed = t.failed + 1 }

abbrev pub bump_rejected : Tally → Tally
bump_rejected t = record t { rejected = t.rejected + 1 }

-- What `_flush_locked` does with the end of a delivery.
pub flush_posted :
    Setup → Outside → String → String → Record → Queue × Posted → Tally → Queue × Tally
flush_posted setup out expected name r (q, returned true) t =
    let acked = ack setup q name expected true in
    if acked.1 then (acked.0, bump_applied t) else (acked.0, bump_failed t)
flush_posted setup out expected name r (q, returned false) t =
    (schedule_retry q out.now (out.draw r) none name r, bump_failed t)
flush_posted setup out expected name r (q, rejected reason) t =
    (quarantine q name (rejection_text reason), bump_rejected t)
flush_posted setup out expected name r (q, retry after) t =
    (schedule_retry q out.now (out.draw r) after name r, bump_failed t)
flush_posted setup out expected name r (q, not_sent) t =
    (schedule_retry q out.now (out.draw r) none name r, bump_failed t)

pub flush_clock : Outside → Clock
flush_clock out = record {
  started = out.now;
  recorded = out.now;
  answered = out.now;
  record_id = "";
}

-- One round of `_flush_locked` with the configured destination.
pub flush_item : Setup → Outside → String → String × Record → Queue × Tally → Queue × Tally
unfolding flush_posted flush_clock
flush_item setup out base (name, r) (q, t) =
    if ltb out.now r.next_attempt_at
    then (q, t)
    else if is_empty (rstrip_slash base)
    then (schedule_retry q out.now (out.draw r) none name r, bump_failed t)
    else if not (is_empty r.base_url)
        && not (str_eq (out.destination r.base_url) (out.destination (rstrip_slash base)))
    then (quarantine q name "destination_mismatch", bump_rejected t)
    else flush_posted setup out
        (or_text r.fingerprint (
          intent_fingerprint setup.digests r.body (or_text r.org_id r.body.org_id)
            (rstrip_slash base)))
        name r
        (post_settle setup (flush_clock out) flush_mode (λ k. k) (λ k. k) q (rstrip_slash base)
          (or_text r.org_id r.body.org_id) r.body (out.answer r))
        t

pub flush_items : Setup → Outside → String → List (String × Record) → Queue × Tally → Queue × Tally
flush_items setup out base [] s = s
flush_items setup out base (item ∷ items) s =
    flush_items setup out base items (flush_item setup out base item s)

-- `_flush_locked(q, …)` over a private directory.
pub flush_locked : Setup → Outside → String → Queue → Queue × Tally
flush_locked setup out base q =
    let listed = list_pending q in
    flush_items setup out base listed.1 (listed.0, record { applied = 0; failed = 0; rejected = 0 })
