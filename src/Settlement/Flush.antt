-- ===== src/Settlement/Flush.antt =====
-- One record of a flush: kazenai/spine/settle_queue.py, the loop of `_flush_locked`.
use kazenai_core.Base.{
  ℕ, ◌≤◌, ◌<◌, ◌≡◌, ◌≢◌, refl, ap, ◌∙◌, true, false, not, ◌&&◌, Option, none, some, ◌∷◌, String,
  arith, ltb, ltb→lt, if◌then◌else◌, str_eq, eq_iff, if_cases,
}
use kazenai_core.Base.Text.{is_empty, or_text, rstrip_slash}
use kazenai_core.Base.Dir.{read, delete, read-delete}
use kazenai_core.SettleQueue.Intent.{Body, intent_fingerprint}
use kazenai_core.SettleQueue.Claims.{journaled, Record, Queue, Setup}
use kazenai_core.SettleQueue.Journal.{release_claim_for-pending}
use kazenai_core.SettleQueue.Files.{
  ack_hit, retried, read-schedule_retry, read-quarantine, quarantine_hit,
}
use kazenai_core.SettleQueue.{schedule_retry, quarantine}
use kazenai_core.Settlement.Answers.{
  Answer, response, http_error, transport_error, result_ack, permanent_rejection, retryable,
  retry_after_ms,
}
use kazenai_core.Settlement.{
  Posted, returned, rejected, retry, not_sent, Clock, post_settle, flush_mode, Outside, Tally,
  bump_applied, bump_failed, bump_rejected, flush_posted, flush_clock, flush_item, rejection_text,
}

-- A permanent refusal is never one to retry, and every 4xx or 5xx is one or the other.
pub permanent_or_retryable :
    (status : ℕ) (code : String)
    → (retryable status ≡ true → permanent_rejection status code ≡ none)
      × (400 ≤ status → retryable status ≡ false → permanent_rejection status code ≢ none)
unfolding retryable permanent_rejection
permanent_or_retryable status code = ground arith

-- What an answer means for a record of the journal.
pub verdict : String → Answer → Posted
verdict event (response result status) = returned (result_ack event result status)
verdict event (http_error status code header) = elim (permanent_rejection status code) [
  | some rejection ↦ rejected rejection
  | none ↦ if retryable status then retry (retry_after_ms header) else returned false
]
verdict event transport_error = returned false

pub flush-verdict :
    (setup : Setup) (clock : Clock) (q : Queue) (base org_id : String) (body : Body)
    (answer : Answer)
    → post_settle setup clock flush_mode (λ k. k) (λ k. k) q base org_id body answer
      ≡ (q, verdict body.event answer)
unfolding post_settle verdict
flush-verdict setup clock q base org_id body (response result status) = ground arith
flush-verdict setup clock q base org_id body (http_error status code header) = ground arith
flush-verdict setup clock q base org_id body transport_error = refl

-- The four ends of a record in a flush: it is not due and nothing changes; the server acknowledged
-- it and it is gone; it is kept for another attempt; or it is set aside with a reason.
pub data Fate (out : Outside) (name : String) (r : Record) (q : Queue) (t : Tally)
    : Queue × Tally → Type 0 where
  waits : out.now < r.next_attempt_at → Fate out name r q t (q, t)
  delivered :
      {q' : Queue}
      → verdict r.body.event (out.answer r) ≡ returned true
      → read name q'.pending ≡ none
      → Fate out name r q t (q', bump_applied t)
  kept :
      {q' : Queue} (after : Option ℕ)
      → read name q'.pending ≡ some (journaled (retried out.now (out.draw r) after r))
      → Fate out name r q t (q', bump_failed t)
  set_aside :
      {q' : Queue} (reason : String)
      → read name q'.pending ≡ none
      → q'.quarantine ≡ record { name = name; reason = reason; file = journaled r } ∷ q.quarantine
      → Fate out name r q t (q', bump_rejected t)

module _ (setup : Setup) (out : Outside) (name : String) (r : Record) (q : Queue) (t : Tally)
    (there : read name q.pending ≡ some (journaled r)) (named : is_empty name ≡ false) where
  retry-Fate :
      (after : Option ℕ)
      → Fate out name r q t (schedule_retry q out.now (out.draw r) after name r, bump_failed t)
  retry-Fate after = kept after (
      read-schedule_retry q out.now (out.draw r) after name name r named
      ∙ rw ((eq_iff name name).1 refl))

  quarantine-Fate :
      (reason : String) → Fate out name r q t (quarantine q name reason, bump_rejected t)
  quarantine-Fate reason =
      set_aside reason (read-quarantine q name reason name ∙ rw ((eq_iff name name).1 refl))
        (quarantine_hit q name reason (journaled r) there)

  ack-Fate :
      (expected : String)
      → verdict r.body.event (out.answer r) ≡ returned true
      → r.fingerprint ≡ expected
      → Fate out name r q t (flush_posted setup out expected name r (q, returned true) t)
  unfolding flush_posted
  ack-Fate expected said print = rw (ack_hit setup q name expected r there print) (
      delivered said (
        ap (read name)
          (release_claim_for-pending setup (record q { pending = delete name q.pending }) r)
        ∙ (read-delete name name q.pending ∙ rw ((eq_iff name name).1 refl))))

  posted-Fate :
      (expected : String) (posted : Posted)
      → verdict r.body.event (out.answer r) ≡ posted
      → r.fingerprint ≡ expected
      → Fate out name r q t (flush_posted setup out expected name r (q, posted) t)
  unfolding flush_posted
  posted-Fate expected (returned true) e print = ack-Fate expected e print
  posted-Fate expected (returned false) e print = retry-Fate none
  posted-Fate expected (rejected rejection) e print = quarantine-Fate (rejection_text rejection)
  posted-Fate expected (retry after) e print = retry-Fate after
  posted-Fate expected not_sent e print = retry-Fate none

  -- A record of the journal that a flush looks at ends in one of four ways: it waits for its due
  -- time; it is delivered and gone, and only when the answer acknowledges it; it is kept with one
  -- more attempt; or it is set aside with a reason. The record is in the journal under a name that
  -- is not empty, and has a fingerprint that is not empty.
  pub flush_item-Fate :
      (base : String)
      → is_empty r.fingerprint ≡ false
      → Fate out name r q t (flush_item setup out base (name, r) (q, t))
  unfolding flush_item or_text
  flush_item-Fate base print =
      if_cases (λ k. Fate out name r q t k) (ltb out.now r.next_attempt_at)
        (λ h. waits (ltb→lt out.now r.next_attempt_at h))
        (λ _.
          if_cases (λ k. Fate out name r q t k) (is_empty (rstrip_slash base))
            (λ _. retry-Fate none)
            (λ _.
              if_cases (λ k. Fate out name r q t k)
                (not (is_empty r.base_url)
                  && not
                      (str_eq (out.destination r.base_url) (out.destination (rstrip_slash base))))
                (λ _. quarantine-Fate "destination_mismatch")
                (λ _.
                  rw
                    (flush-verdict setup (flush_clock out) q (rstrip_slash base)
                      (or_text r.org_id r.body.org_id) r.body (out.answer r))
                    (posted-Fate
                      (or_text r.fingerprint (
                        intent_fingerprint setup.digests r.body (or_text r.org_id r.body.org_id)
                          (rstrip_slash base)))
                      (verdict r.body.event (out.answer r)) refl (rw print refl)))))
