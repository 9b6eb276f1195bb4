-- ===== src/Settlement/Live.antt =====
-- A settlement that is sent is never lost: kazenai/spine/guard.py, `_post_settle_sync` as
-- `reconcile_budget` and `signal_reservation_event` call it.
use kazenai_core.Base.{
  ℕ, ◌≡◌, ◌≢◌, refl, ap, ◌∙◌, ◌⊎◌, inl, inr, Bool, true, false, Option, none, some, String, arith,
  if◌then◌else◌, str_eq, eq_iff, if_cases,
}
use kazenai_core.Base.Dir.{read, delete, read-delete}
use kazenai_core.SettleQueue.Intent.{Body, record_name}
use kazenai_core.SettleQueue.Claims.{File, journaled, unreadable, malformed, Record, Queue, Setup}
use kazenai_core.SettleQueue.Bindings.{IsBound}
use kazenai_core.SettleQueue.Journal.{release_claim_for-pending}
use kazenai_core.SettleQueue.Enqueue.{HasText}
use kazenai_core.SettleQueue.Outcomes.{Enqueued, enqueue-Enqueued}
use kazenai_core.SettleQueue.Files.{ack_hit, release_hit}
use kazenai_core.SettleQueue.{
  Request, fingerprint_of, is_refresh, record_of, Journaling, written, kept, conflict, enqueue, ack,
  due_now,
}
use kazenai_core.Settlement.Answers.{Answer, response, http_error, transport_error, result_ack}
use kazenai_core.Settlement.{
  Mode, Posted, returned, not_sent, Clock, journal_request, answered, finish, is_conflict,
  post_settle,
}

-- Journal first, keep on failure, and raise nothing: what both callers pass.
abbrev pub live_mode : Mode
live_mode = record {
  enqueue_on_failure = true;
  journal_before_send = true;
  raise_on_permanent = false;
}

-- A record of a request's intent stands under the request's name.
abbrev pub IsJournaled : Setup → Request → Queue → Type 0
IsJournaled setup r q =
    (old : Record) × (read (record_name (fingerprint_of setup r)) q.pending ≡ some (journaled old))
    × (old.fingerprint ≡ fingerprint_of setup r)

-- The server acknowledged the transition.
abbrev pub is_acknowledged : String → Answer → Bool
is_acknowledged event (response result status) = result_ack event result status
is_acknowledged event (http_error status code header) = false
is_acknowledged event transport_error = false

answered-live :
    (setup : Setup) (clock : Clock) (q : Queue) (r : Request) (answer : Answer)
    → answered setup clock live_mode true q r answer ≡ (
        if is_acknowledged r.body.event answer
        then (
          (ack setup q (record_name (fingerprint_of setup r)) (fingerprint_of setup r) true).0,
          returned true,
        )
        else (q, returned false))
unfolding answered
answered-live setup clock q r (response result status) = ground arith
answered-live setup clock q r (http_error status code header) = ground arith
answered-live setup clock q r transport_error = refl

-- After a send: acknowledged, the intent is off the journal; otherwise a record of it is still
-- there, and is due at once if it was written for this send.
abbrev pub Settled : Setup → Clock → Request → Bool → Queue → Posted → Type 0
Settled setup clock r true q posted =
    (posted ≡ returned true) × (read (record_name (fingerprint_of setup r)) q.pending ≡ none)
Settled setup clock r false q posted =
    (posted ≡ returned false)
    × (old : Record) × (read (record_name (fingerprint_of setup r)) q.pending
        ≡ some (journaled old))
    × (old.fingerprint ≡ fingerprint_of setup r)
    × (old.error ≢ "pre_send")

-- The record as `release` leaves it.
abbrev pub due : ℕ → Record → Record
due now r = if str_eq r.error "pre_send" then due_now now r else r

due-fingerprint : (now : ℕ) (r : Record) → (due now r).fingerprint ≡ r.fingerprint
unfolding due_now
due-fingerprint now r = ground arith

due-error : (now : ℕ) (r : Record) → (due now r).error ≢ "pre_send"
unfolding due_now
due-error now r =
    if_cases (λ (k : Record). k.error ≢ "pre_send") (str_eq r.error "pre_send")
      (λ _ e. cc ((eq_iff "sender_unacked" "pre_send").1 e))
      (λ h e. cc (h, (eq_iff r.error "pre_send").1 e))

finish-Settled :
    (setup : Setup) (clock : Clock) (q : Queue) (r : Request) (answer : Answer)
    → IsJournaled setup r q
    → let t = finish setup clock true r (answered setup clock live_mode true q r answer) in
      Settled setup clock r (is_acknowledged r.body.event answer) t.0 t.1
unfolding finish
finish-Settled setup clock q r answer (old, e, print) =
    rw (answered-live setup clock q r answer) (go (is_acknowledged r.body.event answer))
  where
    fp : String
    fp = fingerprint_of setup r

    name : String
    name = record_name fp

    go :
        (acked : Bool)
        → let t = finish setup clock true r (
            if acked then ((ack setup q name fp true).0, returned true) else (q, returned false)) in
          Settled setup clock r acked t.0 t.1
    go true = (
      refl,
      ap (λ (t : Queue × Bool). read name t.0.pending) (ack_hit setup q name fp old e print)
          ∙ ap (read name)
              (release_claim_for-pending setup (record q { pending = delete name q.pending }) old)
          ∙ ground (arith, read-delete name name q.pending, (eq_iff name name).1 refl),
    )
    go false = (
      refl,
      due clock.answered old,
      release_hit q clock.answered name fp old e print,
      due-fingerprint clock.answered old ∙ print,
      due-error clock.answered old,
    )

refresh-journaled :
    (setup : Setup) (r : Request) (file : Option File)
    → is_refresh setup r file ≡ true
    → (old : Record) × (file ≡ some (journaled old)) × (old.fingerprint ≡ fingerprint_of setup r)
unfolding is_refresh
refresh-journaled setup r none h = absurd (ground arith)
refresh-journaled setup r (some unreadable) h = absurd (ground arith)
refresh-journaled setup r (some malformed) h = absurd (ground arith)
refresh-journaled setup r (some (journaled old)) h =
    (old, refl, ground (arith, eq_iff old.fingerprint (fingerprint_of setup r)))

Enqueued-IsJournaled :
    (setup : Setup) (clock : Clock) (q k : Queue) (r : Request) (j : Journaling)
    → Enqueued setup q r (record_of setup r clock.record_id clock.recorded) k j
    → j ≢ conflict
    → IsJournaled setup r k
unfolding record_of
Enqueued-IsJournaled setup clock q k r written h n =
    (record_of setup r clock.record_id clock.recorded, h.1, refl)
Enqueued-IsJournaled setup clock q k r kept h n = refresh-journaled setup r _ h.1
Enqueued-IsJournaled setup clock q k r conflict h n = absurd (n refl)

-- The part of a delivery behind the journal, whatever the journal answered.
after_journal :
    (setup : Setup) (clock : Clock) (meanwhile : Queue → Queue) (q : Queue) (r : Request)
    (answer : Answer)
    → ((k : Queue)
        → read (record_name (fingerprint_of setup r)) (meanwhile k).pending
          ≡ read (record_name (fingerprint_of setup r)) k.pending)
    → (k : Queue) (j : Journaling)
    → Enqueued setup q r (record_of setup r clock.record_id clock.recorded) k j
    → let t =
        if is_conflict j
        then (k, not_sent)
        else finish setup clock true r
            (answered setup clock live_mode true (meanwhile k) r answer) in
      ((t.1 ≡ not_sent) × (j ≡ conflict))
      ⊎ Settled setup clock r (is_acknowledged r.body.event answer) t.0 t.1
unfolding is_conflict
after_journal setup clock meanwhile q r answer still k conflict h = inl (refl, refl)
after_journal setup clock meanwhile q r answer still k written h =
    let (old, e, print) = Enqueued-IsJournaled setup clock q k r written h (λ n. cc) in
    inr (finish-Settled setup clock (meanwhile k) r answer (old, still k ∙ e, print))
after_journal setup clock meanwhile q r answer still k kept h =
    let (old, e, print) = Enqueued-IsJournaled setup clock q k r kept h (λ n. cc) in
    inr (finish-Settled setup clock (meanwhile k) r answer (old, still k ∙ e, print))

-- `_post_settle_sync` as its callers use it, over a journal whose records hold their claims, with
-- other processes that keep it so while the record is written and leave this record alone while the
-- request is under way. Either the journal refuses the intent as a conflict, and nothing is sent;
-- or, when the server acknowledged the transition, the call returns true and the intent is off the
-- journal, and otherwise it returns false and a record of the intent is there that does not wait
-- for its sender. A hash is assumed not to be empty.
pub post_settle-Settled :
    (setup : Setup) (clock : Clock) (others meanwhile : Queue → Queue) (q : Queue)
    (base org_id : String) (body : Body) (answer : Answer)
    → HasText setup.digests
    → ((k : Queue) → IsBound setup k → IsBound setup (others k))
    → ((k : Queue)
        → let name =
            record_name (fingerprint_of setup (journal_request base org_id body "pre_send")) in
          read name (meanwhile k).pending ≡ read name k.pending)
    → IsBound setup q
    → let t = post_settle setup clock live_mode others meanwhile q base org_id body answer in
      let r = journal_request base org_id body "pre_send" in
      ((t.1 ≡ not_sent)
        × ((enqueue setup clock.started clock.recorded clock.record_id others q r).1 ≡ conflict))
      ⊎ Settled setup clock r (is_acknowledged body.event answer) t.0 t.1
unfolding post_settle
post_settle-Settled setup clock others meanwhile q base org_id body answer text keep still b =
    after_journal setup clock meanwhile q (journal_request base org_id body "pre_send") answer still
      _ _
      (enqueue-Enqueued setup clock.started clock.recorded clock.record_id others q
        (journal_request base org_id body "pre_send") text keep b)
