-- ===== src/RetryQueue/Steps.antt =====
-- The operations of kazenai/retry_queue.py as steps on one state, and what every history keeps.
use kazenai_core.Base.{
  subst, ℕ, ◌+◌, ◌≤◌, ◌<◌, ◌≡◌, refl, ◌≢◌, inl, inr, true, false, some, List, [], ◌∷◌, ◌++◌, arith,
  String, str_eq, eq_iff, count, count-append, Bool-cases, Option-cases,
}
use kazenai_core.RetryQueue.Table.{row_has, dead_has}
use kazenai_core.RetryQueue.Rows.{Within, Within-append}
use kazenai_core.RetryQueue.Identity.{tally, lease-tally, nack-tally, ack-tally-le, drain-tally-le}
use kazenai_core.RetryQueue.Admission.{
  Admitted, added, refused, enqueue-Admitted, tally-zero, known_of_tally,
}
use kazenai_core.RetryQueue.{
  Event, Codec, Config, Spool, Outcome, applied, clean, is_known, new_row, init, enqueue, lease,
  ack, nack, drain,
}

-- A call with what it reads from outside: the clock, and for `enqueue` the size of the file.
pub data Call : Type 0 where
  enqueues : (now disk : ℕ) → Event → Call
  leases drains : (now limit : ℕ) → Call
  nacks : (now : ℕ) (reason : String) → List ℕ → Call
  acks : List ℕ → Call

unfoldable pub step : Codec → Spool → Call → Spool
step codec s (enqueues now disk event) = (enqueue codec s now disk event).0
step codec s (leases now limit) = (lease codec s now limit).0
step codec s (drains now limit) = (drain codec s now limit).0
step codec s (nacks now reason ids) = nack s now reason ids
step codec s (acks ids) = ack s ids

unfoldable pub run : Codec → Spool → List Call → Spool
run codec s [] = s
run codec s (c ∷ cs) = run codec (step codec s c) cs

-- Keys ascend below the next one, and no event id stands in two rows of the two tables.
pub record IsSound (s : Spool) : Type 0 where
  pub ordered : Within 0 s.next_id s.pending
  pub once : (e : String) → tally e s ≤ 1

pub init-IsSound : (config : Config) → IsSound (init config)
unfolding init
init-IsSound config = record { ordered = omega arith; once = λ e. omega arith }

-- An id that is not the new row's is found as often as before; the new row's was not there.
added-once :
    (codec : Codec) (s : Spool) (now : ℕ) (event : Event) (e : String)
    → is_known (clean event.event_id) s ≡ false
    → tally e s ≤ 1
    → count (row_has e) (s.pending ++ new_row codec s now event ∷ []) + count (dead_has e) s.dead
      ≤ 1
unfolding new_row
added-once codec s now event e new once =
    let split = count-append (row_has e) s.pending (new_row codec s now event ∷ []) in
    elim (Option-cases (clean event.event_id)) [
      | inl h ↦ ground (arith, split)
      | inr (x, h) ↦
          let fresh = tally-zero x s (subst (λ k. is_known k s ≡ false) h new) in
          elim (Bool-cases (str_eq x e)) [
            | inl same ↦
                let zero_e = subst (λ k. tally k s ≡ 0) ((eq_iff x e).0 same) fresh in
                ground (arith, split)
            | inr other ↦ ground (arith, split)
          ]
    ]

Admitted-IsSound :
    (codec : Codec) (s : Spool) (now : ℕ) (event : Event) {r : Spool × Outcome}
    → Admitted codec s now event r
    → IsSound s
    → IsSound r.0
unfolding new_row
Admitted-IsSound codec s now event (added {t} room new p i d c) v = record {
  ordered = rw (p, i) (Within-append 0 s.next_id s.pending _ v.ordered refl);
  once = λ e. rw (p, d) (added-once codec s now event e new (v.once e));
}
Admitted-IsSound codec s now event (refused {t} o p i d c) v = record {
  ordered = rw (p, i) (v.ordered);
  once = λ e. rw (p, d) (v.once e);
}

-- Every call keeps the spool sound.
pub step-IsSound : (codec : Codec) (s : Spool) (c : Call) → IsSound s → IsSound (step codec s c)
unfolding step
step-IsSound codec s (enqueues now disk event) v =
    Admitted-IsSound codec s now event (enqueue-Admitted codec s now disk event) v
step-IsSound codec s (leases now limit) v = record {
  ordered = (lease-tally codec "" s now limit v.ordered).1;
  once = λ e. omega (arith, (lease-tally codec e s now limit v.ordered).0, v.once e);
}
step-IsSound codec s (drains now limit) v = record {
  ordered = (drain-tally-le codec "" s now limit v.ordered).1;
  once = λ e. omega (arith, (drain-tally-le codec e s now limit v.ordered).0, v.once e);
}
step-IsSound codec s (nacks now reason ids) v = record {
  ordered = (nack-tally "" s now reason ids v.ordered).1;
  once = λ e. omega (arith, (nack-tally e s now reason ids v.ordered).0, v.once e);
}
step-IsSound codec s (acks ids) v = record {
  ordered = (ack-tally-le "" s ids v.ordered).1;
  once = λ e. omega (arith, (ack-tally-le e s ids v.ordered).0, v.once e);
}

-- Every sequence of calls keeps the spool sound: its keys ascend below the next one, and no event
-- id stands in two rows of the two tables.
pub run-IsSound :
    (codec : Codec) (s : Spool) (cs : List Call) → IsSound s → IsSound (run codec s cs)
unfolding run
run-IsSound codec s [] v = v
run-IsSound codec s (c ∷ cs) v = run-IsSound codec (step codec s c) cs (step-IsSound codec s c v)

-- Neither `ack` nor `drain`.
abbrev pub Retains : Call → Type 0
Retains (enqueues now disk event) = Unit
Retains (leases now limit) = Unit
Retains (drains now limit) = ⊥
Retains (nacks now reason ids) = Unit
Retains (acks ids) = ⊥

abbrev pub AllRetain : List Call → Type 0
AllRetain [] = Unit
AllRetain (c ∷ cs) = Retains c × AllRetain cs

enqueue-tally-le :
    (codec : Codec) (s : Spool) (now : ℕ) (event : Event) (e : String) {r : Spool × Outcome}
    → Admitted codec s now event r
    → tally e s ≤ tally e r.0
enqueue-tally-le codec s now event e (added {t} room new p i d c) =
    rw (p, d) (omega (arith, count-append (row_has e) s.pending (new_row codec s now event ∷ [])))
enqueue-tally-le codec s now event e (refused {t} o p i d c) = rw (p, d) (omega arith)

step-tally-le :
    (codec : Codec) (s : Spool) (c : Call) (e : String)
    → IsSound s
    → Retains c
    → tally e s ≤ tally e (step codec s c)
unfolding step
step-tally-le codec s (enqueues now disk event) e v k =
    enqueue-tally-le codec s now event e (enqueue-Admitted codec s now disk event)
step-tally-le codec s (leases now limit) e v k =
    omega (arith, (lease-tally codec e s now limit v.ordered).0)
step-tally-le codec s (drains now limit) e v k = absurd k
step-tally-le codec s (nacks now reason ids) e v k =
    omega (arith, (nack-tally e s now reason ids v.ordered).0)
step-tally-le codec s (acks ids) e v k = absurd k

-- An event once in the spool stays in one of its tables until it is acknowledged.
run-tally-le :
    (codec : Codec) (s : Spool) (cs : List Call) (e : String)
    → IsSound s
    → AllRetain cs
    → tally e s ≤ tally e (run codec s cs)
unfolding run
run-tally-le codec s [] e v k = omega arith
run-tally-le codec s (c ∷ cs) e v k = omega (
  arith,
  step-tally-le codec s c e v k.0,
  run-tally-le codec (step codec s c) cs e (step-IsSound codec s c v) k.1,
)

applied-tally :
    (codec : Codec) (s : Spool) (now : ℕ) (event : Event) (e : String) {r : Spool × Outcome}
    → clean event.event_id ≡ some e
    → Admitted codec s now event r
    → r.1 ≡ applied
    → 0 < tally e r.0
unfolding new_row
applied-tally codec s now event e h (added {t} room new p i d c) o =
    rw (p, d)
      (ground (
        arith,
        count-append (row_has e) s.pending (new_row codec s now event ∷ []),
        (eq_iff e e).1 refl,
      ))
applied-tally codec s now event e h (refused o p i d c) a = absurd (o a)

known-not-applied :
    (codec : Codec) (s : Spool) (now : ℕ) (event : Event) (e : String) {r : Spool × Outcome}
    → clean event.event_id ≡ some e
    → is_known (some e) s ≡ true
    → Admitted codec s now event r
    → r.1 ≢ applied
known-not-applied codec s now event e h k (added room new p i d c) =
    λ o. cc (k, subst (λ x. is_known x s ≡ false) h new)
known-not-applied codec s now event e h k (refused o p i d c) = o

-- In a sound spool, once an event with an id is admitted, no later event with that id is, whatever
-- is leased, given back or enqueued between, until a row is acknowledged or drained.
pub run-enqueue-ne-applied :
    (codec : Codec) (s : Spool) (now disk later disk' : ℕ) (event again : Event) (e : String)
    (cs : List Call)
    → IsSound s
    → clean event.event_id ≡ some e
    → clean again.event_id ≡ some e
    → (enqueue codec s now disk event).1 ≡ applied
    → AllRetain cs
    → (enqueue codec (run codec (enqueue codec s now disk event).0 cs) later disk' again).1
      ≢ applied
run-enqueue-ne-applied codec s now disk later disk' event again e cs v h h' a k =
    let admitted = enqueue-Admitted codec s now disk event in
    let t = (enqueue codec s now disk event).0 in
    let sound = Admitted-IsSound codec s now event admitted v in
    let there = applied-tally codec s now event e h admitted a in
    let kept = run-tally-le codec t cs e sound k in
    known-not-applied codec (run codec t cs) later again e h'
      (known_of_tally e (run codec t cs) (omega arith))
      (enqueue-Admitted codec (run codec t cs) later disk' again)
