-- ===== src/RetryQueue/Exclusive.antt =====
-- No history hands out a leased row again before its lease runs out
-- (kazenai/retry_queue.py, every operation).
use kazenai_core.Base.{
  ℕ, ◌+◌, ◌<◌, ◌≡◌, Bool, true, false, not, List, [], ◌∷◌, ◌++◌, arith, String, ◌==◌, keep, any,
}
use kazenai_core.RetryQueue.Table.{Row}
use kazenai_core.RetryQueue.Identity.{nack_row_cases}
use kazenai_core.RetryQueue.Admission.{Admitted, added, refused, enqueue-Admitted}
use kazenai_core.RetryQueue.Leases.{
  holds, IsHeld, IsKept, bury-IsKept, set_lease-IsKept, lease_other, lease-IsKept,
}
use kazenai_core.RetryQueue.Steps.{Call, enqueues, leases, drains, nacks, acks, step, run, IsSound}
use kazenai_core.RetryQueue.{
  Event, Codec, Spool, Outcome, new_row, lease, ack, nack_row, nack, drain,
}

enqueue-IsKept :
    (codec : Codec) (s : Spool) (now d i : ℕ) (event : Event) {r : Spool × Outcome}
    → IsKept d i s
    → Admitted codec s now event r
    → IsKept d i r.0
unfolding new_row
enqueue-IsKept codec s now d i event h (added {t} room new p n c k) = record {
  held = rw p (IsHeld-append s.pending h.held);
  older = let b : i < s.next_id = h.older in omega arith;
}
  where
    IsHeld-append :
        (xs : List Row) → IsHeld d i xs → IsHeld d i (xs ++ new_row codec s now event ∷ [])
    IsHeld-append [] g = let b : i < s.next_id = h.older in (ground arith, tt)
    IsHeld-append (x ∷ xs) g = (g.0, IsHeld-append xs g.1)
enqueue-IsKept codec s now d i event h (refused {t} o p n c k) = record {
  held = rw p h.held;
  older = rw n h.older;
}

ack-IsKept : (s : Spool) (ids : List ℕ) (d i : ℕ) → IsKept d i s → IsKept d i (ack s ids)
unfolding ack
ack-IsKept s [] d i h = h
ack-IsKept s (j ∷ ids) d i h = record {
  held = IsHeld-keep (λ r. not (any (λ k. r.id == k) (j ∷ ids))) s.pending h.held;
  older = h.older;
}
  where
    IsHeld-keep : (p : Row → Bool) (xs : List Row) → IsHeld d i xs → IsHeld d i (keep p xs)
    IsHeld-keep p [] g = tt
    IsHeld-keep p (x ∷ xs) g = let rest = IsHeld-keep p xs g.1 in ground arith

nack-IsKept :
    (s : Spool) (now : ℕ) (reason : String) (ids : List ℕ) (d i : ℕ)
    → any (λ j. j == i) ids ≡ false
    → IsKept d i s
    → IsKept d i (nack s now reason ids)
unfolding nack
nack-IsKept s now reason [] d i n h = h
nack-IsKept s now reason (j ∷ ids) d i n h =
    nack-IsKept (nack_row now reason j s) now reason ids d i (ground arith) (
      nack_row_cases (IsKept d i) now j reason s h (λ r f. bury-IsKept now d i reason r s h)
        (record { held = (set_lease-IsKept d i 0 0 j s (ground arith) h).held; older = h.older }))

-- A call before a time, other than one that gives a row back.
abbrev pub Respects : ℕ → ℕ → Call → Type 0
Respects d i (enqueues now disk event) = Unit
Respects d i (leases now limit) = now < d
Respects d i (drains now limit) = now < d
Respects d i (nacks now reason ids) = any (λ j. j == i) ids ≡ false
Respects d i (acks ids) = Unit

abbrev pub AllRespect : ℕ → ℕ → List Call → Type 0
AllRespect d i [] = Unit
AllRespect d i (c ∷ cs) = Respects d i c × AllRespect d i cs

step-IsKept :
    (codec : Codec) (s : Spool) (c : Call) (d i : ℕ)
    → Respects d i c
    → IsKept d i s
    → IsKept d i (step codec s c)
unfolding step drain
step-IsKept codec s (enqueues now disk event) d i k h =
    enqueue-IsKept codec s now d i event h (enqueue-Admitted codec s now disk event)
step-IsKept codec s (leases now limit) d i k h = (lease_other codec s now limit d i k h).0
step-IsKept codec s (drains now limit) d i k h =
    ack-IsKept (lease codec s now limit).0 _ d i (lease_other codec s now limit d i k h).0
step-IsKept codec s (nacks now reason ids) d i k h = nack-IsKept s now reason ids d i k h
step-IsKept codec s (acks ids) d i k h = ack-IsKept s ids d i h

run-IsKept :
    (codec : Codec) (s : Spool) (cs : List Call) (d i : ℕ)
    → AllRespect d i cs
    → IsKept d i s
    → IsKept d i (run codec s cs)
unfolding run
run-IsKept codec s [] d i k h = h
run-IsKept codec s (c ∷ cs) d i k h =
    run-IsKept codec (step codec s c) cs d i k.1 (step-IsKept codec s c d i k.0 h)

-- In a sound spool, a row that a lease hands out is in no other lease before the first one runs
-- out, whatever calls come between, as long as those that lease come before that time and none
-- gives the row back.
pub lease-exclusive :
    (codec : Codec) (s : Spool) (now limit later limit' i : ℕ) (cs : List Call)
    → IsSound s
    → holds i (lease codec s now limit).1 ≡ true
    → AllRespect (now + s.lease_ttl_ms) i cs
    → later < now + s.lease_ttl_ms
    → holds i (lease codec (run codec (lease codec s now limit).0 cs) later limit').1 ≡ false
lease-exclusive codec s now limit later limit' i cs v h k early =
    let d = now + s.lease_ttl_ms in
    let t = (lease codec s now limit).0 in
    (lease_other codec (run codec t cs) later limit' d i early
      (run-IsKept codec t cs d i k (lease-IsKept codec s now limit i v.ordered h))).1
