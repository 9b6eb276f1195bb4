-- ===== src/RetryQueue/Admission.antt =====
-- What `enqueue` of kazenai/retry_queue.py does on each of its branches.
use kazenai_core.Base.{
  ℕ, suc, ◌<◌, ◌≡◌, refl, ◌≢◌, true, false, some, [], ◌∷◌, ◌++◌, arith, String, leb,
  any-false-count, count-any, if_cases,
}
use kazenai_core.RetryQueue.Table.{row_has, dead_has, count_pending}
use kazenai_core.RetryQueue.Identity.{tally}
use kazenai_core.RetryQueue.{
  Event, Codec, Spool, Outcome, applied, clean, is_known, is_foreign, violates_index, new_row,
  enqueue,
}

pub tally-zero : (e : String) (s : Spool) → is_known (some e) s ≡ false → tally e s ≡ 0
unfolding is_known
tally-zero e s h =
    ground (arith, any-false-count (row_has e) s.pending, any-false-count (dead_has e) s.dead)

pub known_of_tally : (e : String) (s : Spool) → 0 < tally e s → is_known (some e) s ≡ true
unfolding is_known
known_of_tally e s h =
    ground (arith, count-any (row_has e) s.pending, count-any (dead_has e) s.dead)

-- An admitted event is a new row; any other outcome leaves both tables as they were.
pub data Admitted (codec : Codec) (s : Spool) (now : ℕ) (event : Event)
    : Spool × Outcome → Type 0 where
  added :
      {t : Spool}
      → count_pending s.pending < s.max_pending
      → is_known (clean event.event_id) s ≡ false
      → t.pending ≡ s.pending ++ new_row codec s now event ∷ []
      → t.next_id ≡ suc s.next_id
      → t.dead ≡ s.dead
      → t.config ≡ s.config
      → Admitted codec s now event (t, applied)
  refused :
      {t : Spool} {o : Outcome}
      → o ≢ applied
      → t.pending ≡ s.pending
      → t.next_id ≡ s.next_id
      → t.dead ≡ s.dead
      → t.config ≡ s.config
      → Admitted codec s now event (t, o)

pub enqueue-Admitted :
    (codec : Codec) (s : Spool) (now disk : ℕ) (event : Event)
    → Admitted codec s now event (enqueue codec s now disk event)
unfolding enqueue
enqueue-Admitted codec s now disk event =
    if_cases P (is_foreign s.config.org_id (clean event.org_id))
      (λ _. refused (λ h. cc) refl refl refl refl)
      λ _.
        if_cases P (leb s.max_disk_bytes disk) (λ _. refused (λ h. cc) refl refl refl refl)
          λ _.
            if_cases P (leb s.max_pending (count_pending s.pending))
              (λ _. refused (λ h. cc) refl refl refl refl)
              λ room.
                if_cases P (is_known (clean event.event_id) s)
                  (λ _. refused (λ h. cc) refl refl refl refl)
                  λ new.
                    if_cases P (violates_index (clean event.event_id) s.pending)
                      (λ _. refused (λ h. cc) refl refl refl refl)
                      (λ _. added (ground arith) new refl refl refl refl)
  where
    P : Spool × Outcome → Type 0
    P = Admitted codec s now event
