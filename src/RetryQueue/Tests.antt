-- ===== src/RetryQueue/Tests.antt =====
-- Runs of kazenai/retry_queue.py on a spool with one event.
use kazenai_core.Base.{◌<◌, ◌≡◌, ◌≢◌, refl, true, false, some, [], ◌∷◌, ◌++◌, arith, length, keep}
use kazenai_core.Base.Text.{strip, is_empty}
use kazenai_core.RetryQueue.Table.{is_due, first_due}
use kazenai_core.RetryQueue.Leases.{holds}
use kazenai_core.RetryQueue.Exclusive.{lease-exclusive}
use kazenai_core.RetryQueue.Steps.{
  enqueues, leases, nacks, acks, step, run, IsSound, init-IsSound, run-IsSound,
  run-enqueue-ne-applied,
}
use kazenai_core.RetryQueue.Delivery.{items_of, lease-enqueue}
use kazenai_core.RetryQueue.{
  Event, Codec, Config, Spool, applied, clean, init, enqueue, lease, lease_rows, lease_row,
}

abbrev plain_codec : Codec
plain_codec = record {
  dumps = λ e. e.content;
  loads = λ s. some (record { event_id = "e1"; org_id = "o1"; content = s });
}

abbrev small_config : Config
small_config = record {
  org_id = some "o1";
  max_pending = 10;
  max_disk_bytes = 1000;
  max_attempts = 3;
  lease_ttl_ms = 100;
}

abbrev one_event : Event
one_event = record { event_id = "e1"; org_id = "o1"; content = "usage" }

abbrev one_spool : Spool
one_spool = (enqueue plain_codec (init small_config) 5 0 one_event).0

one_spool-IsSound : IsSound one_spool
unfolding run step
one_spool-IsSound =
    run-IsSound plain_codec (init small_config) (enqueues 5 0 one_event ∷ [])
      (init-IsSound small_config)

admitted_first : (enqueue plain_codec (init small_config) 5 0 one_event).1 ≡ applied
unfolding enqueue init clean is_empty strip
admitted_first = refl

leased_first : holds 1 (lease plain_codec one_spool 10 5).1 ≡ true
unfolding enqueue init lease lease_rows first_due clean is_empty strip lease_row
leased_first = refl

lease-exclusive_example :
    holds 1
      (lease plain_codec
        (run plain_codec
          (lease plain_codec one_spool 10 5).0
          (leases 50 5 ∷ enqueues 60 0 one_event ∷ []))
        90
        5).1
    ≡ false
unfolding enqueue init clean is_empty strip
lease-exclusive_example =
    lease-exclusive plain_codec one_spool 10 5 90 5 1 (leases 50 5 ∷ enqueues 60 0 one_event ∷ [])
      one_spool-IsSound leased_first (omega arith, (tt, tt)) (omega arith)

cleaned : clean "e1" ≡ some "e1"
unfolding clean strip is_empty
cleaned = refl

run-enqueue-ne-applied_example :
    (enqueue plain_codec
      (run plain_codec
        (enqueue plain_codec (init small_config) 5 0 one_event).0
        (leases 50 5 ∷ nacks 60 "retry" (1 ∷ []) ∷ []))
      70
      0
      one_event).1
    ≢ applied
run-enqueue-ne-applied_example =
    run-enqueue-ne-applied plain_codec (init small_config) 5 0 70 0 one_event one_event "e1"
      (leases 50 5 ∷ nacks 60 "retry" (1 ∷ []) ∷ []) (init-IsSound small_config) cleaned cleaned
      admitted_first (tt, (tt, tt))

run-IsSound_example : IsSound (
    run plain_codec (init small_config) (enqueues 5 0 one_event ∷ leases 10 5 ∷ acks (1 ∷ []) ∷ []))
run-IsSound_example =
    run-IsSound plain_codec (init small_config)
      (enqueues 5 0 one_event ∷ leases 10 5 ∷ acks (1 ∷ []) ∷ []) (init-IsSound small_config)

room : length (init small_config).pending < 5
unfolding init
room = omega arith

lease-enqueue_example :
    (lease plain_codec (enqueue plain_codec (init small_config) 5 0 one_event).0 10 5).1
    ≡ items_of plain_codec (keep (is_due 10) (init small_config).pending)
      ++ record {
        row_id = 1;
        event = one_event;
        attempts = 1;
        event_id = some "e1";
        org_id = some "o1";
      }
        ∷ []
unfolding clean strip is_empty init
lease-enqueue_example =
    lease-enqueue plain_codec (init small_config) 5 0 10 5 one_event refl admitted_first room
