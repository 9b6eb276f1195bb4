-- ===== src/Settlement/Tests.antt =====
-- Runs of the delivery in kazenai/spine/guard.py and of a flush in kazenai/spine/settle_queue.py.
use kazenai_core.Base.{subst, sym, ◌≡◌, ◌⊎◌, refl, false, some}
use kazenai_core.Base.Text.{is_empty, concat}
use kazenai_core.Base.Amount.{pos}
use kazenai_core.SettleQueue.Intent.{intent_fingerprint}
use kazenai_core.SettleQueue.Samples.{
  sample_setup, sample_body, empty_queue, sample_queue, sample_record, sample-HasText,
  sample-IsBound, sample-read, sample-pending, empty-IsBound,
}
use kazenai_core.SettleQueue.{enqueue, record_of, conflict}
use kazenai_core.Settlement.Answers.{http_error, transport_error}
use kazenai_core.Settlement.Live.{live_mode, is_acknowledged, Settled, post_settle-Settled}
use kazenai_core.Settlement.Redelivery.{After}
use kazenai_core.Settlement.Listing.{IsDistinct, flush_locked-After}
use kazenai_core.Settlement.{
  flush_locked, flush_locked, Clock, journal_request, not_sent, post_settle, Outside,
}

abbrev one_clock : Clock
one_clock = record { started = 100; recorded = 101; answered = 300; record_id = "id1" }

-- The server answers 503 to every send.
abbrev busy : Outside
busy = record {
  now = 20000;
  draw = λ r. 1500;
  answer = λ r. http_error 503 "" (some (pos 9));
  destination = λ url. url;
}

post_settle-Settled_example :
    ((post_settle sample_setup one_clock live_mode
          (λ k. k)
          (λ k. k)
          empty_queue
          "https://ledger/"
          "o1"
          (sample_body "usage_known")
          transport_error).1
        ≡ not_sent)
      × ((enqueue sample_setup 100 101 "id1"
            (λ k. k)
            empty_queue
            (journal_request "https://ledger/" "o1" (sample_body "usage_known") "pre_send")).1
          ≡ conflict)
    ⊎ Settled sample_setup one_clock
        (journal_request "https://ledger/" "o1" (sample_body "usage_known") "pre_send")
        (is_acknowledged "usage_known" transport_error)
        (post_settle sample_setup one_clock live_mode
          (λ k. k)
          (λ k. k)
          empty_queue
          "https://ledger/"
          "o1"
          (sample_body "usage_known")
          transport_error).0
        (post_settle sample_setup one_clock live_mode
          (λ k. k)
          (λ k. k)
          empty_queue
          "https://ledger/"
          "o1"
          (sample_body "usage_known")
          transport_error).1
post_settle-Settled_example =
    post_settle-Settled sample_setup one_clock (λ k. k) (λ k. k) empty_queue "https://ledger/" "o1"
      (sample_body "usage_known") transport_error sample-HasText (λ k b. b) (λ k. refl)
      empty-IsBound

printed : is_empty sample_record.fingerprint ≡ false
unfolding record_of intent_fingerprint concat is_empty
printed = refl

named_file : is_empty "fk1usage_known" ≡ false
unfolding is_empty
named_file = refl

one-IsDistinct : IsDistinct sample_queue.pending
one-IsDistinct = subst IsDistinct (sym sample-pending) (tt, tt)

flush_locked-After_example :
    After busy "fk1usage_known" sample_record
      (flush_locked sample_setup busy "https://ledger" sample_queue).0
flush_locked-After_example =
    flush_locked-After sample_setup busy "https://ledger" sample_queue "fk1usage_known"
      sample_record sample-IsBound one-IsDistinct sample-read
