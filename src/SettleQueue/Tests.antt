-- ===== src/SettleQueue/Tests.antt =====
-- Runs of kazenai/spine/settle_queue.py on concrete journals.
use kazenai_core.Base.{ℕ, ◌≤◌, ◌≡◌, ◌≢◌, refl, true, false, some, arith, min, str_eq, eq_iff}
use kazenai_core.Base.Text.{is_empty, concat, rstrip_slash, or_text}
use kazenai_core.SettleQueue.Intent.{claim_identity, intent_fingerprint}
use kazenai_core.SettleQueue.Claims.{identity_of}
use kazenai_core.SettleQueue.Outcomes.{Enqueued, enqueue-Enqueued, enqueue-conflict}
use kazenai_core.SettleQueue.Files.{retry_wait_bounds}
use kazenai_core.SettleQueue.Samples.{
  sample_setup, sample_request, sample_queue, sample_record, sample-HasText, sample-IsBound,
  sample-read,
}
use kazenai_core.SettleQueue.{
  enqueue, record_of, conflict, fingerprint_of, claim_of, retry_wait, backoff_ceiling,
}

enqueue-Enqueued_example :
    Enqueued sample_setup sample_queue
      (sample_request "outcome_unknown")
      (record_of sample_setup (sample_request "outcome_unknown") "id2" 201)
      (enqueue sample_setup 200 201 "id2"
        (λ k. k)
        sample_queue
        (sample_request "outcome_unknown")).0
      (enqueue sample_setup 200 201 "id2"
        (λ k. k)
        sample_queue
        (sample_request "outcome_unknown")).1
enqueue-Enqueued_example =
    enqueue-Enqueued sample_setup 200 201 "id2" (λ k. k) sample_queue
      (sample_request "outcome_unknown") sample-HasText (λ k b. b) sample-IsBound

has_key : is_empty sample_record.body.idempotency_key ≡ false
unfolding is_empty record_of
has_key = refl

same_claim :
    identity_of sample_setup sample_record
    ≡ claim_of sample_setup (sample_request "outcome_unknown")
unfolding record_of claim_identity or_text is_empty rstrip_slash concat
same_claim = refl

other_intent :
    sample_record.fingerprint ≢ fingerprint_of sample_setup (sample_request "outcome_unknown")
unfolding record_of intent_fingerprint concat
other_intent e =
    let same : str_eq "fk1usage_known" "fk1outcome_unknown" ≡ true =
      (eq_iff "fk1usage_known" "fk1outcome_unknown").1 e in
    absurd (ground arith)

-- The unknown outcome of a settlement whose known usage is journaled is refused.
enqueue-conflict_example :
    enqueue sample_setup 99000 99001 "id2" (λ k. k) sample_queue (sample_request "outcome_unknown")
    ≡ (sample_queue, conflict)
unfolding record_of
enqueue-conflict_example =
    enqueue-conflict sample_setup 99000 99001 "id2" (λ k. k) sample_queue
      (sample_request "outcome_unknown") "fk1usage_known" sample_record sample-IsBound sample-read
      has_key has_key same_claim other_intent

small_draw : 1500 ≤ backoff_ceiling 1
unfolding backoff_ceiling
small_draw = omega arith

retry_wait_bounds_example :
    (retry_wait 1500 (some 9000) ≤ 300000)
    × (1500 ≤ retry_wait 1500 (some 9000))
    × ((hint : ℕ) → some 9000 ≡ some hint → min 300000 hint ≤ retry_wait 1500 (some 9000))
retry_wait_bounds_example = retry_wait_bounds 1500 1 (some 9000) small_draw
