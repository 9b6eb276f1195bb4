-- ===== src/SettleQueue/Samples.antt =====
-- Concrete intents, a hash that is not SHA-256 but never empty, and a journal with one record, for
-- the tests of the modules about kazenai/spine/settle_queue.py.
use kazenai_core.Base.{◌∷◌, subst, ◌≡◌, refl, false, some, [], String, arith}
use kazenai_core.Base.Text.{concat, is_empty, take_chars, rstrip_slash, or_text}
use kazenai_core.Base.Dir.{read, write}
use kazenai_core.SettleQueue.Intent.{
  record_name, claim_name, claim_identity, intent_fingerprint, Body,
}
use kazenai_core.SettleQueue.Claims.{acquire_claim, claim_binds, Record, journaled, Queue, Setup}
use kazenai_core.SettleQueue.Bindings.{IsBound}
use kazenai_core.SettleQueue.Enqueue.{HasText}
use kazenai_core.SettleQueue.Outcomes.{Enqueued, enqueue-Enqueued}
use kazenai_core.SettleQueue.{is_refresh, Request, written, enqueue, record_of}

abbrev pub sample_setup : Setup
sample_setup = record {
  digests = record {
    of_material = λ m. concat "f" (concat m.idempotency_key m.event);
    of_claim = λ org base key. concat "c" (concat org key);
  };
  stale_claim_ms = 60000;
  reserve_timeout_ms = 2000;
}

abbrev pub sample_body : String → Body
sample_body event = record {
  idempotency_key = "k1";
  org_id = "o1";
  event = event;
  reservation_id = "r1";
  call_id = "c1";
  attempt = 1;
  actual_usd_micros = some 120;
  lifecycle_version = "reservation.lifecycle.v1";
  rest = "{}";
}

abbrev pub sample_request : String → Request
sample_request event = record {
  body = sample_body event;
  error = "pre_send";
  base_url = "https://ledger/";
  api_key = "";
  org_id = "o1";
  persist_api_key = false;
}

abbrev pub empty_queue : Queue
empty_queue = record { pending = []; claims = []; quarantine = [] }

pub sample-HasText : HasText sample_setup.digests
unfolding is_empty concat
sample-HasText m = refl

pub empty-IsBound : IsBound sample_setup empty_queue
unfolding read
empty-IsBound name r e = absurd (ground arith)

-- The journal with the intent of known usage.
abbrev pub sample_queue : Queue
sample_queue =
    (enqueue sample_setup 100 101 "id1" (λ k. k) empty_queue (sample_request "usage_known")).0

abbrev pub sample_record : Record
sample_record = record_of sample_setup (sample_request "usage_known") "id1" 101

pub sample-written :
    (enqueue sample_setup 100 101 "id1" (λ k. k) empty_queue (sample_request "usage_known")).1
    ≡ written
unfolding enqueue is_empty acquire_claim read is_refresh claim_binds write claim_name take_chars
    claim_identity concat rstrip_slash or_text record_of record_name intent_fingerprint
sample-written = refl

pub sample-read : read "fk1usage_known" sample_queue.pending ≡ some (journaled sample_record)
unfolding enqueue is_empty acquire_claim read is_refresh claim_binds write claim_name take_chars
    claim_identity concat rstrip_slash or_text record_of record_name intent_fingerprint
sample-read = refl

pub sample-pending : sample_queue.pending ≡ ("fk1usage_known", journaled sample_record) ∷ []
unfolding enqueue is_empty acquire_claim read is_refresh claim_binds write claim_name take_chars
    claim_identity concat rstrip_slash or_text record_of record_name intent_fingerprint
sample-pending = refl

pub sample-IsBound : IsBound sample_setup sample_queue
sample-IsBound =
    (subst
      (Enqueued sample_setup empty_queue (sample_request "usage_known") sample_record sample_queue)
      sample-written
      (enqueue-Enqueued sample_setup 100 101 "id1" (λ k. k) empty_queue
        (sample_request "usage_known") sample-HasText (λ k b. b) empty-IsBound)).0
