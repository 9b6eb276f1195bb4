-- ===== src/Transitions/Tests.antt =====
-- Runs of kazenai/lifecycle_transitions.py.
use kazenai_core.Base.{◌≡◌, ◌↔◌, refl, true, some}
use kazenai_core.Base.Text.{concat, is_empty}
use kazenai_core.Base.Amount.{pos, negsuc}
use kazenai_core.Transitions.Evidence.{IsReplay, settlement_evidence_matches-IsReplay}
use kazenai_core.Transitions.{
  settle_event_suffix, settle_idempotency_key, SettleCall, key_of, Payload, payload_of,
  build_settle_payload, Reservation, absent, whole, settlement_evidence_matches,
}

key_run : settle_idempotency_key "r1" "usage_known" ≡ some "settle:r1:usage"
unfolding settle_idempotency_key settle_event_suffix concat
key_run = refl

abbrev one_call : SettleCall
one_call = record {
  reservation_id = "r1";
  call_id = "c1";
  attempt = negsuc 2;
  org_id = "o1";
  event = "usage_known";
  actual_usd_micros = some (pos 120);
  lifecycle_version = "reservation.lifecycle.v1";
  idempotency_key = "";
  settlement_capability = "";
  usage_evidence = "";
}

abbrev one_payload : Payload
one_payload = payload_of one_call "settle:r1:usage" (some (pos 120)) ""

built : build_settle_payload one_call ≡ some one_payload
unfolding build_settle_payload settle_idempotency_key settle_event_suffix concat is_empty key_of
built = refl

abbrev one_reservation : Reservation
one_reservation = record {
  reservation_id = "r1";
  call_id = "c1";
  attempt = whole (pos 1);
  state = "settled";
  settle_result = some "duplicate";
  last_settle_actual = absent;
  actual_usd_micros = whole (pos 120);
}

settlement_evidence_matches-IsReplay_example :
    (settlement_evidence_matches one_reservation "c1" (pos 1) "r1" (some (pos 120)) ≡ true)
    ↔ IsReplay one_reservation "c1" (pos 1) "r1" (some (pos 120))
settlement_evidence_matches-IsReplay_example =
    settlement_evidence_matches-IsReplay one_reservation "c1" (pos 1) "r1" (some (pos 120))
