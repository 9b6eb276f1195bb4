-- ===== src/SettleQueue/Intent.antt =====
-- kazenai/spine/settle_queue.py: the exact intent that is journaled, and its identities.
use kazenai_core.Base.{ℕ, Bool, ◌&&◌, Option, none, some, String, str_eq, ◌==◌, true, false}
use kazenai_core.Base.Text.{rstrip_slash, or_text, take_chars}

-- The body of a settle request: the keys that the queue reads, empty or `none` if missing, and the
-- rest of the object as text.
pub record Body : Type 0 where
  pub idempotency_key : String
  pub org_id : String
  pub event : String
  pub reservation_id : String
  pub call_id : String
  pub attempt : ℕ
  pub actual_usd_micros : Option ℕ
  pub lifecycle_version : String
  pub rest : String

-- What `intent_fingerprint` hashes.
pub record Material : Type 0 where
  pub idempotency_key : String
  pub org_id : String
  pub base_url : String
  pub event : String
  pub reservation_id : String
  pub call_id : String
  pub attempt : ℕ
  pub actual_usd_micros : Option ℕ
  pub lifecycle_version : String

-- SHA-256, in hexadecimal, of the canonical JSON of a material, and of the three parts of a claim's
-- identity joined by NUL.
pub record Digests : Type 0 where
  pub of_material : Material → String
  pub of_claim : (org_id base_url idempotency_key : String) → String

pub material : Body → String → String → Material
material body org_id base_url = record {
  idempotency_key = body.idempotency_key;
  org_id = or_text org_id body.org_id;
  base_url = rstrip_slash base_url;
  event = body.event;
  reservation_id = body.reservation_id;
  call_id = body.call_id;
  attempt = body.attempt;
  actual_usd_micros = body.actual_usd_micros;
  lifecycle_version = body.lifecycle_version;
}

unfoldable pub intent_fingerprint : Digests → Body → String → String → String
unfolding material
intent_fingerprint digests body org_id base_url =
    digests.of_material (material body org_id base_url)

unfoldable pub claim_identity : Digests → String → String → String → String
claim_identity digests org_id base_url idempotency_key =
    digests.of_claim org_id (rstrip_slash base_url) idempotency_key

-- The names of a record's file and of a claim's file.
unfoldable pub record_name : String → String
record_name fingerprint = take_chars 40 fingerprint

unfoldable pub claim_name : String → String
claim_name identity = take_chars 40 identity

abbrev pub micros_eq : Option ℕ → Option ℕ → Bool
micros_eq none none = true
micros_eq (some a) (some b) = a == b
micros_eq _ _ = false

-- Equality of two bodies.
unfoldable pub body_eq : Body → Body → Bool
body_eq a b =
    str_eq a.idempotency_key b.idempotency_key
    && str_eq a.org_id b.org_id
    && str_eq a.event b.event
    && str_eq a.reservation_id b.reservation_id
    && str_eq a.call_id b.call_id
    && a.attempt == b.attempt
    && micros_eq a.actual_usd_micros b.actual_usd_micros
    && str_eq a.lifecycle_version b.lifecycle_version
    && str_eq a.rest b.rest
