-- ===== src/SettleQueue/Claims.antt =====
-- kazenai/spine/settle_queue.py: what lies on disk, and the claims, which bind each idempotency key
-- to one intent. Each file-system call is one step; a rename or a link shows whole files.
use kazenai_core.Base.{
  ℕ, zero, suc, ◌+◌, max, ◌*◌, Bool, true, false, not, ◌&&◌, Option, none, some, List, String, leb,
  if◌then◌else◌, str_eq,
}
use kazenai_core.Base.Text.{is_empty}
use kazenai_core.Base.Dir.{Dir, read, write, delete, exists}
use kazenai_core.SettleQueue.Intent.{Body, Digests, claim_identity, record_name, claim_name}

-- A record of `pending/`.
pub record Record : Type 0 where
  pub fingerprint : String
  pub record_id : String
  pub body : Body
  pub error : String
  pub base_url : String
  pub api_key : String
  pub org_id : String
  pub enqueued_at : ℕ
  pub attempts : ℕ
  pub next_attempt_at : ℕ

-- A file of `pending/`: a record, no JSON, or JSON that is no record.
pub data File : Type 0 where
  journaled : Record → File
  unreadable malformed : File

-- A file of `claims/`: a fingerprint with the time of the claim (the file's own where the object
-- has none), or nothing that `_read_claim` takes for a claim.
pub data ClaimFile : Type 0 where
  bound : (fingerprint : String) (claimed_at : ℕ) → ClaimFile
  broken : ClaimFile

pub record Quarantined : Type 0 where
  pub name : String
  pub reason : String
  pub file : File

pub record Queue : Type 0 where
  pub pending : Dir File
  pub claims : Dir ClaimFile
  pub quarantine : List Quarantined

-- The hash, STALE_CLAIM_S and the timeout of a send.
pub record Setup : Type 0 where
  pub digests : Digests
  pub stale_claim_ms : ℕ
  pub reserve_timeout_ms : ℕ

-- `_pre_send_grace_s`.
unfoldable pub pre_send_grace_ms : Setup → ℕ
pre_send_grace_ms setup = max 10000 (4 * setup.reserve_timeout_ms)

-- The fingerprint and the time in a claim file, if it is one.
abbrev pub content : Option ClaimFile → Option (String × ℕ)
content none = none
content (some broken) = none
content (some (bound fingerprint claimed_at)) = some (fingerprint, claimed_at)

-- `_read_claim(path)`.
unfoldable pub read_claim : Queue → String → Option (String × ℕ)
read_claim q name = content (read name q.claims)

-- `_claim_binds(identity, fingerprint)`.
unfoldable pub claim_binds : Queue → String → String → Bool
unfolding read_claim
claim_binds q identity fingerprint = elim (read_claim q (claim_name identity)) [
  | none ↦ false
  | some claim ↦ str_eq claim.0 fingerprint
]

-- `_claim_is_orphaned(claim, path)` at a time.
unfoldable pub claim_is_orphaned : Setup → ℕ → Queue → String × ℕ → Bool
claim_is_orphaned setup now q (fingerprint, claimed_at) =
    not (not (is_empty fingerprint) && exists (record_name fingerprint) q.pending)
    && leb (claimed_at + setup.stale_claim_ms) now

-- `_remove_claim_if(path, fingerprint)`, under the lock on claims.
unfoldable pub remove_claim_if : Queue → String → String → Queue × Bool
unfolding read_claim
remove_claim_if q name fingerprint = elim (read_claim q name) [
  | none ↦ (q, false)
  | some claim ↦
      if str_eq claim.0 fingerprint
      then (record q { claims = delete name q.claims }, true)
      else (q, false)
]

-- `os.link(tmp, path)`: fails if the name is taken.
unfoldable pub link_claim : Queue → String → String → ℕ → Option Queue
link_claim q name fingerprint now =
    if exists name q.claims
    then none
    else some (record q { claims = write name (bound fingerprint now) q.claims })

-- The loop of `_acquire_claim` with the rounds that are left; `false` is a SettleIntentConflict.
unfoldable pub claim_rounds : Setup → ℕ → String → String → ℕ → Queue → Queue × Bool
unfolding claim_is_orphaned remove_claim_if link_claim read_claim
claim_rounds setup now name fingerprint zero q = (q, false)
claim_rounds setup now name fingerprint (suc n) q = elim (read_claim q name) [
  | some claim ↦
      let again = claim_rounds setup now name fingerprint n (remove_claim_if q name claim.0).0 in
      if str_eq claim.0 fingerprint
      then (q, true)
      else if claim_is_orphaned setup now q claim
      then again
      else (q, false)
  | none ↦ elim (link_claim q name fingerprint now) [
    | none ↦ claim_rounds setup now name fingerprint n q
    | some linked ↦ (linked, true)
  ]
]

-- `_acquire_claim(identity, fingerprint, idem)`.
unfoldable pub acquire_claim : Setup → ℕ → Queue → String → String → Queue × Bool
unfolding claim_rounds
acquire_claim setup now q identity fingerprint =
    claim_rounds setup now (claim_name identity) fingerprint 8 q

-- The identity under which a record holds its claim.
abbrev pub identity_of : Setup → Record → String
identity_of setup r = claim_identity setup.digests r.org_id r.base_url r.body.idempotency_key

-- `_release_claim_for(record)`.
unfoldable pub release_claim_for : Setup → Queue → Record → Queue
unfolding remove_claim_if
release_claim_for setup q r =
    if is_empty r.body.idempotency_key
    then q
    else (remove_claim_if q (claim_name (identity_of setup r)) r.fingerprint).0
