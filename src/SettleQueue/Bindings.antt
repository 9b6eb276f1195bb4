-- ===== src/SettleQueue/Bindings.antt =====
-- The claims of kazenai/spine/settle_queue.py: each journaled record holds the claim of its key.
use kazenai_core.Base.{
  ◌⊎◌, ℕ, ◌≡◌, refl, sym, inl, inr, Bool, true, false, ◌||◌, Option, none, some, String, arith,
  if◌then◌else◌, str_eq, eq_iff, Bool-cases,
}
use kazenai_core.Base.Text.{is_empty}
use kazenai_core.Base.Dir.{Dir, read, write, delete, exists, read-write, read-delete}
use kazenai_core.SettleQueue.Intent.{record_name, claim_name}
use kazenai_core.SettleQueue.Claims.{
  File, Record, journaled, ClaimFile, bound, broken, Queue, Setup, read_claim, claim_binds,
  claim_is_orphaned, remove_claim_if, identity_of,
}

-- A record under its name, with a fingerprint and, where it has a key, the key's claim.
abbrev pub Holds : Setup → Queue → String → Record → Type 0
Holds setup q name r =
    (record_name r.fingerprint ≡ name)
    × (is_empty r.fingerprint ≡ false)
    × ((is_empty r.body.idempotency_key || claim_binds q (identity_of setup r) r.fingerprint)
        ≡ true)

-- Every record of a directory holds its claim.
abbrev pub AllHold : Setup → Dir File → Queue → Type 0
AllHold setup view q =
    (name : String) (r : Record) → read name view ≡ some (journaled r) → Holds setup q name r

-- Every record of the journal holds its claim.
abbrev pub IsBound : Setup → Queue → Type 0
IsBound setup q = AllHold setup q.pending q

-- Each record of a directory has its name in another.
abbrev pub Covers : Dir File → Dir File → Type 0
Covers view d =
    (name : String) (r : Record) → read name view ≡ some (journaled r) → exists name d ≡ true

abbrev pub binds : String → Option ClaimFile → Bool
binds fp none = false
binds fp (some broken) = false
binds fp (some (bound x t)) = str_eq x fp

pub claim_binds-read :
    (q : Queue) (identity fp : String)
    → claim_binds q identity fp ≡ binds fp (read (claim_name identity) q.claims)
unfolding claim_binds
claim_binds-read q identity fp = ground arith

-- A claim that goes away, and one that appears.
pub claim_binds-delete :
    (q : Queue) (name identity fp : String)
    → claim_binds (record q { claims = delete name q.claims }) identity fp
      ≡ (if str_eq name (claim_name identity) then false else claim_binds q identity fp)
unfolding claim_binds
claim_binds-delete q name identity fp =
    ground (arith, read-delete name (claim_name identity) q.claims)

pub claim_binds-write :
    (q : Queue) (name identity fp other : String) (now : ℕ)
    → claim_binds (record q { claims = write name (bound other now) q.claims }) identity fp
      ≡ (if str_eq name (claim_name identity) then str_eq other fp else claim_binds q identity fp)
unfolding claim_binds
claim_binds-write q name identity fp other now =
    ground (arith, read-write name (claim_name identity) (bound other now) q.claims)

-- A claim is removed while no record holds it.
pub remove-AllHold :
    (setup : Setup) (view : Dir File) (q : Queue) (name : String)
    → ((n : String) (r : Record)
        → read n view ≡ some (journaled r)
        → claim_name (identity_of setup r) ≡ name
        → is_empty r.body.idempotency_key ≡ true)
    → AllHold setup view q
    → AllHold setup view (record q { claims = delete name q.claims })
remove-AllHold setup view q name free b n r e =
    let (placed, named, held) = b n r e in
    (placed, named, go (Bool-cases (str_eq name (claim_name (identity_of setup r)))))
  where
    go :
        (str_eq name (claim_name (identity_of setup r)) ≡ true)
          ⊎ (str_eq name (claim_name (identity_of setup r)) ≡ false)
        → (is_empty r.body.idempotency_key
            || claim_binds
                (record q { claims = delete name q.claims })
                (identity_of setup r)
                r.fingerprint)
          ≡ true
    go (inl same) =
        let keyless = free n r e (sym ((eq_iff name (claim_name (identity_of setup r))).0 same)) in
        ground arith
    go (inr other) =
        let held = (b n r e).2 in
        ground (arith, claim_binds-delete q name (identity_of setup r) r.fingerprint)

pub write-AllHold :
    (setup : Setup) (view : Dir File) (q : Queue) (name fp : String) (now : ℕ)
    → read_claim q name ≡ none
    → AllHold setup view q
    → AllHold setup view (record q { claims = write name (bound fp now) q.claims })
unfolding read_claim
write-AllHold setup view q name fp now free b n r e =
    let held = (b n r e).2 in
    (
      (b n r e).0,
      (b n r e).1,
      ground (
        arith,
        claim_binds-write q name (identity_of setup r) r.fingerprint fp now,
        claim_binds-read q (identity_of setup r) r.fingerprint,
        eq_iff name (claim_name (identity_of setup r)),
      ),
    )

-- An orphaned claim is held by no record.
pub orphan-free :
    (setup : Setup) (view : Dir File) (now : ℕ) (q : Queue) (name : String) (claim : String × ℕ)
    → read_claim q name ≡ some claim
    → claim_is_orphaned setup now q claim ≡ true
    → Covers view q.pending
    → AllHold setup view q
    → (n : String) (r : Record) → read n view ≡ some (journaled r)
    → claim_name (identity_of setup r) ≡ name
    → is_empty r.body.idempotency_key ≡ true
unfolding claim_is_orphaned read_claim
orphan-free setup view now q name claim c o cover b n r e same =
    let (placed, named, held) = b n r e in
    let there : exists (record_name r.fingerprint) q.pending ≡ true = rw placed (cover n r e) in
    ground
      (arith, claim_binds-read q (identity_of setup r) r.fingerprint, eq_iff claim.0 r.fingerprint)

pub remove_claim_if_hit :
    (q : Queue) (name : String) (claim : String × ℕ)
    → read_claim q name ≡ some claim
    → (remove_claim_if q name claim.0).0 ≡ record q { claims = delete name q.claims }
unfolding remove_claim_if
remove_claim_if_hit q name claim c = ground (arith, (eq_iff claim.0 claim.0).1 refl)
