-- ===== src/SettleQueue/Journal.antt =====
-- Every operation of kazenai/spine/settle_queue.py keeps each journaled record bound to its claim,
-- so an idempotency key never stands for two intents.
use kazenai_core.Base.{
  ℕ, ◌≡◌, ◌≢◌, refl, sym, ap, subst, ◌∙◌, inl, inr, Bool, false, not, ◌&&◌, Option, some, String,
  arith, str_eq, eq_iff, Bool-cases, Option-cases, if_cases,
}
use kazenai_core.Base.Text.{is_empty}
use kazenai_core.Base.Dir.{Dir, read, write, delete, read-write, read-delete}
use kazenai_core.SettleQueue.Intent.{record_name}
use kazenai_core.SettleQueue.Claims.{
  File, journaled, unreadable, malformed, Record, Queue, Setup, claim_binds, release_claim_for,
}
use kazenai_core.SettleQueue.Bindings.{Holds, AllHold, IsBound, Covers}
use kazenai_core.SettleQueue.Acquire.{release_claim_for-AllHold}
use kazenai_core.SettleQueue.{
  has_fingerprint, release_file, ack, quarantine, schedule_retry, release_found, release,
}

pub Covers-self : (d : Dir File) → Covers d d
Covers-self d n r e = rw e refl

-- A file that goes away leaves the others with their claims.
pub delete-AllHold :
    (setup : Setup) (q : Queue) (name : String)
    → IsBound setup q
    → AllHold setup (delete name q.pending) q
delete-AllHold setup q name b n r e = b n r (ground (arith, read-delete name n q.pending))

-- A record that holds its claim may appear, and the others keep theirs.
pub write-IsBound :
    (setup : Setup) (view : Dir File) (q : Queue) (name : String) (new : Record)
    → ((n : String) (r : Record)
        → str_eq name n ≡ false
        → read n q.pending ≡ some (journaled r)
        → read n view ≡ some (journaled r))
    → AllHold setup view q
    → Holds setup q name new
    → read name q.pending ≡ some (journaled new)
    → IsBound setup q
write-IsBound setup view q name new others b h at n r e = elim (Bool-cases (str_eq name n)) [
  | inl same ↦
      let nn = (eq_iff name n).0 same in
      let rr : new ≡ r = cc in subst (λ k. Holds setup q k r) nn (subst (Holds setup q name) rr h)
  | inr other ↦ b n r (others n r other e)
]

pub release_claim_for-pending :
    (setup : Setup) (q : Queue) (r : Record) → (release_claim_for setup q r).pending ≡ q.pending
unfolding release_claim_for
release_claim_for-pending setup q r = ground arith

pub release-IsBound :
    (setup : Setup) (q : Queue) (r : Record)
    → ((n : String) (s : Record)
        → read n q.pending ≡ some (journaled s)
        → s.fingerprint ≢ r.fingerprint)
    → IsBound setup q
    → IsBound setup (release_claim_for setup q r)
release-IsBound setup q r gone b n s e =
    release_claim_for-AllHold setup q.pending q r gone b n s
      (ap (read n) (sym (release_claim_for-pending setup q r)) ∙ e)

release_file-IsBound :
    (setup : Setup) (claim : Bool) (q : Queue) (name : String) (file : File)
    → read name q.pending ≡ some file
    → IsBound setup q
    → IsBound setup (release_file setup claim (record q { pending = delete name q.pending }) file)
unfolding release_file claim_binds
release_file-IsBound setup claim q name unreadable e b = delete-AllHold setup q name b
release_file-IsBound setup claim q name malformed e b = delete-AllHold setup q name b
release_file-IsBound setup claim q name (journaled r) e b =
    if_cases (IsBound setup) claim
      (λ _.
        release-IsBound setup (record q { pending = delete name q.pending }) r gone
          (delete-AllHold setup q name b))
      (λ _. delete-AllHold setup q name b)
  where
    gone :
        (n : String) (s : Record)
        → read n (delete name q.pending) ≡ some (journaled s)
        → s.fingerprint ≢ r.fingerprint
    gone n s there same =
        let seen : read n q.pending ≡ some (journaled s) =
          ground (arith, read-delete name n q.pending) in
        let placed = (b n s seen).0 in
        let here = (b name r e).0 in
        let nn : name ≡ n = sym here ∙ ap record_name (sym same) ∙ placed in
        ground (arith, read-delete name n q.pending, (eq_iff name n).1 nn)

-- An `ack`, whether it removes a record or not, leaves every record of the journal bound to the
-- claim of its key.
pub ack-IsBound :
    (setup : Setup) (q : Queue) (name fingerprint : String) (claim : Bool)
    → IsBound setup q
    → IsBound setup (ack setup q name fingerprint claim).0
unfolding ack
ack-IsBound setup q name fingerprint claim b = elim (Option-cases (read name q.pending)) [
  | inl e ↦ rw (e, ack) b
  | inr (file, e) ↦
      rw (e, ack)
        (if_cases (λ (r : Queue × Bool). IsBound setup r.0)
          (not (is_empty fingerprint) && not (has_fingerprint fingerprint file)) (λ _. b)
          (λ _. release_file-IsBound setup claim q name file e b))
]

-- So does `_quarantine`.
pub quarantine-IsBound :
    (setup : Setup) (q : Queue) (name reason : String)
    → IsBound setup q
    → IsBound setup (quarantine q name reason)
unfolding quarantine claim_binds
quarantine-IsBound setup q name reason b = elim (Option-cases (read name q.pending)) [
  | inl e ↦ rw (e, quarantine) b
  | inr (file, e) ↦ rw (e, quarantine) (delete-AllHold setup q name b)
]

-- A record that is written again with the same intent keeps its claim.
pub rewrite-IsBound :
    (setup : Setup) (q : Queue) (name : String) (r new : Record)
    → read name q.pending ≡ some (journaled r)
    → new.fingerprint ≡ r.fingerprint
    → new.body ≡ r.body
    → new.org_id ≡ r.org_id
    → new.base_url ≡ r.base_url
    → IsBound setup q
    → IsBound setup (record q { pending = write name (journaled new) q.pending })
unfolding claim_binds
rewrite-IsBound setup q name r new e f body org base b =
    write-IsBound setup (delete name q.pending)
      (record q { pending = write name (journaled new) q.pending }) name new
      (λ n s other there.
        ground (arith, read-delete name n q.pending, read-write name n (journaled new) q.pending))
      (delete-AllHold setup q name b) (simp (f, body, org, base) (b name r e))
      (ground (arith, read-write name name (journaled new) q.pending, (eq_iff name name).1 refl))

-- A retry of a record that stands in the journal leaves every record bound to the claim of its key.
pub schedule_retry-IsBound :
    (setup : Setup) (q : Queue) (now draw : ℕ) (retry_after : Option ℕ) (name : String) (r : Record)
    → read name q.pending ≡ some (journaled r)
    → IsBound setup q
    → IsBound setup (schedule_retry q now draw retry_after name r)
unfolding schedule_retry
schedule_retry-IsBound setup q now draw retry_after name r e b =
    if_cases (IsBound setup) (is_empty name) (λ _. b)
      (λ _. rewrite-IsBound setup q name r _ e refl refl refl refl b)

release_found-IsBound :
    (setup : Setup) (q : Queue) (now : ℕ) (name fingerprint : String) (file : File)
    → read name q.pending ≡ some file
    → IsBound setup q
    → IsBound setup (release_found q now name fingerprint file).0
unfolding release_found
release_found-IsBound setup q now name fingerprint unreadable e b = b
release_found-IsBound setup q now name fingerprint malformed e b = b
release_found-IsBound setup q now name fingerprint (journaled r) e b =
    if_cases P (not (str_eq r.error "pre_send")) (λ _. b)
      λ _.
        if_cases P (not (is_empty fingerprint) && not (str_eq r.fingerprint fingerprint)) (λ _. b)
          (λ _. rewrite-IsBound setup q name r _ e refl refl refl refl b)
  where
    P : Queue × Bool → Type 0
    P t = IsBound setup t.0

-- A `release`, whether it changes a record or not, leaves every record of the journal bound to the
-- claim of its key.
pub release_record-IsBound :
    (setup : Setup) (q : Queue) (now : ℕ) (name fingerprint : String)
    → IsBound setup q
    → IsBound setup (release q now name fingerprint).0
unfolding release
release_record-IsBound setup q now name fingerprint b = elim (Option-cases (read name q.pending)) [
  | inl e ↦ rw (e, release) b
  | inr (file, e) ↦ rw (e, release) (release_found-IsBound setup q now name fingerprint file e b)
]
