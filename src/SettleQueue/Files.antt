-- ===== src/SettleQueue/Files.antt =====
-- What the operations of kazenai/spine/settle_queue.py do to the file of one record, and to the
-- others.
use kazenai_core.Base.{
  ℕ, ◌+◌, ◌≤◌, ◌≡◌, refl, ap, ◌∙◌, inl, inr, Bool, true, false, not, ◌&&◌, Option, none, some,
  String, arith, if◌then◌else◌, str_eq, eq_iff, Option-cases, if_cases, min, ◌∷◌,
}
use mathlib.Core.List.{Memᴰ}
use kazenai_core.Base.Text.{is_empty}
use kazenai_core.Base.Dir.{read, delete, read-write, read-delete}
use kazenai_core.SettleQueue.Claims.{
  File, journaled, unreadable, malformed, Record, Quarantined, Queue, Setup, release_claim_for,
}
use kazenai_core.SettleQueue.Journal.{release_claim_for-pending}
use kazenai_core.SettleQueue.{
  ack, release_file, release, due_now, quarantine, schedule_retry, retry_wait, backoff_ceiling,
  has_fingerprint,
}

-- An acknowledged record goes away, and its claim is released.
pub ack_hit :
    (setup : Setup) (q : Queue) (name fp : String) (r : Record)
    → read name q.pending ≡ some (journaled r)
    → r.fingerprint ≡ fp
    → ack setup q name fp true
      ≡ (release_claim_for setup (record q { pending = delete name q.pending }) r, true)
unfolding ack
ack_hit setup q name fp r e print = ground (arith, eq_iff r.fingerprint fp)

release_file-pending :
    (setup : Setup) (claim : Bool) (q : Queue) (file : File)
    → (release_file setup claim q file).pending ≡ q.pending
unfolding release_file
release_file-pending setup claim q unreadable = refl
release_file-pending setup claim q malformed = refl
release_file-pending setup claim q (journaled r) =
    if_cases (λ (k : Queue). k.pending ≡ q.pending) claim (λ _. release_claim_for-pending setup q r)
      (λ _. refl)

-- No acknowledgement touches the file of another record.
pub read-ack :
    (setup : Setup) (q : Queue) (name fp other : String) (claim : Bool)
    → str_eq name other ≡ false
    → read other (ack setup q name fp claim).0.pending ≡ read other q.pending
unfolding ack
read-ack setup q name fp other claim apart = elim (Option-cases (read name q.pending)) [
  | inl e ↦ rw (e, ack) refl
  | inr (file, e) ↦
      rw (e, ack)
        (if_cases (λ (r : Queue × Bool). read other r.0.pending ≡ read other q.pending)
          (not (is_empty fp) && not (has_fingerprint fp file)) (λ _. refl)
          (λ _.
            ap (read other)
              (release_file-pending setup claim (record q { pending = delete name q.pending }) file)
            ∙ (read-delete name other q.pending ∙ rw apart)))
]

-- A record journaled before its send becomes due; any other stays as it is.
pub release_hit :
    (q : Queue) (now : ℕ) (name fp : String) (r : Record)
    → read name q.pending ≡ some (journaled r)
    → r.fingerprint ≡ fp
    → read name (release q now name fp).0.pending
      ≡ some (journaled (if str_eq r.error "pre_send" then due_now now r else r))
unfolding release
release_hit q now name fp r e print = ground (
  arith,
  eq_iff r.fingerprint fp,
  (eq_iff name name).1 refl,
  read-write name name (journaled (due_now now r)) q.pending,
)

pub read-quarantine :
    (q : Queue) (name reason other : String)
    → read other (quarantine q name reason).pending
      ≡ (if str_eq name other then none else read other q.pending)
unfolding quarantine
read-quarantine q name reason other = elim (Option-cases (read name q.pending)) [
  | inl e ↦ rw (e, quarantine) (ground (arith, eq_iff name other))
  | inr (file, e) ↦ rw (e, quarantine) (read-delete name other q.pending)
]

-- The record that a retry writes: one more attempt, not before the wait is over.
unfoldable pub retried : ℕ → ℕ → Option ℕ → Record → Record
unfolding retry_wait
retried now draw after r = record r {
  attempts = r.attempts + 1;
  next_attempt_at = now + retry_wait draw after;
}

pub read-schedule_retry :
    (q : Queue) (now draw : ℕ) (after : Option ℕ) (name other : String) (r : Record)
    → is_empty name ≡ false
    → read other (schedule_retry q now draw after name r).pending ≡ (
        if str_eq name other
        then some (journaled (retried now draw after r))
        else read other q.pending)
unfolding schedule_retry retried
read-schedule_retry q now draw after name other r text =
    rw text (read-write name other (journaled (retried now draw after r)) q.pending)

-- The wait before a retry never passes the cap of 300 s, is at least the draw of the backoff, and
-- honours the server's hint up to the cap, for a draw that is not over the ceiling of its attempt.
pub retry_wait_bounds :
    (draw : ℕ) (attempts : ℕ) (after : Option ℕ)
    → draw ≤ backoff_ceiling attempts
    → (retry_wait draw after ≤ 300000)
      × (draw ≤ retry_wait draw after)
      × ((hint : ℕ) → after ≡ some hint → min 300000 hint ≤ retry_wait draw after)
unfolding retry_wait backoff_ceiling
retry_wait_bounds draw attempts none h = (omega arith, omega arith, λ hint e. absurd (ground arith))
retry_wait_bounds draw attempts (some after) h = (omega arith, omega arith, λ hint e. ground arith)

-- A file that is set aside is kept with its reason.
pub quarantine_hit :
    (q : Queue) (name reason : String) (file : File)
    → read name q.pending ≡ some file
    → (quarantine q name reason).quarantine
      ≡ record { name = name; reason = reason; file = file } ∷ q.quarantine
unfolding quarantine
quarantine_hit q name reason file e = rw (e, quarantine) refl

-- The files set aside stay there.
release_file-quarantine :
    (setup : Setup) (claim : Bool) (q : Queue) (file : File)
    → (release_file setup claim q file).quarantine ≡ q.quarantine
unfolding release_file release_claim_for
release_file-quarantine setup claim q unreadable = refl
release_file-quarantine setup claim q malformed = refl
release_file-quarantine setup claim q (journaled r) =
    if_cases (λ (k : Queue). k.quarantine ≡ q.quarantine) claim (λ _. ground arith) (λ _. refl)

pub ack-quarantine :
    (setup : Setup) (q : Queue) (name fp : String) (claim : Bool)
    → (ack setup q name fp claim).0.quarantine ≡ q.quarantine
unfolding ack
ack-quarantine setup q name fp claim = elim (Option-cases (read name q.pending)) [
  | inl e ↦ rw (e, ack) refl
  | inr (file, e) ↦
      rw (e, ack)
        (if_cases (λ (r : Queue × Bool). r.0.quarantine ≡ q.quarantine)
          (not (is_empty fp) && not (has_fingerprint fp file)) (λ _. refl)
          (λ _.
            release_file-quarantine setup claim (record q { pending = delete name q.pending })
              file))
]

pub schedule_retry-quarantine :
    (q : Queue) (now draw : ℕ) (after : Option ℕ) (name : String) (r : Record)
    → (schedule_retry q now draw after name r).quarantine ≡ q.quarantine
unfolding schedule_retry
schedule_retry-quarantine q now draw after name r = ground arith

pub quarantine-grows :
    (q : Queue) (name reason : String) (x : Quarantined)
    → Memᴰ x q.quarantine
    → Memᴰ x (quarantine q name reason).quarantine
unfolding quarantine
quarantine-grows q name reason x m = elim (Option-cases (read name q.pending)) [
  | inl e ↦ rw (e, quarantine) m
  | inr (file, e) ↦ rw (e, quarantine) (Memᴰ.tail m)
]
