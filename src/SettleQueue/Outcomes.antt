-- ===== src/SettleQueue/Outcomes.antt =====
-- What a caller of `enqueue` of kazenai/spine/settle_queue.py may rely on.
use kazenai_core.Base.{
  ℕ, ◌≡◌, ◌≢◌, refl, sym, ap, subst, ◌∙◌, ◌⊎◌, inl, inr, Bool, true, false, not, ◌&&◌, none, some,
  String, arith, if◌then◌else◌, str_eq, eq_iff, Option-cases, if_cases,
}
use kazenai_core.Base.Text.{is_empty}
use kazenai_core.Base.Dir.{read, exists}
use kazenai_core.SettleQueue.Intent.{intent_fingerprint, record_name, claim_name}
use kazenai_core.SettleQueue.Claims.{
  journaled, Record, Queue, Setup, read_claim, claim_binds, claim_is_orphaned, claim_rounds,
  acquire_claim, identity_of,
}
use kazenai_core.SettleQueue.Bindings.{IsBound}
use kazenai_core.SettleQueue.Acquire.{Claimed, acquire_claim-Claimed}
use kazenai_core.SettleQueue.Journal.{Covers-self}
use kazenai_core.SettleQueue.Enqueue.{HasText, Published, publish-Published}
use kazenai_core.SettleQueue.{
  Request, fingerprint_of, claim_of, is_refresh, record_of, Journaling, written, kept, conflict,
  enqueue,
}

-- The queue after a call, by its outcome: the record that was made is there; or a record of the
-- same intent is; or the call is refused, and either no record changed or none stands under the
-- name.
abbrev pub Enqueued : Setup → Queue → Request → Record → Queue → Journaling → Type 0
Enqueued setup q r new t written =
    IsBound setup t × (read (record_name new.fingerprint) t.pending ≡ some (journaled new))
Enqueued setup q r new t kept =
    IsBound setup t
    × (is_refresh setup r (read (record_name new.fingerprint) t.pending) ≡ true)
    × (t.pending ≡ q.pending)
Enqueued setup q r new t conflict =
    IsBound setup t
    × ((t.pending ≡ q.pending) ⊎ (read (record_name new.fingerprint) t.pending ≡ none))

Enqueued-of_Published :
    (setup : Setup) (q : Queue) (r : Request) (new : Record) (t : Queue) (j : Journaling)
    → Published setup r new t j
    → Enqueued setup q r new t j
Enqueued-of_Published setup q r new t written h = h
Enqueued-of_Published setup q r new t kept h = absurd h
Enqueued-of_Published setup q r new t conflict h = (h.0, inr h.1)

-- Over a journal whose records hold their claims, and whatever others do to it while the record is
-- written, as long as they keep every record bound, `enqueue` keeps every record bound, and its
-- outcome says what is on disk: the new record is there; or a record of the same intent was there,
-- and no record changed; or it is a conflict, and no record changed or none stands under the name.
-- A hash is assumed not to be empty.
pub enqueue-Enqueued :
    (setup : Setup) (now later : ℕ) (id : String) (others : Queue → Queue) (q : Queue) (r : Request)
    → HasText setup.digests
    → ((k : Queue) → IsBound setup k → IsBound setup (others k))
    → IsBound setup q
    → let t = enqueue setup now later id others q r in
      Enqueued setup q r (record_of setup r id later) t.0 t.1
unfolding enqueue record_of intent_fingerprint
enqueue-Enqueued setup now later id others q r text keep b =
    if_cases P (not (is_empty r.body.idempotency_key) && not claimed.1)
      (λ h. (q'-IsBound, inl q'-pending))
      λ _.
        if_cases P (is_refresh setup r (read (record_name fingerprint) q'.pending))
          (λ h. (q'-IsBound, h, q'-pending))
          (λ _. Enqueued-of_Published setup q r new _ _ (
            publish-Published setup later (others q') r new (text _) refl refl
              (keep q' q'-IsBound)))
  where
    fingerprint : String
    fingerprint = fingerprint_of setup r

    new : Record
    new = record_of setup r id later

    claimed : Queue × Bool
    claimed = acquire_claim setup now q (claim_of setup r) fingerprint

    c : Claimed setup q.pending q (claim_of setup r) fingerprint claimed
    c =
        acquire_claim-Claimed setup q.pending now (claim_of setup r) fingerprint q
          (Covers-self q.pending) b

    q' : Queue
    q' = if is_empty r.body.idempotency_key then q else claimed.0

    q'-pending : q'.pending ≡ q.pending
    q'-pending =
        if_cases (λ (k : Queue). k.pending ≡ q.pending) (is_empty r.body.idempotency_key)
          (λ _. refl) (λ _. c.same)

    q'-IsBound : IsBound setup q'
    q'-IsBound =
        if_cases (IsBound setup) (is_empty r.body.idempotency_key) (λ _. b)
          (λ _. λ n s e. c.sound n s (ap (read n) (sym c.same) ∙ e))

    P : Queue × Journaling → Type 0
    P t = Enqueued setup q r new t.0 t.1

-- A claim that binds a fingerprint is a file with that fingerprint.
claim_of_binds :
    (q : Queue) (identity fp : String)
    → claim_binds q identity fp ≡ true
    → (t : ℕ) × (read_claim q (claim_name identity) ≡ some (fp, t))
unfolding claim_binds
claim_of_binds q identity fp h = elim (Option-cases (read_claim q (claim_name identity))) [
  | inl e ↦ absurd (ground arith)
  | inr (claim, e) ↦ (claim.1, ground (arith, eq_iff claim.0 fp))
]

refused_by_live :
    (setup : Setup) (now : ℕ) (q : Queue) (identity fp name : String) (old : Record)
    → read name q.pending ≡ some (journaled old)
    → record_name old.fingerprint ≡ name
    → is_empty old.fingerprint ≡ false
    → claim_binds q identity old.fingerprint ≡ true
    → old.fingerprint ≢ fp
    → acquire_claim setup now q identity fp ≡ (q, false)
unfolding acquire_claim
refused_by_live setup now q identity fp name old e placed text held other =
    let (t, c) = claim_of_binds q identity old.fingerprint held in
    let apart : str_eq old.fingerprint fp ≡ false = ground (arith, eq_iff old.fingerprint fp) in
    let here : exists (record_name old.fingerprint) q.pending ≡ true = rw placed (rw e refl) in
    let live : claim_is_orphaned setup now q (old.fingerprint, t) ≡ false = rw (text, here) refl in
    rw (c, apart, live, claim_rounds) refl

-- In a journal whose records hold their claims, a request under the key of a record of another
-- intent is refused, and changes nothing, however old the claim of the record is.
pub enqueue-conflict :
    (setup : Setup) (now later : ℕ) (id : String) (others : Queue → Queue) (q : Queue) (r : Request)
    (name : String) (old : Record)
    → IsBound setup q
    → read name q.pending ≡ some (journaled old)
    → is_empty old.body.idempotency_key ≡ false
    → is_empty r.body.idempotency_key ≡ false
    → identity_of setup old ≡ claim_of setup r
    → old.fingerprint ≢ fingerprint_of setup r
    → enqueue setup now later id others q r ≡ (q, conflict)
unfolding enqueue
enqueue-conflict setup now later id others q r name old b e k k' same other =
    let h = b name old e in
    let held : claim_binds q (claim_of setup r) old.fingerprint ≡ true =
      subst (λ i. claim_binds q i old.fingerprint ≡ true) same (ground arith) in
    let refused =
      refused_by_live setup now q (claim_of setup r) (fingerprint_of setup r) name old e h.0 h.1
        held other in
    rw (refused, k') refl
