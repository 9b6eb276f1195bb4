-- ===== src/SettleQueue/Acquire.antt =====
-- What `_acquire_claim`, `_remove_claim_if` and `_release_claim_for` of
-- kazenai/spine/settle_queue.py leave behind.
use kazenai_core.Base.{
  if_cases, ◌≢◌, ℕ, zero, suc, ◌≡◌, refl, sym, subst, inl, inr, Bool, true, false, none, some,
  String, arith, str_eq, eq_iff, Bool-cases, Option-cases,
}
use kazenai_core.Base.Text.{is_empty}
use kazenai_core.Base.Dir.{Dir, read, write, delete, exists}
use kazenai_core.SettleQueue.Intent.{claim_name}
use kazenai_core.SettleQueue.Claims.{
  File, Record, journaled, bound, Queue, Setup, read_claim, claim_binds, claim_is_orphaned,
  remove_claim_if, claim_rounds, acquire_claim, identity_of, release_claim_for,
}
use kazenai_core.SettleQueue.Bindings.{
  AllHold, Covers, claim_binds-read, claim_binds-write, remove-AllHold, write-AllHold, orphan-free,
  remove_claim_if_hit,
}

-- After an attempt to claim: the records are as they were and hold their claims, and a claim that
-- was granted is there.
pub record Claimed (setup : Setup) (view : Dir File) (q : Queue) (identity fp : String)
    (r : Queue × Bool) : Type 0 where
  pub same : r.0.pending ≡ q.pending
  pub sound : AllHold setup view r.0
  pub granted : r.1 ≡ true → claim_binds r.0 identity fp ≡ true

module _ (setup : Setup) (view : Dir File) (now : ℕ) (identity fp : String) where
  refused-Claimed : (q : Queue) → AllHold setup view q → Claimed setup view q identity fp (q, false)
  refused-Claimed q b = record { same = refl; sound = b; granted = λ e. cc }

  linked-Claimed :
      (q : Queue)
      → AllHold setup view q
      → read_claim q (claim_name identity) ≡ none
      → Claimed setup view q identity fp
          (record q { claims = write (claim_name identity) (bound fp now) q.claims }, true)
  linked-Claimed q b e = record {
    same = refl;
    sound = write-AllHold setup view q (claim_name identity) fp now e b;
    granted = λ _. ground (
      arith,
      claim_binds-write q (claim_name identity) identity fp fp now,
      (eq_iff (claim_name identity) (claim_name identity)).1 refl,
      (eq_iff fp fp).1 refl,
    );
  }

  held-Claimed :
      (q : Queue) (claim : String × ℕ)
      → AllHold setup view q
      → read_claim q (claim_name identity) ≡ some claim
      → str_eq claim.0 fp ≡ true
      → Claimed setup view q identity fp (q, true)
  unfolding claim_binds
  held-Claimed q claim b e mine = record {
    same = refl;
    sound = b;
    granted = λ _. rw (e, claim_binds) mine;
  }

  after_removal-Claimed :
      (q : Queue) (claim : String × ℕ)
      → read_claim q (claim_name identity) ≡ some claim
      → (n : ℕ)
      → Claimed setup view
          (record q { claims = delete (claim_name identity) q.claims })
          identity
          fp
          (claim_rounds setup now
            (claim_name identity)
            fp
            n
            (record q { claims = delete (claim_name identity) q.claims }))
      → Claimed setup view q identity fp (
          claim_rounds setup now
            (claim_name identity)
            fp
            n
            (remove_claim_if q (claim_name identity) claim.0).0)
  after_removal-Claimed q claim e n c =
      subst
        (λ k.
          Claimed setup view q identity fp (claim_rounds setup now (claim_name identity) fp n k))
        (sym (remove_claim_if_hit q (claim_name identity) claim e))
        (record { same = c.same; sound = c.sound; granted = c.granted })

  rounds-Claimed :
      (n : ℕ) (q : Queue)
      → Covers view q.pending
      → AllHold setup view q
      → Claimed setup view q identity fp (claim_rounds setup now (claim_name identity) fp n q)
  unfolding claim_rounds
  rounds-Claimed zero q cover b = refused-Claimed q b
  rounds-Claimed (suc n) q cover b = elim (Option-cases (read_claim q (claim_name identity))) [
    | inl e ↦ elim (Bool-cases (exists (claim_name identity) q.claims)) [
      | inl taken ↦ rw (e, taken, claim_rounds) (rounds-Claimed n q cover b)
      | inr free ↦ rw (e, free, claim_rounds) (linked-Claimed q b e)
    ]
    | inr (claim, e) ↦ elim (Bool-cases (str_eq claim.0 fp)) [
      | inl mine ↦ rw (e, mine, claim_rounds) (held-Claimed q claim b e mine)
      | inr other ↦ elim (Bool-cases (claim_is_orphaned setup now q claim)) [
        | inl orphan ↦
            let removed = record q { claims = delete (claim_name identity) q.claims } in
            rw (e, other, orphan, claim_rounds)
              (after_removal-Claimed q claim e n (
                rounds-Claimed n removed cover (
                  remove-AllHold setup view q (claim_name identity)
                    (orphan-free setup view now q (claim_name identity) claim e orphan cover b) b)))
        | inr live ↦ rw (e, other, live, claim_rounds) (refused-Claimed q b)
      ]
    ]
  ]

  pub acquire_claim-Claimed :
      (q : Queue)
      → Covers view q.pending
      → AllHold setup view q
      → Claimed setup view q identity fp (acquire_claim setup now q identity fp)
  unfolding acquire_claim
  acquire_claim-Claimed q cover b = rounds-Claimed 8 q cover b

-- A claim may be removed by a fingerprint that no record has.
pub remove_claim_if-AllHold :
    (setup : Setup) (view : Dir File) (q : Queue) (name fp : String)
    → ((n : String) (s : Record) → read n view ≡ some (journaled s) → s.fingerprint ≢ fp)
    → AllHold setup view q
    → AllHold setup view (remove_claim_if q name fp).0
unfolding remove_claim_if
remove_claim_if-AllHold setup view q name fp free b = elim (Option-cases (read_claim q name)) [
  | inl e ↦ rw (e, remove_claim_if) b
  | inr (claim, e) ↦ elim (Bool-cases (str_eq claim.0 fp)) [
    | inl hit ↦
        rw (e, hit, remove_claim_if) (remove-AllHold setup view q name (unheld claim e hit) b)
    | inr miss ↦ rw (e, miss, remove_claim_if) b
  ]
]
  where
    unheld :
        (claim : String × ℕ)
        → read_claim q name ≡ some claim
        → str_eq claim.0 fp ≡ true
        → (n : String) (s : Record) → read n view ≡ some (journaled s)
        → claim_name (identity_of setup s) ≡ name
        → is_empty s.body.idempotency_key ≡ true
    unheld claim e hit n s there same =
        let (placed, named, held) = b n s there in
        let apart = free n s there in
        ground (
          arith,
          claim_binds-read q (identity_of setup s) s.fingerprint,
          eq_iff claim.0 s.fingerprint,
          eq_iff claim.0 fp,
        )

pub release_claim_for-AllHold :
    (setup : Setup) (view : Dir File) (q : Queue) (r : Record)
    → ((n : String) (s : Record) → read n view ≡ some (journaled s) → s.fingerprint ≢ r.fingerprint)
    → AllHold setup view q
    → AllHold setup view (release_claim_for setup q r)
unfolding release_claim_for
release_claim_for-AllHold setup view q r free b =
    if_cases (AllHold setup view) (is_empty r.body.idempotency_key) (λ _. b)
      λ _.
        remove_claim_if-AllHold setup view q (claim_name (identity_of setup r)) r.fingerprint free b
