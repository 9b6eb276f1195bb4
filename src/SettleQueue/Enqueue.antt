-- ===== src/SettleQueue/Enqueue.antt =====
-- `enqueue` of kazenai/spine/settle_queue.py, whatever other processes do while it writes.
use kazenai_core.Base.{
  ℕ, ◌≡◌, refl, sym, ap, subst, ◌∙◌, true, false, ◌||◌, none, some, String, arith, str_eq, eq_iff,
  if_cases,
}
use kazenai_core.Base.Text.{is_empty}
use kazenai_core.Base.Dir.{Dir, read, write, delete, read-write, read-delete}
use kazenai_core.SettleQueue.Intent.{Digests, Material, record_name}
use kazenai_core.SettleQueue.Claims.{
  File, journaled, Record, Queue, Setup, claim_binds, acquire_claim, identity_of,
}
use kazenai_core.SettleQueue.Bindings.{Holds, AllHold, IsBound, Covers}
use kazenai_core.SettleQueue.Acquire.{acquire_claim-Claimed}
use kazenai_core.SettleQueue.Journal.{delete-AllHold, write-IsBound}
use kazenai_core.SettleQueue.{
  Body, Request, claim_of, ack, Journaling, written, kept, conflict, publish,
}

-- A hash is never the empty text.
abbrev pub HasText : Digests → Type 0
HasText digests = (m : Material) → is_empty (digests.of_material m) ≡ false

-- What `publish` leaves behind, on each outcome.
abbrev pub Published : Setup → Request → Record → Queue → Journaling → Type 0
Published setup r new t written =
    IsBound setup t × (read (record_name new.fingerprint) t.pending ≡ some (journaled new))
Published setup r new t kept = ⊥
Published setup r new t conflict =
    IsBound setup t × (read (record_name new.fingerprint) t.pending ≡ none)

ack_withdraw :
    (setup : Setup) (t : Queue) (name : String) (new : Record)
    → read name t.pending ≡ some (journaled new)
    → (ack setup t name new.fingerprint false).0 ≡ record t { pending = delete name t.pending }
unfolding ack
ack_withdraw setup t name new e = ground (arith, (eq_iff new.fingerprint new.fingerprint).1 refl)

module _ (setup : Setup) (now : ℕ) (q : Queue) (r : Request) (new : Record)
    (text : is_empty new.fingerprint ≡ false) (identity : identity_of setup new ≡ claim_of setup r)
    (body : new.body ≡ r.body) (b : IsBound setup q) where
  abbrev name : String
  name = record_name new.fingerprint

  abbrev written_q : Queue
  written_q = record q { pending = write name (journaled new) q.pending }

  -- The records of others, before and after.
  abbrev view : Dir File
  view = delete name q.pending

  there : read name written_q.pending ≡ some (journaled new)
  there = ground (arith, read-write name name (journaled new) q.pending, (eq_iff name name).1 refl)

  others :
      (n : String) (s : Record)
      → str_eq name n ≡ false
      → read n written_q.pending ≡ some (journaled s)
      → read n view ≡ some (journaled s)
  others n s other e =
      ground (arith, read-write name n (journaled new) q.pending, read-delete name n q.pending)

  covered : Covers view written_q.pending
  covered n s e =
      ground (arith, read-write name n (journaled new) q.pending, read-delete name n q.pending)

  others-hold : AllHold setup view written_q
  unfolding claim_binds
  others-hold = delete-AllHold setup q name b

  Holds-new :
      (t : Queue)
      → (is_empty r.body.idempotency_key || claim_binds t (claim_of setup r) new.fingerprint) ≡ true
      → Holds setup t name new
  Holds-new t h = (
    refl,
    text,
    subst
        (λ (k : Body).
          (is_empty k.idempotency_key || claim_binds t (identity_of setup new) new.fingerprint)
          ≡ true)
        (sym body)
        (subst (λ k. (is_empty r.body.idempotency_key || claim_binds t k new.fingerprint) ≡ true)
          (sym identity) h),
  )

  withdrawn-IsBound :
      (t : Queue)
      → t.pending ≡ written_q.pending
      → AllHold setup view t
      → Published setup r new (ack setup t name new.fingerprint false).0 conflict
  unfolding claim_binds
  withdrawn-IsBound t same sound =
      subst (λ k. Published setup r new k conflict)
        (sym (ack_withdraw setup t name new (ap (read name) same ∙ there)))
        (
          λ n s e. sound n s (only n s e),
          ground (arith, read-delete name name t.pending, (eq_iff name name).1 refl),
        )
    where
      only :
          (n : String) (s : Record)
          → read n (delete name t.pending) ≡ some (journaled s)
          → read n view ≡ some (journaled s)
      only n s e =
          let kept : read n t.pending ≡ some (journaled s) =
            ground (arith, read-delete name n t.pending) in
          others n s (ground (arith, read-delete name n t.pending)) (ap (read n) (sym same) ∙ kept)

  pub publish-Published : let t = publish setup now q r new in Published setup r new t.0 t.1
  unfolding publish
  publish-Published =
      let c =
        acquire_claim-Claimed setup view now (claim_of setup r) new.fingerprint written_q covered
          others-hold in
      if_cases P
        (is_empty r.body.idempotency_key
          || claim_binds written_q (claim_of setup r) new.fingerprint)
        (λ h. (
          write-IsBound setup view written_q name new others others-hold (Holds-new written_q h)
              there,
          there,
        ))
        λ _.
          if_cases P (acquire_claim setup now written_q (claim_of setup r) new.fingerprint).1
            (λ h. (
              write-IsBound setup view _ name new
                  (λ n s other e. others n s other (ap (read n) (sym c.same) ∙ e)) c.sound
                  (Holds-new _ (ground (arith, c.granted h))) (ap (read name) c.same ∙ there),
              ap (read name) c.same ∙ there,
            ))
            (λ _. withdrawn-IsBound _ c.same c.sound)
    where
      P : Queue × Journaling → Type 0
      P t = Published setup r new t.0 t.1
