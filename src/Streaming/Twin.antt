-- ===== src/Streaming/Twin.antt =====
-- `finalize_async` of kazenai/streaming/lifecycle.py beside `finalize`, and the second of two
-- calls.
use kazenai_core.Base.{
  ◌≡◌, refl, sym, ap, subst, ◌∙◌, inl, inr, Bool, true, false, ◌||◌, Option, some, List, [], ◌∷◌,
  ◌++◌, arith, Bool-cases, any, any-append,
}
use kazenai_core.Base.Amount.{ℤ, pos, negsuc}
use kazenai_core.Enforcement.{Enforcement}
use kazenai_core.Transitions.{int_eq, classify_settlement_delivery}
use kazenai_core.Streaming.Finished.{finalize-fresh}
use kazenai_core.Streaming.Usage.{StreamUsage}
use kazenai_core.Streaming.AsyncSteps.{
  is_interrupted, interrupted_end, end_async, finish-heard, finish-cut,
}
use kazenai_core.Streaming.Attempt.{
  StreamOutcome, StreamAttempt, Callbacks, Effect, marks, reconciles, emits, exact_unsettled,
}
use kazenai_core.Streaming.Closing.{
  World, complete_local, note_outcome, plan_of, settle, mark_pending, tokens_used,
  settle_and_complete, finalize, classified,
}
use kazenai_core.Streaming.AsyncClosing.{begin_async, finish_async, finalize_async}

pub afinalize-fresh :
    (callbacks : Callbacks) (now : ℤ) (outcome : StreamOutcome) (usage : Option StreamUsage)
    (a : StreamAttempt) (e : Enforcement)
    → a.finalized ≡ false
    → a.finalize_in_progress ≡ false
    → finalize_async callbacks now outcome usage a e
      ≡ finish_async callbacks now outcome
          (note_outcome outcome usage (record a { finalize_in_progress = true }))
          e
unfolding finalize_async begin_async
afinalize-fresh callbacks now outcome usage a e fresh idle = rw (fresh, idle) refl

same-end :
    (callbacks : Callbacks) (now : ℤ) (outcome : StreamOutcome) (usage : Option StreamUsage)
    (a : StreamAttempt) (e : Enforcement)
    → a.finalize_in_progress ≡ false
    → end_async (
        settle_and_complete callbacks now outcome
          (note_outcome outcome usage (record a { finalize_in_progress = true }))
          e)
      ≡ settle_and_complete callbacks now outcome
          (note_outcome outcome usage (record a { finalized = true }))
          e
unfolding settle_and_complete complete_local
same-end callbacks now outcome usage a e idle = sym (
    ap
      (λ b.
        settle_and_complete callbacks now outcome
          (note_outcome outcome usage (record a { finalized = true; finalize_in_progress = b })) e)
      idle)

-- Once an attempt is final, neither kind of `finalize` changes anything or calls anyone, whatever
-- its outcome.
pub finalize-final :
    (callbacks : Callbacks) (now : ℤ) (outcome : StreamOutcome) (usage : Option StreamUsage)
    (a : StreamAttempt) (e : Enforcement)
    → a.finalized ≡ true
    → (finalize callbacks now outcome usage a e ≡ (a, e, []))
      × (finalize_async callbacks now outcome usage a e ≡ ((a, e, []), false))
unfolding finalize finalize_async begin_async
finalize-final callbacks now outcome usage a e done = (ground (arith, done), ground (arith, done))

-- The two kinds of `finalize` do the same, when none is under way and neither the await of the
-- settlement nor that of the pending mark is cancelled: the same state of the attempt and of the
-- enforcement, and the same calls in the same order; and no exception leaves `finalize_async`, also
-- where one of the event's callback leaves `finalize`.
pub finalize_async-finalize :
    (callbacks : Callbacks) (now : ℤ) (outcome : StreamOutcome) (usage : Option StreamUsage)
    (a : StreamAttempt) (e : Enforcement)
    → a.finalize_in_progress ≡ false
    → callbacks.mark_cancelled ≡ false
    → is_interrupted a.reserved_cost callbacks.reconcile
        (plan_of callbacks outcome (note_outcome outcome usage a))
      ≡ false
    → finalize_async callbacks now outcome usage a e
      ≡ (finalize callbacks now outcome usage a e, false)
finalize_async-finalize callbacks now outcome usage a e idle marked heard =
    elim (Bool-cases a.finalized) [
      | inl h ↦
          let (sync, async) = finalize-final callbacks now outcome usage a e h in
          async ∙ ap (λ w. (w, false)) (sym sync)
      | inr h ↦
          afinalize-fresh callbacks now outcome usage a e h idle
          ∙ finish-heard callbacks now outcome
              (note_outcome outcome usage (record a { finalize_in_progress = true })) e marked heard
          ∙ ap (λ w. (w, false))
              (same-end callbacks now outcome usage a e idle
                ∙ sym (finalize-fresh callbacks now outcome usage a e h))
    ]

abbrev is_mark : ℤ → Effect → Bool
is_mark reserved (marks r) = int_eq r reserved
is_mark reserved (reconciles r cost) = false
is_mark reserved (emits cost tokens) = false

-- What a cancelled settlement leaves: the attempt is final, its cost pending, and its reservation
-- marked.
pub record IsStranded (callbacks : Callbacks) (reserved : ℤ) (w : World) : Type 0 where
  pub final : w.0.finalized ≡ true
  pub idle : w.0.finalize_in_progress ≡ false
  pub owed : w.0.financial_pending ≡ true
  pub sure : w.0.cost_confidence ≡ exact_unsettled
  pub marked : callbacks.marks_pending ≡ true → any (is_mark reserved) w.2 ≡ true

int_eq_refl : (n : ℤ) → int_eq n n ≡ true
unfolding int_eq
int_eq_refl (pos n) = ground arith
int_eq_refl (negsuc n) = ground arith

classified-cut :
    (by_usage : Bool)
    → classified (classify_settlement_delivery true false by_usage) (true, exact_unsettled)
      ≡ (true, exact_unsettled)
unfolding classified classify_settlement_delivery
classified-cut by_usage = ground arith

or_true : (a b : Bool) → ((a || true) || b) ≡ true
or_true a b = ground arith

mark_pending-hit :
    (callbacks : Callbacks) (reserved : ℤ) (held : Option ℤ) (before after : List Effect)
    → held ≡ some reserved
    → callbacks.marks_pending ≡ true
    → any (is_mark reserved) ((before ++ mark_pending held callbacks.marks_pending true) ++ after)
      ≡ true
mark_pending-hit callbacks reserved held before after e can =
    let one : any (is_mark reserved) (mark_pending held callbacks.marks_pending true) ≡ true =
      rw (e, can, int_eq_refl reserved) refl in
    rw
      (
        any-append (is_mark reserved) (before ++ mark_pending held callbacks.marks_pending true)
            after,
        any-append (is_mark reserved) before (mark_pending held callbacks.marks_pending true),
        one,
      )
      (or_true (any (is_mark reserved) before) (any (is_mark reserved) after))

interrupted-IsStranded :
    (callbacks : Callbacks) (now reserved : ℤ) (outcome : StreamOutcome) (a : StreamAttempt)
    (e : Enforcement)
    → a.reserved_cost ≡ some reserved
    → IsStranded callbacks reserved (end_async (interrupted_end callbacks now outcome a e))
unfolding interrupted_end complete_local
interrupted-IsStranded callbacks now reserved outcome a e held =
    let p = plan_of callbacks outcome a in
    record {
      final = refl;
      idle = refl;
      owed = ap (λ s. s.0) (classified-cut p.authoritative_usage);
      sure = ap (λ s. s.1) (classified-cut p.authoritative_usage);
      marked =
          mark_pending-hit callbacks reserved a.reserved_cost
            (settle a.reserved_cost callbacks.reconcile p).effects
            (emits p.settle_cost (tokens_used a.observed_usage) ∷ []) held;
    }

-- On an attempt that is not final nor under way and has a reservation, a settlement whose await is
-- cancelled raises, and leaves nothing stranded, unless the await of the pending mark is cancelled as
-- well: the attempt is final and not under way, its cost is pending, and its reservation is marked so
-- where there is a way to mark it.
pub finalize_async-interrupted :
    (callbacks : Callbacks) (now reserved : ℤ) (outcome : StreamOutcome)
    (usage : Option StreamUsage) (a : StreamAttempt) (e : Enforcement)
    → a.finalized ≡ false
    → a.finalize_in_progress ≡ false
    → a.reserved_cost ≡ some reserved
    → callbacks.mark_cancelled ≡ false
    → is_interrupted a.reserved_cost callbacks.reconcile
        (plan_of callbacks outcome (note_outcome outcome usage a))
      ≡ true
    → ((finalize_async callbacks now outcome usage a e).1 ≡ true)
      × IsStranded callbacks reserved (finalize_async callbacks now outcome usage a e).0
finalize_async-interrupted callbacks now reserved outcome usage a e fresh idle held marked stops =
    let begun = note_outcome outcome usage (record a { finalize_in_progress = true }) in
    let path =
      afinalize-fresh callbacks now outcome usage a e fresh idle
      ∙ finish-cut callbacks now outcome begun e marked stops in
    (
      ap (λ w. w.1) path,
      subst (IsStranded callbacks reserved) (sym (ap (λ w. w.0) path))
          (interrupted-IsStranded callbacks now reserved outcome begun e held),
    )
