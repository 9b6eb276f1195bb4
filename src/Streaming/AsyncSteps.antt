-- ===== src/Streaming/AsyncSteps.antt =====
-- The steps of `finalize_async` of kazenai/streaming/lifecycle.py beside those of `finalize`.
use kazenai_core.Base.{
  ◌≡◌, refl, sym, ap, ◌∙◌, inl, inr, Bool, true, false, Option, some, List, [], ◌∷◌, ◌++◌, not,
  ◌&&◌, none, if◌then◌else◌, Bool-cases,
}
use kazenai_core.Base.Amount.{ℤ, pos}
use kazenai_core.Enforcement.{Enforcement, record_call}
use kazenai_core.Transitions.{
  classify_settlement_delivery, Delivery, settled, open_delivery, pending_usage,
  exact_usage_pending_settlement, pending_reconciliation,
}
use kazenai_core.Streaming.Usage.{StreamUsage, as_openai_style}
use kazenai_core.Streaming.Attempt.{
  StreamOutcome, StreamAttempt, Callbacks, Effect, marks, reconciles, emits, exact_unsettled,
  Confidence, exact, unknown, pending, held_for_reconciliation, Plan, plan, plan_exact,
  plan_unpriced, cost_of, tier_hold, is_complete, Reply, acked, not_acked, interrupted,
}
use kazenai_core.Streaming.Closing.{
  World, complete_local, plan_of, settle, mark_pending, tokens_used, settle_and_complete,
  classified, counts, Settling, is_acked, unsettled,
}
use kazenai_core.Streaming.AsyncClosing.{
  finish_async, plan_async, plan_by, cost_async, finished, cut, awaited, settle_async, passed,
  escaped, mark_async, pending_after, confidence_after, is_recorded, complete_async, after_mark,
  after_settlement, cut_off, no_call,
}

drop_false : (a b : Bool) (x y : Plan) → (if a && (b && false) then x else y) ≡ y
drop_false true true x y = refl
drop_false true false x y = refl
drop_false false b x y = refl

keep_true :
    (a b : Bool) (x y : Plan) → (if a && (b && true) then x else y) ≡ (if a && b then x else y)
keep_true true true x y = refl
keep_true true false x y = refl
keep_true false b x y = refl

under_price :
    {A : Type 0} (o : Option A) (b : Bool) (k : A → Option ℤ)
    → (if b then elim o [ none ↦ none | some f ↦ k f ] else none)
      ≡ (elim o [ none ↦ none | some f ↦ if b then k f else none ])
under_price none true k = refl
under_price none false k = refl
under_price (some f) b k = refl

else_of {ℓ} :
    {A : Type ℓ} (b : Bool) (x y : A) {r : A} → b ≡ false → (if b then x else y) ≡ r → y ≡ r
else_of b x y e h = ap (λ c. if c then x else y) (sym e) ∙ h

-- What `plan` makes of the two costs.
plan_by-plan :
    (hold cost : Option ℤ) (outcome : StreamOutcome) (usage : StreamUsage)
    → plan_by hold cost outcome usage.authoritative ≡ (elim hold [
      | none ↦ plan_exact outcome usage cost
      | some held ↦
          if is_complete outcome && usage.authoritative
          then record {
            settle_cost = held;
            confidence = held_for_reconciliation;
            is_pending = true;
            authoritative_usage = false;
          }
          else plan_exact outcome usage cost
    ])
unfolding plan_by plan_exact plan_unpriced
plan_by-plan none none outcome usage = drop_false (is_complete outcome) usage.authoritative _ _
plan_by-plan none (some c) outcome usage = keep_true (is_complete outcome) usage.authoritative _ _
plan_by-plan (some h) none outcome usage =
    ap
      (λ (p : Plan).
        if is_complete outcome && usage.authoritative
        then record {
          settle_cost = h;
          confidence = held_for_reconciliation;
          is_pending = true;
          authoritative_usage = false;
        }
        else p)
      (drop_false (is_complete outcome) usage.authoritative _ _)
plan_by-plan (some h) (some c) outcome usage =
    ap
      (λ (p : Plan).
        if is_complete outcome && usage.authoritative
        then record {
          settle_cost = h;
          confidence = held_for_reconciliation;
          is_pending = true;
          authoritative_usage = false;
        }
        else p)
      (keep_true (is_complete outcome) usage.authoritative _ _)

cost_async-cost_of :
    (callbacks : Callbacks) (usage : StreamUsage)
    → cost_async callbacks usage ≡ cost_of callbacks usage
unfolding cost_async cost_of
cost_async-cost_of callbacks usage =
    under_price callbacks.postcall_cost usage.authoritative
      (λ price. price usage (as_openai_style usage))

plan_async-plan_of :
    (callbacks : Callbacks) (outcome : StreamOutcome) (a : StreamAttempt)
    → plan_async callbacks outcome a ≡ plan_of callbacks outcome a
unfolding plan_async plan
plan_async-plan_of callbacks outcome a =
    ap (λ c. plan_by (tier_hold a.pricing_call) c outcome a.observed_usage.authoritative)
      (cost_async-cost_of callbacks a.observed_usage)
    ∙ plan_by-plan (tier_hold a.pricing_call) (cost_of callbacks a.observed_usage) outcome
        a.observed_usage

-- Whether the await of the settlement is cancelled.
unfoldable pub is_interrupted : Option ℤ → Option (ℤ → ℤ → Reply) → Plan → Bool
is_interrupted none reconcile p = false
is_interrupted (some reserved) none p = false
is_interrupted (some reserved) (some reconcile) p =
    if p.is_pending then false else elim (reconcile reserved p.settle_cost) [
      | acked ↦ false
      | not_acked ↦ false
      | interrupted ↦ true
    ]

answered :
    (reserved : ℤ) (p : Plan) (reply : Reply)
    → p.is_pending ≡ false
    → (elim reply [ acked ↦ false | not_acked ↦ false | interrupted ↦ true ]) ≡ false
    → awaited reserved p reply
      ≡ finished (
          if is_acked reply
          then record {
            still_pending = false;
            confidence = p.confidence;
            financial_ack = true;
            effects = reconciles reserved p.settle_cost ∷ [];
          }
          else record {
            still_pending = true;
            confidence = exact_unsettled;
            financial_ack = false;
            effects = reconciles reserved p.settle_cost ∷ [];
          })
unfolding awaited
answered reserved p acked known heard = rw (known) refl
answered reserved p not_acked known heard = refl
answered reserved p interrupted known heard = absurd (cc)

-- A settlement by what is answered.
abbrev settled_by : Plan → ℤ → Reply → Settling
settled_by p reserved reply =
    if is_acked reply
    then record {
      still_pending = false;
      confidence = p.confidence;
      financial_ack = true;
      effects = reconciles reserved p.settle_cost ∷ [];
    }
    else record {
      still_pending = true;
      confidence = exact_unsettled;
      financial_ack = false;
      effects = reconciles reserved p.settle_cost ∷ [];
    }

false_ne : false ≡ true → ⊥
false_ne h = absurd (cc)

settle_async-settle :
    (held : Option ℤ) (reconcile : Option (ℤ → ℤ → Reply)) (p : Plan)
    → is_interrupted held reconcile p ≡ false
    → settle_async held reconcile p ≡ finished (settle held reconcile p)
unfolding settle_async settle is_interrupted
settle_async-settle none reconcile p heard = refl
settle_async-settle (some reserved) none p heard = refl
settle_async-settle (some reserved) (some reconcile) p heard = elim (Bool-cases p.is_pending) [
  | inl waits ↦ rw (waits) refl
  | inr known ↦
      ap (λ b. if b then no_call p true else awaited reserved p (reconcile reserved p.settle_cost))
        known
      ∙ answered reserved p (reconcile reserved p.settle_cost) known
          (else_of p.is_pending false _ known heard)
      ∙ ap
          (λ b. finished (
            if b
            then unsettled p false
            else settled_by p reserved (reconcile reserved p.settle_cost)))
          (sym known)
]

cut_short :
    (b : Bool) (reply : Reply)
    → (if b then false else elim reply [ acked ↦ false | not_acked ↦ false | interrupted ↦ true ])
      ≡ true
    → (b ≡ false) × (reply ≡ interrupted)
cut_short true reply h = absurd (cc)
cut_short false acked h = absurd (cc)
cut_short false not_acked h = absurd (cc)
cut_short false interrupted h = (refl, refl)

settle_async-cut :
    (held : Option ℤ) (reconcile : Option (ℤ → ℤ → Reply)) (p : Plan)
    → is_interrupted held reconcile p ≡ true
    → settle_async held reconcile p ≡ cut (settle held reconcile p).effects
unfolding settle_async settle is_interrupted awaited
settle_async-cut none reconcile p h = absurd (cc)
settle_async-cut (some reserved) none p h = absurd (cc)
settle_async-cut (some reserved) (some reconcile) p h =
    let (known, stops) = cut_short p.is_pending (reconcile reserved p.settle_cost) h in
    rw (known, stops) refl

marked_lem :
    (reserved : ℤ) (b : Bool)
    → (if not b
        then passed []
        else if false
        then escaped (marks reserved ∷ [])
        else passed (marks reserved ∷ []))
      ≡ passed (if b then marks reserved ∷ [] else [])
marked_lem reserved true = refl
marked_lem reserved false = refl

mark_async-mark_pending :
    (callbacks : Callbacks) (held : Option ℤ) (still : Bool)
    → callbacks.mark_cancelled ≡ false
    → mark_async callbacks held still ≡ passed (mark_pending held callbacks.marks_pending still)
unfolding mark_async
mark_async-mark_pending callbacks none still heard = refl
mark_async-mark_pending callbacks (some reserved) still heard =
    rw (heard) (marked_lem reserved (still && callbacks.marks_pending))

-- The attempt is final, and nothing of its end is under way.
abbrev pub end_async : World → World
end_async (a, e, effects) =
    (record a { finalized = true; finalize_in_progress = false }, e, effects)

after-classified :
    (d : Delivery) (still : Bool) (c : Confidence)
    → (pending_after d still, confidence_after d c) ≡ classified d (still, c)
unfolding pending_after confidence_after classified
after-classified exact_usage_pending_settlement still c = refl
after-classified settled still c = refl
after-classified open_delivery still c = refl
after-classified pending_usage still c = refl
after-classified pending_reconciliation still c = refl

recorded-counts : (c : Confidence) → is_recorded c ≡ counts c
unfolding is_recorded
recorded-counts unknown = refl
recorded-counts exact = refl
recorded-counts pending = refl
recorded-counts held_for_reconciliation = refl
recorded-counts exact_unsettled = refl

complete_async-complete_local :
    (now : ℤ) (p : Plan) (still : Bool) (c : Confidence) (ack : Bool) (a : StreamAttempt)
    (e : Enforcement) (effects : List Effect)
    → complete_async now p still c ack a e effects
      ≡ end_async (complete_local now p still c ack a.observed_usage (a, e, effects))
unfolding complete_async complete_local
complete_async-complete_local now p still c ack a e effects =
    let d = classify_settlement_delivery true ack p.authoritative_usage in
    rw (recorded-counts (confidence_after d c)) (
      ap
        (λ (m : Bool × Confidence). end_async (
          record a { financial_pending = m.0; cost_confidence = m.1 },
          (record_call now (some (if counts (m.1) then p.settle_cost else pos 0)) false
              a.held_projection e).0,
          effects ++ (emits p.settle_cost (tokens_used a.observed_usage) ∷ []),
        ))
        (after-classified d still c))

pub finish-heard :
    (callbacks : Callbacks) (now : ℤ) (outcome : StreamOutcome) (a : StreamAttempt)
    (e : Enforcement)
    → callbacks.mark_cancelled ≡ false
    → is_interrupted a.reserved_cost callbacks.reconcile (plan_of callbacks outcome a) ≡ false
    → finish_async callbacks now outcome a e
      ≡ (end_async (settle_and_complete callbacks now outcome a e), false)
unfolding finish_async after_settlement after_mark settle_and_complete
finish-heard callbacks now outcome a e marked heard =
    let p = plan_of callbacks outcome a in
    let s = settle a.reserved_cost callbacks.reconcile p in
    ap
      (λ q.
        after_settlement callbacks now q a e (settle_async a.reserved_cost callbacks.reconcile q))
      (plan_async-plan_of callbacks outcome a)
    ∙ ap (after_settlement callbacks now p a e)
        (settle_async-settle a.reserved_cost callbacks.reconcile p heard)
    ∙ ap (after_mark now p s false a e)
        (mark_async-mark_pending callbacks a.reserved_cost s.still_pending marked)
    ∙ ap (λ w. (w, false)) (complete_async-complete_local now p _ _ _ a e _)

-- A settlement that is cancelled marks the reservation pending, completes, and raises again.
unfoldable pub interrupted_end : Callbacks → ℤ → StreamOutcome → StreamAttempt → Enforcement → World
interrupted_end callbacks now outcome a e =
    let p = plan_of callbacks outcome a in
    let s = settle a.reserved_cost callbacks.reconcile p in
    complete_local now p true exact_unsettled false a.observed_usage
      (a, e, s.effects ++ mark_pending a.reserved_cost callbacks.marks_pending true)

pub finish-cut :
    (callbacks : Callbacks) (now : ℤ) (outcome : StreamOutcome) (a : StreamAttempt)
    (e : Enforcement)
    → callbacks.mark_cancelled ≡ false
    → is_interrupted a.reserved_cost callbacks.reconcile (plan_of callbacks outcome a) ≡ true
    → finish_async callbacks now outcome a e
      ≡ (end_async (interrupted_end callbacks now outcome a e), true)
unfolding finish_async after_settlement after_mark interrupted_end
finish-cut callbacks now outcome a e marked cuts =
    let p = plan_of callbacks outcome a in
    let s = settle a.reserved_cost callbacks.reconcile p in
    ap
      (λ q.
        after_settlement callbacks now q a e (settle_async a.reserved_cost callbacks.reconcile q))
      (plan_async-plan_of callbacks outcome a)
    ∙ ap (after_settlement callbacks now p a e)
        (settle_async-cut a.reserved_cost callbacks.reconcile p cuts)
    ∙ ap (after_mark now p (cut_off s.effects) true a e)
        (mark_async-mark_pending callbacks a.reserved_cost true marked)
    ∙ ap (λ w. (w, true)) (complete_async-complete_local now p _ _ _ a e _)
