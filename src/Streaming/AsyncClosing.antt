-- ===== src/Streaming/AsyncClosing.antt =====
-- The end of an attempt: kazenai/streaming/lifecycle.py, `finalize_async`, which has its own copy of the
-- steps of `finalize`.
use kazenai_core.Base.{
  Bool, true, false, not, ◌&&◌, ◌||◌, Option, none, some, List, [], ◌∷◌, ◌++◌, if◌then◌else◌,
  is_some,
}
use kazenai_core.Base.Amount.{ℤ, pos}
use kazenai_core.Enforcement.{Enforcement, record_call}
use kazenai_core.Transitions.{
  Delivery, settled, exact_usage_pending_settlement, classify_settlement_delivery,
}
use kazenai_core.Streaming.Usage.{StreamUsage, as_openai_style}
use kazenai_core.Streaming.Attempt.{
  StreamOutcome, Confidence, StreamAttempt, Reply, Callbacks, Effect, Plan, tier_hold, is_complete,
  is_rejected, acked, reconciles, marks, emits, exact, pending, held_for_reconciliation,
  exact_unsettled, not_acked, interrupted,
}
use kazenai_core.Streaming.Closing.{Settling, World, tokens_used, note_outcome}

-- The first part of `finalize_async`, under the lock: none where it returns at once.
unfoldable pub begin_async :
    StreamOutcome → Option StreamUsage → StreamAttempt → Option StreamAttempt
begin_async outcome usage a =
    if a.finalized || a.finalize_in_progress
    then none
    else some (note_outcome outcome usage (record a { finalize_in_progress = true }))

abbrev pub or_zero : Option ℤ → ℤ
or_zero none = pos 0
or_zero (some n) = n

-- The plan of `finalize_async`, of the cost that is held, and the cost of the usage.
unfoldable pub plan_by : Option ℤ → Option ℤ → StreamOutcome → Bool → Plan
plan_by hold cost outcome authoritative =
    if is_some hold && (is_complete outcome && authoritative)
    then record {
      settle_cost = or_zero hold;
      confidence = held_for_reconciliation;
      is_pending = true;
      authoritative_usage = false;
    }
    else if is_complete outcome && (authoritative && is_some cost)
    then record {
      settle_cost = or_zero cost;
      confidence = exact;
      is_pending = false;
      authoritative_usage = true;
    }
    else if is_rejected outcome
    then record {
      settle_cost = pos 0;
      confidence = exact;
      is_pending = false;
      authoritative_usage = false;
    }
    else record {
      settle_cost = pos 0;
      confidence = pending;
      is_pending = true;
      authoritative_usage = false;
    }

-- The call of `postcall_cost_fn` in `finalize_async`.
unfoldable pub cost_async : Callbacks → StreamUsage → Option ℤ
cost_async callbacks usage =
    if usage.authoritative
    then elim callbacks.postcall_cost [
      | none ↦ none
      | some price ↦ price usage (as_openai_style usage)
    ]
    else none

unfoldable pub plan_async : Callbacks → StreamOutcome → StreamAttempt → Plan
plan_async callbacks outcome a =
    plan_by (tier_hold a.pricing_call) (cost_async callbacks a.observed_usage) outcome
      a.observed_usage.authoritative

-- How the awaited settlement ends: with what it came to, or cancelled after its calls.
pub data Awaited : Type 0 where
  finished : Settling → Awaited
  cut : List Effect → Awaited

-- What an answer of the settlement comes to.
unfoldable pub awaited : ℤ → Plan → Reply → Awaited
awaited reserved p acked = finished (record {
  still_pending = p.is_pending;
  confidence = p.confidence;
  financial_ack = true;
  effects = reconciles reserved p.settle_cost ∷ [];
})
awaited reserved p not_acked = finished (record {
  still_pending = true;
  confidence = exact_unsettled;
  financial_ack = false;
  effects = reconciles reserved p.settle_cost ∷ [];
})
awaited reserved p interrupted = cut (reconciles reserved p.settle_cost ∷ [])

-- No call of a settlement; without an obligation a plan that is not pending is complete.
abbrev pub no_call : Plan → Bool → Awaited
no_call p has_obligation = finished (record {
  still_pending = p.is_pending;
  confidence = p.confidence;
  financial_ack = not has_obligation && not p.is_pending;
  effects = [];
})

-- The settlement of `finalize_async`.
unfoldable pub settle_async : Option ℤ → Option (ℤ → ℤ → Reply) → Plan → Awaited
settle_async none reconcile p = no_call p false
settle_async (some reserved) none p = no_call p false
settle_async (some reserved) (some reconcile) p =
    let answer = awaited reserved p (reconcile reserved p.settle_cost) in
    if p.is_pending then no_call p true else answer

-- How `_mark_pending_safe` ends: an Exception is passed over, and a cancelled await leaves it.
pub data Marking : Type 0 where
  passed escaped : List Effect → Marking

unfoldable pub mark_async : Callbacks → Option ℤ → Bool → Marking
mark_async callbacks none still_pending = passed []
mark_async callbacks (some reserved) still_pending =
    if not (still_pending && callbacks.marks_pending)
    then passed []
    else if callbacks.mark_cancelled
    then escaped (marks reserved ∷ [])
    else passed (marks reserved ∷ [])

-- What the delivery of a settlement makes of the two marks in `_complete_local`.
unfoldable pub pending_after : Delivery → Bool → Bool
pending_after exact_usage_pending_settlement still_pending = true
pending_after settled still_pending = false
pending_after _ still_pending = still_pending

unfoldable pub confidence_after : Delivery → Confidence → Confidence
confidence_after exact_usage_pending_settlement confidence = exact_unsettled
confidence_after settled confidence = exact
confidence_after _ confidence = confidence

-- Whether `_complete_local` records the cost.
unfoldable pub is_recorded : Confidence → Bool
is_recorded held_for_reconciliation = true
is_recorded exact = true
is_recorded exact_unsettled = true
is_recorded _ = false

-- `_complete_local`. What the event's callback raises is passed over.
unfoldable pub complete_async :
    ℤ → Plan → Bool → Confidence → Bool → StreamAttempt → Enforcement → List Effect → World
complete_async now p still_pending confidence ack a e effects =
    let delivery = classify_settlement_delivery true ack p.authoritative_usage in
    let kept = confidence_after delivery confidence in
    let recorded = if is_recorded kept then p.settle_cost else pos 0 in
    (
      record a {
        financial_pending = pending_after delivery still_pending;
        cost_confidence = kept;
        finalized = true;
        finalize_in_progress = false;
      },
      (record_call now (some recorded) false a.held_projection e).0,
      effects ++ (emits p.settle_cost (tokens_used a.observed_usage) ∷ []),
    )

-- The outer handler: an exception that left the mark leaves the attempt not final.
abbrev pub aborted : StreamAttempt → StreamAttempt
aborted a = record a {
  finalize_in_progress = false;
  financial_pending = true;
  cost_confidence = exact_unsettled;
}

-- The mark has ended, and the attempt is completed locally unless the mark was cancelled; true where an
-- exception leaves.
unfoldable pub after_mark :
    ℤ → Plan → Settling → (raises : Bool) → StreamAttempt → Enforcement → Marking → World × Bool
after_mark now p s raises a e (passed effects) = (
  complete_async now p s.still_pending s.confidence s.financial_ack a e (s.effects ++ effects),
  raises,
)
after_mark now p s raises a e (escaped effects) = ((aborted a, e, s.effects ++ effects), true)

-- What is left of a settlement that is cancelled: it is pending and not acknowledged.
abbrev pub cut_off : List Effect → Settling
cut_off effects = record {
  still_pending = true;
  confidence = exact_unsettled;
  financial_ack = false;
  effects = effects;
}

unfoldable pub after_settlement :
    Callbacks → ℤ → Plan → StreamAttempt → Enforcement → Awaited → World × Bool
after_settlement callbacks now p a e (finished s) =
    after_mark now p s false a e (mark_async callbacks a.reserved_cost s.still_pending)
after_settlement callbacks now p a e (cut effects) =
    after_mark now p (cut_off effects) true a e (mark_async callbacks a.reserved_cost true)

-- The part of `finalize_async` outside the lock: the world, and whether an exception leaves.
unfoldable pub finish_async :
    Callbacks → ℤ → StreamOutcome → StreamAttempt → Enforcement → World × Bool
finish_async callbacks now outcome a e =
    let p = plan_async callbacks outcome a in
    after_settlement callbacks now p a e (settle_async a.reserved_cost callbacks.reconcile p)

-- `finalize_async`.
unfoldable pub finalize_async :
    Callbacks → ℤ → StreamOutcome → Option StreamUsage → StreamAttempt → Enforcement → World × Bool
finalize_async callbacks now outcome usage a e = elim (begin_async outcome usage a) [
  | none ↦ (((a, e, [])), false)
  | some begun ↦ finish_async callbacks now outcome begun e
]
