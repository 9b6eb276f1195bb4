-- ===== src/Streaming/Closing.antt =====
-- The end of an attempt: kazenai/streaming/lifecycle.py, `finalize` from the plan on.
use kazenai_core.Base.{
  Bool, true, false, not, ◌&&◌, Option, none, some, List, [], ◌∷◌, ◌++◌, if◌then◌else◌,
}
use kazenai_core.Base.Amount.{ℤ, pos}
use kazenai_core.Enforcement.{Enforcement, record_call}
use kazenai_core.Transitions.{
  Delivery, open_delivery, settled, pending_usage, exact_usage_pending_settlement,
  pending_reconciliation, classify_settlement_delivery,
}
use kazenai_core.Streaming.Usage.{StreamUsage, as_openai_style, observe_usage}
use kazenai_core.Streaming.Attempt.{
  StreamOutcome, Confidence, StreamAttempt, Reply, Callbacks, Effect, Plan, plan, unknown, acked,
  reconciles, marks, emits, exact, pending, held_for_reconciliation, exact_unsettled,
}

-- What the settlement of a plan came to.
pub record Settling : Type 0 where
  pub still_pending : Bool
  pub confidence : Confidence
  pub financial_ack : Bool
  pub effects : List Effect

abbrev pub unsettled : Plan → Bool → Settling
unsettled p ack = record {
  still_pending = p.is_pending;
  confidence = p.confidence;
  financial_ack = ack;
  effects = [];
}

abbrev pub is_acked : Reply → Bool
is_acked acked = true
is_acked _ = false

-- The call of `reconcile_fn`, where there is an obligation and the plan is not pending.
unfoldable pub settle : Option ℤ → Option (ℤ → ℤ → Reply) → Plan → Settling
settle none reconcile p = unsettled p (not p.is_pending)
settle (some reserved) none p = unsettled p (not p.is_pending)
settle (some reserved) (some reconcile) p =
    if p.is_pending
    then unsettled p false
    else if is_acked (reconcile reserved p.settle_cost)
    then record {
      still_pending = false;
      confidence = p.confidence;
      financial_ack = true;
      effects = reconciles reserved p.settle_cost ∷ [];
    }
    else record {
      still_pending = true;
      confidence = exact_unsettled;
      financial_ack = false;
      effects = reconciles reserved p.settle_cost ∷ [];
    }

-- The call of `pending_fn` in `finalize`, which is not awaited; an error of it is passed over.
abbrev pub mark_pending : Option ℤ → Bool → Bool → List Effect
mark_pending none marks_pending still_pending = []
mark_pending (some reserved) marks_pending still_pending =
    if still_pending && marks_pending then marks reserved ∷ [] else []

-- The last word of `classify_settlement_delivery` on a settlement.
unfoldable pub classified : Delivery → Bool × Confidence → Bool × Confidence
classified exact_usage_pending_settlement s = (true, exact_unsettled)
classified settled s = (false, exact)
classified open_delivery s = s
classified pending_usage s = s
classified pending_reconciliation s = s

-- `confidence == "pending_reconciliation" or confidence.startswith("exact")`.
abbrev pub counts : Confidence → Bool
counts exact = true
counts exact_unsettled = true
counts held_for_reconciliation = true
counts pending = false
counts unknown = false

abbrev pub tokens_used : StreamUsage → Option ℤ
tokens_used usage = elim (as_openai_style usage) [ none ↦ none | some u ↦ u.total_tokens ]

-- What is kept of an attempt, with the enforcement and the effects.
abbrev pub World : Type 0
World = StreamAttempt × Enforcement × List Effect

-- The local bookkeeping: the state of the settlement, the enforcement's call, and the event.
unfoldable pub complete_local : ℤ → Plan → Bool → Confidence → Bool → StreamUsage → World → World
unfolding classified
complete_local now p still_pending confidence ack usage (a, e, effects) =
    let (pending_flag, kept) =
      classified (classify_settlement_delivery true ack p.authoritative_usage)
        (still_pending, confidence) in
    (
      record a { financial_pending = pending_flag; cost_confidence = kept },
      (record_call now (some (if counts kept then p.settle_cost else pos 0)) false a.held_projection
          e).0,
      effects ++ (emits p.settle_cost (tokens_used usage) ∷ []),
    )

abbrev pub observed : Option StreamUsage → StreamUsage → StreamUsage
observed none old = old
observed (some u) old = observe_usage old u

-- The outcome and the last usage are noted.
abbrev pub note_outcome : StreamOutcome → Option StreamUsage → StreamAttempt → StreamAttempt
note_outcome outcome usage a = record a {
  terminal_outcome = some outcome;
  observed_usage = observed usage a.observed_usage;
}

abbrev pub plan_of : Callbacks → StreamOutcome → StreamAttempt → Plan
plan_of callbacks outcome a = plan callbacks a.pricing_call outcome a.observed_usage

unfoldable pub settle_and_complete :
    Callbacks → ℤ → StreamOutcome → StreamAttempt → Enforcement → World
unfolding settle
settle_and_complete callbacks now outcome a e =
    let p = plan_of callbacks outcome a in
    let s = settle a.reserved_cost callbacks.reconcile p in
    complete_local now p s.still_pending s.confidence s.financial_ack a.observed_usage
      (a, e, s.effects ++ mark_pending a.reserved_cost callbacks.marks_pending s.still_pending)

-- `finalize`: once only. A callback that is not awaited is not interrupted.
unfoldable pub finalize :
    Callbacks → ℤ → StreamOutcome → Option StreamUsage → StreamAttempt → Enforcement → World
unfolding settle_and_complete
finalize callbacks now outcome usage a e =
    if a.finalized
    then (a, e, [])
    else settle_and_complete callbacks now outcome
        (note_outcome outcome usage (record a { finalized = true })) e

-- Whether an exception leaves `finalize`: a control exception of the event's callback does.
unfoldable pub finalize_raises : Callbacks → StreamAttempt → Bool
finalize_raises callbacks a = not a.finalized && callbacks.event_raises
