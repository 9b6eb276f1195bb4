-- ===== src/Streaming/Attempt.antt =====
-- `StreamAttempt` of kazenai/streaming/lifecycle.py: its state, and `finalize` and
-- `finalize_async`. A local enforcement is passed beside it, and what leaves the process is a list
-- of effects.
use kazenai_core.Base.{
  ℕ, ◌+◌, ◌*◌, ◌/◌, max, Bool, true, false, not, ◌&&◌, Option, none, some, if◌then◌else◌, leb, ◌==◌,
}
use kazenai_core.Base.Amount.{ℤ, pos}
use kazenai_core.Streaming.Usage.{StreamUsage, OpenaiUsage, as_openai_style}

pub data StreamOutcome : Type 0 where
  complete cutoff client_cancelled provider_error rejected transport_error unknown_outcome :
      StreamOutcome

-- The texts of `cost_confidence`.
pub data Confidence : Type 0 where
  unknown exact pending held_for_reconciliation exact_unsettled : Confidence

-- `pricing_call`, as far as `_tier_hold_usd` reads it.
pub record Pricing : Type 0 where
  pub hold_for_reconciliation : Bool
  pub held_exposure : Option ℤ
  pub reserved : ℤ

pub record StreamAttempt : Type 0 where
  pub reserved_cost : Option ℤ
  pub held_projection : ℤ
  pub usd_per_1k_tokens : ℕ
  pub stream_cutoff : Option ℕ
  pub pricing_call : Option Pricing
  pub observed_usage : StreamUsage
  pub estimated_output_tokens : ℕ
  -- in thousandths of the unit
  pub estimated_spend : ℕ
  pub upstream_close_attempted : Bool
  pub upstream_close_ok : Bool
  pub finalized : Bool
  pub finalize_in_progress : Bool
  pub terminal_outcome : Option StreamOutcome
  pub financial_pending : Bool
  pub cost_confidence : Confidence

-- How a call of a settlement ends: it returns True, it returns another value or raises, or the
-- await is cancelled.
pub data Reply : Type 0 where
  acked not_acked interrupted : Reply

-- `postcall_cost_fn`, `reconcile_fn` of the reserved and the actual cost, whether there is a
-- `pending_fn`, whether its await is cancelled, and whether `emit_event_fn` raises.
pub record Callbacks : Type 0 where
  pub postcall_cost : Option (StreamUsage → Option OpenaiUsage → Option ℤ)
  pub reconcile : Option (ℤ → ℤ → Reply)
  pub marks_pending : Bool
  pub mark_cancelled : Bool
  pub event_raises : Bool

-- What an attempt does outside: it settles an actual cost, marks its reservation pending, and emits
-- an event with its cost and tokens.
pub data Effect : Type 0 where
  reconciles : (reserved actual : ℤ) → Effect
  marks : (reserved : ℤ) → Effect
  emits : (settle_cost : ℤ) (tokens : Option ℤ) → Effect

-- `observe_text_estimate` of a text by its length.
unfoldable pub observe_text_estimate : ℕ → StreamAttempt → StreamAttempt
observe_text_estimate len a =
    let tokens = max 1 (len / 4) in
    if len == 0 then a else record a {
      estimated_output_tokens = a.estimated_output_tokens + tokens;
      estimated_spend = a.estimated_spend + tokens * a.usd_per_1k_tokens;
    }

-- `should_cutoff`.
unfoldable pub should_cutoff : StreamAttempt → Bool
should_cutoff a = elim a.stream_cutoff [
  | none ↦ false
  | some limit ↦ leb (limit * 1000) a.estimated_spend
]

-- `mark_upstream_close`.
unfoldable pub mark_upstream_close : Bool → StreamAttempt → StreamAttempt
mark_upstream_close ok a = record a { upstream_close_attempted = true; upstream_close_ok = ok }

-- `_tier_hold_usd`.
unfoldable pub tier_hold : Option Pricing → Option ℤ
tier_hold none = none
tier_hold (some p) =
    if not p.hold_for_reconciliation
    then none
    else elim p.held_exposure [ none ↦ some p.reserved | some held ↦ some held ]

abbrev pub is_complete : StreamOutcome → Bool
is_complete complete = true
is_complete _ = false

abbrev pub is_rejected : StreamOutcome → Bool
is_rejected rejected = true
is_rejected _ = false

-- What `finalize` decides before it settles anything.
pub record Plan : Type 0 where
  pub settle_cost : ℤ
  pub confidence : Confidence
  pub is_pending : Bool
  pub authoritative_usage : Bool

abbrev pub pending_plan : Plan
pending_plan = record {
  settle_cost = pos 0;
  confidence = pending;
  is_pending = true;
  authoritative_usage = false;
}

-- The cost of the observed usage, where it is authoritative and can be priced.
unfoldable pub cost_of : Callbacks → StreamUsage → Option ℤ
cost_of callbacks usage = elim callbacks.postcall_cost [
  | none ↦ none
  | some price ↦ if usage.authoritative then price usage (as_openai_style usage) else none
]

-- The plan of an attempt with no exact cost: a refusal of the provider costs exactly nothing.
unfoldable pub plan_unpriced : StreamOutcome → Plan
plan_unpriced outcome =
    if is_rejected outcome
    then record {
      settle_cost = pos 0;
      confidence = exact;
      is_pending = false;
      authoritative_usage = false;
    }
    else pending_plan

unfoldable pub plan_exact : StreamOutcome → StreamUsage → Option ℤ → Plan
unfolding plan_unpriced
plan_exact outcome usage none = plan_unpriced outcome
plan_exact outcome usage (some cost) =
    if is_complete outcome && usage.authoritative
    then record {
      settle_cost = cost;
      confidence = exact;
      is_pending = false;
      authoritative_usage = true;
    }
    else plan_unpriced outcome

unfoldable pub plan : Callbacks → Option Pricing → StreamOutcome → StreamUsage → Plan
unfolding tier_hold cost_of plan_exact
plan callbacks pricing outcome usage = elim (tier_hold pricing) [
  | none ↦ plan_exact outcome usage (cost_of callbacks usage)
  | some held ↦
      if is_complete outcome && usage.authoritative
      then record {
        settle_cost = held;
        confidence = held_for_reconciliation;
        is_pending = true;
        authoritative_usage = false;
      }
      else plan_exact outcome usage (cost_of callbacks usage)
]
