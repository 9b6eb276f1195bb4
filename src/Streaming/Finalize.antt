-- ===== src/Streaming/Finalize.antt =====
-- What the settlement of a known cost comes to: kazenai/streaming/lifecycle.py, `finalize`.
use kazenai_core.Base.{
  ◌≡◌, refl, inl, inr, Bool, true, false, not, Option, none, some, List, [], ◌∷◌, ◌++◌, arith,
  Bool-cases,
}
use kazenai_core.Base.Amount.{ℤ}
use kazenai_core.Enforcement.{Enforcement, record_call}
use kazenai_core.Transitions.{classify_settlement_delivery}
use kazenai_core.Streaming.Attempt.{
  StreamOutcome, Confidence, exact, StreamAttempt, Reply, Callbacks, Effect, emits, Plan,
}
use kazenai_core.Streaming.Closing.{
  Settling, settle, is_acked, mark_pending, classified, counts, tokens_used, World,
}
use kazenai_core.Streaming.Endings.{
  Settled, no_reservation, no_ledger, accepted, owed, known_confidence, Ends,
}

abbrev pub known_plan : ℤ → Bool → Plan
known_plan cost by_usage = record {
  settle_cost = cost;
  confidence = exact;
  is_pending = false;
  authoritative_usage = by_usage;
}

-- A settlement of a known cost, with what is still pending and the confidence in it.
pub record Knows (callbacks : Callbacks) (a : StreamAttempt) (cost : ℤ) (reserved : Option ℤ)
    (s : Settling) : Type 0 where
  pub ends :
      Settled callbacks a cost s.financial_ack
        (s.effects ++ mark_pending reserved callbacks.marks_pending s.still_pending)
  pub owes : s.still_pending ≡ not s.financial_ack
  pub sure : s.confidence ≡ known_confidence s.financial_ack

pub settle-Knows :
    (callbacks : Callbacks) (a : StreamAttempt) (cost : ℤ) (by_usage : Bool) (reserved : Option ℤ)
    (reconcile : Option (ℤ → ℤ → Reply))
    → a.reserved_cost ≡ reserved
    → callbacks.reconcile ≡ reconcile
    → Knows callbacks a cost reserved (settle reserved reconcile (known_plan cost by_usage))
unfolding settle
settle-Knows callbacks a cost by_usage none reconcile e f = record {
  ends = no_reservation e;
  owes = refl;
  sure = refl;
}
settle-Knows callbacks a cost by_usage (some reserved) none e f = record {
  ends = (no_ledger reserved e f);
  owes = refl;
  sure = refl;
}
settle-Knows callbacks a cost by_usage (some reserved) (some reconcile) e f =
    elim (Bool-cases (is_acked (reconcile reserved cost))) [
      | inl h ↦
          rw h (record { ends = (accepted reserved reconcile e f h); owes = refl; sure = refl })
      | inr h ↦ rw h (record { ends = owed reserved reconcile e f h; owes = refl; sure = refl })
    ]

-- The end of an attempt: it is final, and its cost is recorded once, with the release of its
-- projection.
pub record Ending (callbacks : Callbacks) (now : ℤ) (outcome : StreamOutcome) (a : StreamAttempt)
    (e : Enforcement) (w : World) : Type 0 where
  pub cost : ℤ
  pub calls : List Effect
  pub ends : Ends callbacks a outcome w.0.financial_pending w.0.cost_confidence cost calls
  pub final : w.0.finalized ≡ true
  pub effects : w.2 ≡ calls ++ (emits cost (tokens_used a.observed_usage) ∷ [])
  pub recorded : w.1 ≡ (record_call now (some cost) false a.held_projection e).0

-- What `classify_settlement_delivery` says last about a cost that is known, and about one that is
-- not.
pub classified-known :
    (ack by_usage : Bool)
    → classified (classify_settlement_delivery true ack by_usage) (not ack, known_confidence ack)
      ≡ (not ack, known_confidence ack)
unfolding classified classify_settlement_delivery
classified-known ack by_usage = ground arith

pub classified-pending :
    (s : Bool × Confidence) → classified (classify_settlement_delivery true false false) s ≡ s
unfolding classified classify_settlement_delivery
classified-pending s = refl

pub known-counts : (ack : Bool) → counts (known_confidence ack) ≡ true
known-counts ack = ground arith
