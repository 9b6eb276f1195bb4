-- ===== src/Streaming/Endings.antt =====
-- How an attempt ends: kazenai/streaming/lifecycle.py, the plan and the settlement of `finalize`.
use kazenai_core.Base.{
  ◌≡◌, refl, inl, inr, Bool, true, false, not, ◌&&◌, Option, none, some, List, [], ◌∷◌,
  if◌then◌else◌, arith, if_cases, Option-cases, ◌⊎◌,
}
use kazenai_core.Base.Amount.{ℤ, pos}
use kazenai_core.Streaming.Attempt.{
  StreamOutcome, Confidence, exact, pending, held_for_reconciliation, exact_unsettled,
  StreamAttempt, Reply, Callbacks, Effect, reconciles, marks, tier_hold, is_complete, is_rejected,
  Plan, pending_plan, cost_of, plan_unpriced, plan_exact, plan,
}
use kazenai_core.Streaming.Closing.{is_acked, plan_of}

abbrev pub marked : Callbacks → ℤ → List Effect
marked callbacks reserved = if callbacks.marks_pending then marks reserved ∷ [] else []

-- What the settlement of a known cost comes to: whether nothing is owed any more, and the calls
-- made.
pub data Settled (callbacks : Callbacks) (a : StreamAttempt) (cost : ℤ)
    : Bool → List Effect → Type 0 where
  no_reservation : a.reserved_cost ≡ none → Settled callbacks a cost true []
  no_ledger :
      (reserved : ℤ)
      → a.reserved_cost ≡ some reserved
      → callbacks.reconcile ≡ none
      → Settled callbacks a cost true []
  accepted :
      (reserved : ℤ) (reconcile : ℤ → ℤ → Reply)
      → a.reserved_cost ≡ some reserved
      → callbacks.reconcile ≡ some reconcile
      → is_acked (reconcile reserved cost) ≡ true
      → Settled callbacks a cost true (reconciles reserved cost ∷ [])
  owed :
      (reserved : ℤ) (reconcile : ℤ → ℤ → Reply)
      → a.reserved_cost ≡ some reserved
      → callbacks.reconcile ≡ some reconcile
      → is_acked (reconcile reserved cost) ≡ false
      → Settled callbacks a cost false (reconciles reserved cost ∷ marked callbacks reserved)

abbrev pub reservation_marked : Callbacks → Option ℤ → List Effect
reservation_marked callbacks none = []
reservation_marked callbacks (some reserved) = marked callbacks reserved

abbrev pub known_confidence : Bool → Confidence
known_confidence true = exact
known_confidence false = exact_unsettled

-- The ends of an attempt, with what is left pending, the confidence in its cost, the cost recorded
-- and the calls made. An outcome that is not known is never settled.
pub data Ends (callbacks : Callbacks) (a : StreamAttempt) (outcome : StreamOutcome)
    : Bool → Confidence → ℤ → List Effect → Type 0 where
  priced :
      (cost : ℤ) {ack : Bool} {effects : List Effect}
      → is_complete outcome ≡ true
      → a.observed_usage.authoritative ≡ true
      → tier_hold a.pricing_call ≡ none
      → cost_of callbacks a.observed_usage ≡ some cost
      → Settled callbacks a cost ack effects
      → Ends callbacks a outcome (not ack) (known_confidence ack) cost effects
  refused :
      {ack : Bool} {effects : List Effect}
      → is_rejected outcome ≡ true
      → Settled callbacks a (pos 0) ack effects
      → Ends callbacks a outcome (not ack) (known_confidence ack) (pos 0) effects
  held :
      (exposure : ℤ)
      → is_complete outcome ≡ true
      → a.observed_usage.authoritative ≡ true
      → tier_hold a.pricing_call ≡ some exposure
      → Ends callbacks a outcome true held_for_reconciliation exposure
          (reservation_marked callbacks a.reserved_cost)
  unknowable :
      is_rejected outcome ≡ false
      → (is_complete outcome ≡ true
          → a.observed_usage.authoritative ≡ true
          → cost_of callbacks a.observed_usage ≡ none)
      → Ends callbacks a outcome true pending (pos 0) (reservation_marked callbacks a.reserved_cost)

-- The plans, by what is known.
pub data Planned (callbacks : Callbacks) (a : StreamAttempt) (outcome : StreamOutcome)
    : Plan → Type 0 where
  plan_priced :
      (cost : ℤ)
      → is_complete outcome ≡ true
      → a.observed_usage.authoritative ≡ true
      → tier_hold a.pricing_call ≡ none
      → cost_of callbacks a.observed_usage ≡ some cost
      → Planned callbacks a outcome (record {
        settle_cost = cost;
        confidence = exact;
        is_pending = false;
        authoritative_usage = true;
      })
  plan_refused :
      is_rejected outcome ≡ true
      → Planned callbacks a outcome (record {
        settle_cost = pos 0;
        confidence = exact;
        is_pending = false;
        authoritative_usage = false;
      })
  plan_held :
      (exposure : ℤ)
      → is_complete outcome ≡ true
      → a.observed_usage.authoritative ≡ true
      → tier_hold a.pricing_call ≡ some exposure
      → Planned callbacks a outcome (record {
        settle_cost = exposure;
        confidence = held_for_reconciliation;
        is_pending = true;
        authoritative_usage = false;
      })
  plan_unknowable :
      is_rejected outcome ≡ false
      → (is_complete outcome ≡ true
          → a.observed_usage.authoritative ≡ true
          → cost_of callbacks a.observed_usage ≡ none)
      → Planned callbacks a outcome pending_plan

module _ (callbacks : Callbacks) (a : StreamAttempt) (outcome : StreamOutcome) where
  unpriced-Planned :
      (is_complete outcome ≡ true
        → a.observed_usage.authoritative ≡ true
        → cost_of callbacks a.observed_usage ≡ none)
      → Planned callbacks a outcome (plan_unpriced outcome)
  unfolding plan_unpriced
  unpriced-Planned no_price =
      if_cases (Planned callbacks a outcome) (is_rejected outcome) plan_refused
        (λ h. plan_unknowable h no_price)

  exact-Planned :
      tier_hold a.pricing_call ≡ none
        ⊎ ((is_complete outcome && a.observed_usage.authoritative) ≡ false)
      → (cost : Option ℤ) → cost_of callbacks a.observed_usage ≡ cost
      → Planned callbacks a outcome (plan_exact outcome a.observed_usage cost)
  unfolding plan_exact
  exact-Planned free none e = unpriced-Planned (λ _ _. e)
  exact-Planned free (some cost) e =
      if_cases (Planned callbacks a outcome) (is_complete outcome && a.observed_usage.authoritative)
        (λ h. plan_priced cost (ground arith) (ground arith) (ground arith) e)
        (λ h. unpriced-Planned (λ c u. absurd (ground arith)))

  pub plan-Planned : Planned callbacks a outcome (plan_of callbacks outcome a)
  unfolding plan
  plan-Planned = elim (Option-cases (tier_hold a.pricing_call)) [
    | inl e ↦ rw (e, plan) (exact-Planned (inl e) (cost_of callbacks a.observed_usage) refl)
    | inr (exposure, e) ↦
        rw (e, plan)
          (if_cases (Planned callbacks a outcome)
            (is_complete outcome && a.observed_usage.authoritative)
            (λ h. plan_held exposure (ground arith) (ground arith) e)
            (λ h. exact-Planned (inr h) (cost_of callbacks a.observed_usage) refl))
  ]
