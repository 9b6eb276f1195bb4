-- ===== src/Streaming/Finished.antt =====
-- Every call of `finalize` of kazenai/streaming/lifecycle.py has one of the ends of an attempt.
use kazenai_core.Base.{
  ◌≡◌, refl, sym, ap, subst, ◌∙◌, inl, inr, Bool, true, false, not, Option, none, some, List, [],
  ◌++◌, if◌then◌else◌, arith, ◌⊎◌,
}
use kazenai_core.Base.Amount.{ℤ, pos}
use kazenai_core.Enforcement.{Enforcement, record_call}
use kazenai_core.Transitions.{classify_settlement_delivery}
use kazenai_core.Streaming.Usage.{StreamUsage}
use kazenai_core.Streaming.Attempt.{
  StreamOutcome, Confidence, StreamAttempt, Reply, Callbacks, Effect, Plan,
}
use kazenai_core.Streaming.Closing.{
  Settling, settle, mark_pending, classified, counts, complete_local, note_outcome, plan_of,
  settle_and_complete, finalize,
}
use kazenai_core.Streaming.Endings.{
  Settled, reservation_marked, known_confidence, Ends, priced, refused, held, unknowable, Planned,
  plan_priced, plan_refused, plan_held, plan_unknowable, plan-Planned,
}
use kazenai_core.Streaming.Finalize.{
  known_plan, Knows, settle-Knows, Ending, classified-known, classified-pending, known-counts,
}

counted : (b : Bool) (cost : ℤ) → (b ≡ true) ⊎ (cost ≡ pos 0) → (if b then cost else pos 0) ≡ cost
counted b cost h = ground arith

complete-Ending :
    (callbacks : Callbacks) (now : ℤ) (outcome : StreamOutcome) (a : StreamAttempt)
    (e : Enforcement) (p : Plan) (calls : List Effect) (pending_flag ack : Bool) (sure : Confidence)
    → a.finalized ≡ true
    → (Ends callbacks a outcome
        (classified
          (classify_settlement_delivery true ack p.authoritative_usage)
          (pending_flag, sure)).0
        (classified
          (classify_settlement_delivery true ack p.authoritative_usage)
          (pending_flag, sure)).1
        p.settle_cost
        calls)
    → ((counts
            (classified
              (classify_settlement_delivery true ack p.authoritative_usage)
              (pending_flag, sure)).1
          ≡ true)
        ⊎ (p.settle_cost ≡ pos 0))
    → Ending callbacks now outcome a e
        (complete_local now p pending_flag sure ack a.observed_usage (a, e, calls))
unfolding complete_local
complete-Ending callbacks now outcome a e p calls pending_flag ack sure done how cost = record {
  cost = p.settle_cost;
  calls = calls;
  ends = how;
  final = done;
  effects = refl;
  recorded =
      ap (λ c. (record_call now (some c) false a.held_projection e).0)
        (counted
          (counts
            (classified (classify_settlement_delivery true ack p.authoritative_usage)
              (pending_flag, sure)).1)
          p.settle_cost cost);
}

-- A plan that knows its cost, and one that does not.
known-Ending :
    (callbacks : Callbacks) (now : ℤ) (outcome : StreamOutcome) (a : StreamAttempt)
    (e : Enforcement) (cost : ℤ) (by_usage : Bool) (s : Settling)
    → a.finalized ≡ true
    → Knows callbacks a cost a.reserved_cost s
    → ((ack : Bool) (calls : List Effect)
        → Settled callbacks a cost ack calls
        → Ends callbacks a outcome (not ack) (known_confidence ack) cost calls)
    → Ending callbacks now outcome a e (
        complete_local now
          (known_plan cost by_usage)
          s.still_pending
          s.confidence
          s.financial_ack
          a.observed_usage
          (a, e, s.effects ++ mark_pending a.reserved_cost callbacks.marks_pending s.still_pending))
known-Ending callbacks now outcome a e cost by_usage s done knows ends =
    let how =
      ends s.financial_ack
        (s.effects ++ mark_pending a.reserved_cost callbacks.marks_pending s.still_pending)
        knows.ends in
    let same : (classified (classify_settlement_delivery true s.financial_ack by_usage)
          (s.still_pending, s.confidence))
        ≡ (not s.financial_ack, known_confidence s.financial_ack) =
      rw (knows.owes, knows.sure) (classified-known s.financial_ack by_usage) in
    complete-Ending callbacks now outcome a e (known_plan cost by_usage) _ s.still_pending
      s.financial_ack s.confidence done (rw same how) (rw same (inl (known-counts s.financial_ack)))

pending-settle :
    (p : Plan)
    → p.is_pending ≡ true
    → (reserved : Option ℤ) (reconcile : Option (ℤ → ℤ → Reply))
    → settle reserved reconcile p ≡ record {
      still_pending = true;
      confidence = p.confidence;
      financial_ack = false;
      effects = [];
    }
unfolding settle
pending-settle p waits none reconcile = rw waits refl
pending-settle p waits (some reserved) none = rw waits refl
pending-settle p waits (some reserved) (some reconcile) = rw waits refl

mark_pending-marked :
    (callbacks : Callbacks) (reserved : Option ℤ)
    → mark_pending reserved callbacks.marks_pending true ≡ reservation_marked callbacks reserved
mark_pending-marked callbacks none = refl
mark_pending-marked callbacks (some reserved) = refl

unknown-Ending :
    (callbacks : Callbacks) (now : ℤ) (outcome : StreamOutcome) (a : StreamAttempt)
    (e : Enforcement) (p : Plan)
    → a.finalized ≡ true
    → p.is_pending ≡ true
    → p.authoritative_usage ≡ false
    → Ends callbacks a outcome true p.confidence p.settle_cost
        (reservation_marked callbacks a.reserved_cost)
    → ((counts p.confidence ≡ true) ⊎ (p.settle_cost ≡ pos 0))
    → Ending callbacks now outcome a e (
        complete_local now p
          (settle a.reserved_cost callbacks.reconcile p).still_pending
          (settle a.reserved_cost callbacks.reconcile p).confidence
          (settle a.reserved_cost callbacks.reconcile p).financial_ack
          a.observed_usage
          (
            a,
            e,
            (settle a.reserved_cost callbacks.reconcile p).effects
                ++ mark_pending a.reserved_cost callbacks.marks_pending
                    (settle a.reserved_cost callbacks.reconcile p).still_pending,
          ))
unknown-Ending callbacks now outcome a e p done waits by_usage how cost =
    let same : classified (classify_settlement_delivery true false p.authoritative_usage)
          (true, p.confidence)
        ≡ (true, p.confidence) =
      ap (λ b. classified (classify_settlement_delivery true false b) (true, p.confidence)) by_usage
      ∙ classified-pending (true, p.confidence) in
    rw (pending-settle p waits a.reserved_cost callbacks.reconcile) (
      complete-Ending callbacks now outcome a e p _ true false p.confidence done
        (rw (same, mark_pending-marked callbacks a.reserved_cost) how) (rw same cost))

pub finalize-fresh :
    (callbacks : Callbacks) (now : ℤ) (outcome : StreamOutcome) (usage : Option StreamUsage)
    (a : StreamAttempt) (e : Enforcement)
    → a.finalized ≡ false
    → finalize callbacks now outcome usage a e
      ≡ settle_and_complete callbacks now outcome
          (note_outcome outcome usage (record a { finalized = true }))
          e
unfolding finalize
finalize-fresh callbacks now outcome usage a e fresh = ground (arith, fresh)

Planned-Ending :
    (callbacks : Callbacks) (now : ℤ) (outcome : StreamOutcome) (a : StreamAttempt)
    (e : Enforcement) (p : Plan)
    → a.finalized ≡ true
    → Planned callbacks a outcome p
    → Ending callbacks now outcome a e (
        complete_local now p
          (settle a.reserved_cost callbacks.reconcile p).still_pending
          (settle a.reserved_cost callbacks.reconcile p).confidence
          (settle a.reserved_cost callbacks.reconcile p).financial_ack
          a.observed_usage
          (
            a,
            e,
            (settle a.reserved_cost callbacks.reconcile p).effects
                ++ mark_pending a.reserved_cost callbacks.marks_pending
                    (settle a.reserved_cost callbacks.reconcile p).still_pending,
          ))
Planned-Ending callbacks now outcome a e _ done (plan_priced cost c u t price) =
    known-Ending callbacks now outcome a e cost true
      (settle a.reserved_cost callbacks.reconcile (known_plan cost true)) done
      (settle-Knows callbacks a cost true a.reserved_cost callbacks.reconcile refl refl)
      (λ ack calls s. priced cost c u t price s)
Planned-Ending callbacks now outcome a e _ done (plan_refused r) =
    known-Ending callbacks now outcome a e (pos 0) false
      (settle a.reserved_cost callbacks.reconcile (known_plan (pos 0) false)) done
      (settle-Knows callbacks a (pos 0) false a.reserved_cost callbacks.reconcile refl refl)
      (λ ack calls s. refused r s)
Planned-Ending callbacks now outcome a e _ done (plan_held exposure c u t) =
    unknown-Ending callbacks now outcome a e _ done refl refl (held exposure c u t) (inl refl)
Planned-Ending callbacks now outcome a e _ done (plan_unknowable r u) =
    unknown-Ending callbacks now outcome a e _ done refl refl (unknowable r u) (inr refl)

-- An attempt that was not finalized ends in one of four ways, which its outcome and its last usage
-- decide: its cost is priced from authoritative usage of a complete stream, it is nothing because
-- the provider refused the call, it is the exposure that is held for a tier that must be
-- reconciled, or it is not known. Only the first two are settled, at that cost; they are exact and
-- nothing is owed when there is no obligation or the settlement is acknowledged. Otherwise the
-- attempt stays pending, and its reservation is marked so, where there is a reservation and a way
-- to mark it. The attempt is final; it emits one event after the calls; and the cost, nothing where
-- it is not known, is recorded locally with the release of the projection.
pub finalize-Ending :
    (callbacks : Callbacks) (now : ℤ) (outcome : StreamOutcome) (usage : Option StreamUsage)
    (a : StreamAttempt) (e : Enforcement)
    → a.finalized ≡ false
    → Ending callbacks now outcome
        (note_outcome outcome usage (record a { finalized = true }))
        e
        (finalize callbacks now outcome usage a e)
unfolding finalize
finalize-Ending callbacks now outcome usage a e fresh =
    let noted = note_outcome outcome usage (record a { finalized = true }) in
    subst (Ending callbacks now outcome noted e)
      (sym (finalize-fresh callbacks now outcome usage a e fresh))
      (Planned-Ending callbacks now outcome noted e (plan_of callbacks outcome noted) refl
        (plan-Planned callbacks noted outcome))
