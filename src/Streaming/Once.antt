-- ===== src/Streaming/Once.antt =====
-- An attempt behind the proxy of kazenai/streaming/proxy.py ends once, on every way out.
use kazenai_core.Base.{
  ℕ, ◌≡◌, refl, sym, ap, subst, inl, inr, Bool, true, false, ◌&&◌, Option, none, some, List, [],
  ◌∷◌, ◌++◌, if◌then◌else◌, if_cases, Bool-cases, count, count-append,
}
use kazenai_core.Base.Amount.{ℤ}
use kazenai_core.Enforcement.{Enforcement}
use kazenai_core.Streaming.Usage.{StreamUsage}
use kazenai_core.Streaming.Attempt.{
  Plan, Reply, StreamOutcome, StreamAttempt, Callbacks, Effect, emits, reconciles, marks,
  mark_upstream_close,
}
use kazenai_core.Streaming.Closing.{
  is_acked, Settling, tokens_used, World, finalize, settle_and_complete, complete_local,
  note_outcome, settle, mark_pending, plan_of,
}
use kazenai_core.Streaming.AsyncClosing.{finalize_async, finish_async}
use kazenai_core.Streaming.AsyncSteps.{interrupted_end, is_interrupted, finish-heard, finish-cut}
use kazenai_core.Streaming.Twin.{finalize-final, afinalize-fresh}
use kazenai_core.Streaming.Finished.{finalize-fresh}
use kazenai_core.Streaming.Proxy.{
  Way, absent, works, raises, stopped, Upstream, Proxy, Got, Kind, sync, async, finalize_by,
  end_with, end_unless_final, close_then, close_upstream_then,
}

abbrev pub is_emit : Effect → Bool
is_emit (emits cost tokens) = true
is_emit (reconciles reserved cost) = false
is_emit (marks reserved) = false

-- The events that a log has of the end of the attempt.
abbrev pub events : List Effect → ℕ
events = count is_emit

settle-events :
    (reserved : Option ℤ) (reconcile : Option (ℤ → ℤ → Reply)) (p : Plan)
    → events (settle reserved reconcile p).effects ≡ 0
unfolding settle
settle-events none reconcile p = refl
settle-events (some r) none p = refl
settle-events (some r) (some reconcile) p =
    if_cases (λ (s : Settling). events s.effects ≡ 0) p.is_pending (λ _. refl)
      (λ _.
        if_cases (λ (s : Settling). events s.effects ≡ 0) (is_acked (reconcile r p.settle_cost))
          (λ _. refl) (λ _. refl))

mark-events :
    (reserved : Option ℤ) (can still : Bool) → events (mark_pending reserved can still) ≡ 0
mark-events none can still = refl
mark-events (some r) can still =
    if_cases (λ (l : List Effect). events l ≡ 0) (still && can) (λ _. refl) (λ _. refl)

-- The calls of an ending, and then its event.
one_event :
    (before after : List Effect) (cost : ℤ) (tokens : Option ℤ)
    → events before ≡ 0
    → events after ≡ 0
    → events ((before ++ after) ++ (emits cost tokens ∷ [])) ≡ 1
one_event before after cost tokens b a =
    rw
      (
        count-append is_emit (before ++ after) (emits cost tokens ∷ []),
        count-append is_emit before after,
        b,
        a,
      )
      refl

-- The attempt is final and nothing of its end is under way, after one event.
pub record IsEnd (w : World) : Type 0 where
  pub final : w.0.finalized ≡ true
  pub idle : w.0.finalize_in_progress ≡ false
  pub event : events w.2 ≡ 1

module _ (callbacks : Callbacks) (now : ℤ) (outcome : StreamOutcome) where
  complete-events :
      (a : StreamAttempt) (e : Enforcement)
      → events (settle_and_complete callbacks now outcome a e).2 ≡ 1
  unfolding settle_and_complete complete_local
  complete-events a e =
      let p = plan_of callbacks outcome a in
      let s = settle a.reserved_cost callbacks.reconcile p in
      one_event s.effects (mark_pending a.reserved_cost callbacks.marks_pending s.still_pending)
        p.settle_cost (tokens_used a.observed_usage)
        (settle-events a.reserved_cost callbacks.reconcile p)
        (mark-events a.reserved_cost callbacks.marks_pending s.still_pending)

  interrupted-events :
      (a : StreamAttempt) (e : Enforcement)
      → events (interrupted_end callbacks now outcome a e).2 ≡ 1
  unfolding interrupted_end complete_local
  interrupted-events a e =
      let p = plan_of callbacks outcome a in
      one_event (settle a.reserved_cost callbacks.reconcile p).effects
        (mark_pending a.reserved_cost callbacks.marks_pending true) p.settle_cost
        (tokens_used a.observed_usage) (settle-events a.reserved_cost callbacks.reconcile p)
        (mark-events a.reserved_cost callbacks.marks_pending true)

  kept_flags :
      (b : StreamAttempt) (e : Enforcement)
      → b.finalized ≡ true
      → b.finalize_in_progress ≡ false
      → IsEnd (settle_and_complete callbacks now outcome b e)
  unfolding settle_and_complete complete_local
  kept_flags b e f i = record { final = f; idle = i; event = complete-events b e }

  finalize-IsEnd :
      (usage : Option StreamUsage) (a : StreamAttempt) (e : Enforcement)
      → a.finalized ≡ false
      → a.finalize_in_progress ≡ false
      → IsEnd (finalize callbacks now outcome usage a e)
  finalize-IsEnd usage a e fresh idle =
      subst IsEnd (sym (finalize-fresh callbacks now outcome usage a e fresh))
        (kept_flags (note_outcome outcome usage (record a { finalized = true })) e refl idle)

  finish_async-IsEnd :
      (a : StreamAttempt) (e : Enforcement)
      → callbacks.mark_cancelled ≡ false
      → IsEnd (finish_async callbacks now outcome a e).0
  finish_async-IsEnd a e marked =
      elim (Bool-cases
        (is_interrupted a.reserved_cost callbacks.reconcile (plan_of callbacks outcome a))) [
          | inl stops ↦
              subst (λ (r : World × Bool). IsEnd (r.0))
                (sym (finish-cut callbacks now outcome a e marked stops))
                (record { final = refl; idle = refl; event = interrupted-events a e })
          | inr heard ↦
              subst (λ (r : World × Bool). IsEnd (r.0))
                (sym (finish-heard callbacks now outcome a e marked heard))
                (record { final = refl; idle = refl; event = complete-events a e })
        ]

  finalize_async-IsEnd :
      (usage : Option StreamUsage) (a : StreamAttempt) (e : Enforcement)
      → callbacks.mark_cancelled ≡ false
      → a.finalized ≡ false
      → a.finalize_in_progress ≡ false
      → IsEnd (finalize_async callbacks now outcome usage a e).0
  finalize_async-IsEnd usage a e marked fresh idle =
      subst (λ (r : World × Bool). IsEnd (r.0))
        (sym (afinalize-fresh callbacks now outcome usage a e fresh idle))
        (finish_async-IsEnd _ e marked)

-- Where the proxy awaits the end of the attempt, the await of the pending mark is not cancelled.
abbrev pub IsHeard : Kind → Callbacks → Type 0
IsHeard sync callbacks = Unit
IsHeard (async false) callbacks = Unit
IsHeard (async true) callbacks = callbacks.mark_cancelled ≡ false

-- The proxy's log holds the one event of an attempt that is final, and none before.
pub record IsOnce (p : Proxy) : Type 0 where
  pub idle : p.attempt.finalize_in_progress ≡ false
  pub once : events p.log ≡ (if p.attempt.finalized then 1 else 0)

abbrev pub is_stopped : Way → Bool
is_stopped stopped = true
is_stopped _ = false

-- No exception that is no Exception leaves the provider's `close` and `__exit__`.
abbrev pub IsQuiet : Upstream → Type 0
IsQuiet u = (is_stopped u.closing ≡ false) × (is_stopped u.exiting ≡ false)

-- Between two calls: the log is that of one end, and a proxy that is closed has ended its attempt.
pub record IsKept (p : Proxy) : Type 0 where
  pub once : IsOnce p
  pub ended : p.closed ≡ true → p.attempt.finalized ≡ true
  pub quiet : IsQuiet p.upstream

-- After a way out: the attempt is final as well.
pub record IsOver (p : Proxy) : Type 0 where
  pub once : IsOnce p
  pub final : p.attempt.finalized ≡ true
  pub quiet : IsQuiet p.upstream

pub over-IsKept : (p : Proxy) → IsOver p → IsKept p
over-IsKept p o = record { once = o.once; ended = λ _. o.final; quiet = o.quiet }

abbrev with_world : Proxy → World → Proxy
with_world p (a, e, effects) = record p { attempt = a; enforcement = e; log = p.log ++ effects }

world-fresh :
    (p : Proxy) (w : World)
    → IsOnce p
    → IsQuiet p.upstream
    → p.attempt.finalized ≡ false
    → IsEnd w
    → IsOver (with_world p w)
world-fresh p w once quiet fresh ended = record {
  once = record {
    idle = ended.idle;
    once = rw (count-append is_emit p.log (w.2), ended.event, ended.final, once.once, fresh) refl;
  };
  final = ended.final;
  quiet = quiet;
}

world-final :
    (p : Proxy)
    → IsOnce p
    → IsQuiet p.upstream
    → p.attempt.finalized ≡ true
    → IsOver (with_world p (p.attempt, p.enforcement, []))
world-final p once quiet done = record {
  once = record {
    idle = once.idle;
    once = rw (count-append is_emit p.log [], once.once, done) refl;
  };
  final = done;
  quiet = quiet;
}

module _ (kind : Kind) (callbacks : Callbacks) (now : ℤ) (heard : IsHeard kind callbacks) where
  by-IsEnd :
      (k : Kind)
      → IsHeard k callbacks
      → (outcome : StreamOutcome) (usage : Option StreamUsage) (a : StreamAttempt) (e : Enforcement)
      → a.finalized ≡ false
      → a.finalize_in_progress ≡ false
      → IsEnd (finalize_by k callbacks now outcome usage a e).0
  unfolding finalize_by
  by-IsEnd sync h outcome usage a e = finalize-IsEnd callbacks now outcome usage a e
  by-IsEnd (async false) h outcome usage a e = finalize-IsEnd callbacks now outcome usage a e
  by-IsEnd (async true) h outcome usage a e = finalize_async-IsEnd callbacks now outcome usage a e h

  by-final :
      (k : Kind) (outcome : StreamOutcome) (usage : Option StreamUsage) (a : StreamAttempt)
      (e : Enforcement)
      → a.finalized ≡ true
      → (finalize_by k callbacks now outcome usage a e).0 ≡ (a, e, [])
  unfolding finalize_by
  by-final sync outcome usage a e done = (finalize-final callbacks now outcome usage a e done).0
  by-final (async false) outcome usage a e done =
      (finalize-final callbacks now outcome usage a e done).0
  by-final (async true) outcome usage a e done =
      ap (λ (r : World × Bool). r.0) (finalize-final callbacks now outcome usage a e done).1

  pub end_with-IsOver :
      (outcome : StreamOutcome) (usage : Option StreamUsage) (got : Got) (p : Proxy)
      → IsOnce p
      → IsQuiet p.upstream
      → IsOver (end_with kind callbacks now outcome usage got p).0
  unfolding end_with
  end_with-IsOver outcome usage got p once quiet = elim (Bool-cases p.attempt.finalized) [
    | inl done ↦
        subst (λ (w : World). IsOver (with_world p w))
          (sym (by-final kind outcome usage p.attempt p.enforcement done))
          (world-final p once quiet done)
    | inr fresh ↦
        world-fresh p _ once quiet fresh
          (by-IsEnd kind heard outcome usage p.attempt p.enforcement fresh once.idle)
  ]

  pub end_unless_final-IsOver :
      (outcome : StreamOutcome) (got : Got) (p : Proxy)
      → IsOnce p
      → IsQuiet p.upstream
      → IsOver (end_unless_final kind callbacks now outcome got p).0
  unfolding end_unless_final
  end_unless_final-IsOver outcome got p once quiet =
      if_cases (λ (r : Proxy × Got). IsOver (r.0)) p.attempt.finalized
        (λ done. record { once = once; final = done; quiet = quiet })
        (λ _. end_with-IsOver outcome none got p once quiet)

  -- What a closed stream leaves to be done is done, on a proxy that differs in the close's marks only.
  pub close_then-IsOver :
      (way : Way) (rest : Proxy → Proxy × Got) (p : Proxy)
      → is_stopped way ≡ false
      → IsOnce p
      → IsQuiet p.upstream
      → ((q : Proxy) → IsOnce q → IsQuiet q.upstream → IsOver (rest q).0)
      → IsOver (close_then kind callbacks now way rest p).0
  unfolding close_then mark_upstream_close
  close_then-IsOver absent rest p q once quiet k =
      k _ (record { idle = once.idle; once = once.once }) quiet
  close_then-IsOver works rest p q once quiet k =
      k _ (record { idle = once.idle; once = once.once }) quiet
  close_then-IsOver raises rest p q once quiet k =
      k _ (record { idle = once.idle; once = once.once }) quiet
  close_then-IsOver stopped rest p q once quiet k = absurd (cc)

  pub close_upstream-IsOver :
      (rest : Proxy → Proxy × Got) (p : Proxy)
      → IsOnce p
      → IsQuiet p.upstream
      → ((q : Proxy) → IsOnce q → IsQuiet q.upstream → IsOver (rest q).0)
      → IsOver (close_upstream_then kind callbacks now rest p).0
  unfolding close_upstream_then
  close_upstream-IsOver rest p once quiet =
      close_then-IsOver p.upstream.closing rest p quiet.0 once quiet
