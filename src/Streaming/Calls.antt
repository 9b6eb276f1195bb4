-- ===== src/Streaming/Calls.antt =====
-- The proxy of kazenai/streaming/proxy.py under any sequence of calls.
use kazenai_core.Base.{
  All, any, ◌≡◌, refl, ◌∙◌, Bool, true, false, ◌||◌, Option, none, some, List, [], ◌∷◌, if_cases,
  arith,
}
use kazenai_core.Base.Amount.{ℤ}
use kazenai_core.Streaming.Attempt.{Callbacks, should_cutoff, complete, cutoff, provider_error}
use kazenai_core.Streaming.Proxy.{
  Chunk, Signal, chunk, cuts, fails, interrupts, Way, absent, works, raises, stopped, Upstream,
  Proxy, Got, Kind, observe_reading, pass_chunk, on_signal, next_of, next, enter, stop_iteration,
  cutoff_error, upstream_error, Call, calls_next, calls_close, calls_enter, calls_exit, step, run,
}
use kazenai_core.Streaming.Once.{
  IsHeard, IsQuiet, IsKept, over-IsKept, end_with-IsOver, close_upstream-IsOver,
}
use kazenai_core.Streaming.Ways.{
  next-IsKept, close-IsOver, exit-IsOver, observe-flags, IsKept-observe,
}

-- A call out of which no exception leaves that is no Exception.
abbrev pub IsCalm : Call → Type 0
IsCalm calls_next = Unit
IsCalm calls_close = Unit
IsCalm (calls_enter way none) = Unit
IsCalm (calls_enter way (some other)) = IsQuiet other
IsCalm (calls_exit by_cutoff) = Unit

abbrev pub is_way_out : Call → Bool
is_way_out calls_close = true
is_way_out (calls_exit by_cutoff) = true
is_way_out _ = false

module _ (kind : Kind) (callbacks : Callbacks) (now : ℤ) (heard : IsHeard kind callbacks) where
  enter-IsKept :
      (way : Way) (other : Option Upstream) (p : Proxy)
      → IsCalm (calls_enter way other)
      → IsKept p
      → IsKept (enter kind callbacks now way other p).0
  unfolding enter
  enter-IsKept absent other p calm kept = kept
  enter-IsKept works none p calm kept = record {
    once = record { idle = kept.once.idle; once = kept.once.once };
    ended = kept.ended;
    quiet = kept.quiet;
  }
  enter-IsKept works (some u) p calm kept = record {
    once = record { idle = kept.once.idle; once = kept.once.once };
    ended = kept.ended;
    quiet = calm;
  }
  enter-IsKept raises other p calm kept = over-IsKept _ (
      end_with-IsOver kind callbacks now heard provider_error none upstream_error p kept.once
        kept.quiet)
  enter-IsKept stopped other p calm kept = kept

  step-IsKept : (p : Proxy) (c : Call) → IsCalm c → IsKept p → IsKept (step kind callbacks now p c)
  unfolding step
  step-IsKept p calls_next calm kept = next-IsKept kind callbacks now heard p kept
  step-IsKept p calls_close calm kept = over-IsKept _ (close-IsOver kind callbacks now heard p kept)
  step-IsKept p (calls_enter way other) calm kept = enter-IsKept way other p calm kept
  step-IsKept p (calls_exit by_cutoff) calm kept =
      over-IsKept _ (exit-IsOver kind callbacks now heard by_cutoff p kept)

  -- Once final, final.
  abbrev StaysFinal : Proxy → Proxy → Type 0
  StaysFinal p q = p.attempt.finalized ≡ true → q.attempt.finalized ≡ true

  pass_chunk-final :
      (c : Chunk) (p : Proxy) → IsKept p → StaysFinal p (pass_chunk kind callbacks now c p).0
  unfolding pass_chunk
  pass_chunk-final c p kept done =
      let seen = IsKept-observe kind callbacks now heard c.reading p kept in
      if_cases (λ (r : Proxy × Got). r.0.attempt.finalized ≡ true)
        (should_cutoff (observe_reading kind callbacks now c.reading p.attempt))
        (λ _.
          let o =
            close_upstream-IsOver kind callbacks now heard _ _ seen.once seen.quiet
              (end_with-IsOver kind callbacks now heard cutoff none cutoff_error) in
          o.final)
        (λ _. (observe-flags kind callbacks now heard c.reading p.attempt).0 ∙ done)

  on_signal-final :
      (s : Signal) (p : Proxy) → IsKept p → StaysFinal p (on_signal kind callbacks now s p).0
  unfolding on_signal
  on_signal-final (chunk c) p kept done = pass_chunk-final c p kept done
  on_signal-final cuts p kept done =
      let o =
        close_upstream-IsOver kind callbacks now heard _ p kept.once kept.quiet
          (end_with-IsOver kind callbacks now heard cutoff none cutoff_error) in
      o.final
  on_signal-final fails p kept done =
      let o =
        close_upstream-IsOver kind callbacks now heard _ p kept.once kept.quiet
          (end_with-IsOver kind callbacks now heard provider_error none upstream_error) in
      o.final
  on_signal-final interrupts p kept done = done

  next_of-final :
      (ss : List Signal) (p : Proxy) → IsKept p → StaysFinal p (next_of kind callbacks now ss p).0
  unfolding next_of
  next_of-final [] p kept done =
      let o =
        end_with-IsOver kind callbacks now heard complete p.upstream.final_usage stop_iteration
          (record p { exhausted = true }) (record { idle = kept.once.idle; once = kept.once.once })
          kept.quiet in
      o.final
  next_of-final (s ∷ ss) p kept done =
      on_signal-final s _
        (record {
          once = record { idle = kept.once.idle; once = kept.once.once };
          ended = kept.ended;
          quiet = kept.quiet;
        })
        done

  enter-final :
      (way : Way) (other : Option Upstream) (p : Proxy)
      → IsKept p
      → StaysFinal p (enter kind callbacks now way other p).0
  unfolding enter
  enter-final absent other p kept done = done
  enter-final works none p kept done = done
  enter-final works (some u) p kept done = done
  enter-final raises other p kept done =
      let o =
        end_with-IsOver kind callbacks now heard provider_error none upstream_error p kept.once
          kept.quiet in
      o.final
  enter-final stopped other p kept done = done

  step-final : (p : Proxy) (c : Call) → IsKept p → StaysFinal p (step kind callbacks now p c)
  unfolding step next
  step-final p calls_next kept done = next_of-final p.upstream.signals p kept done
  step-final p calls_close kept done =
      let o = close-IsOver kind callbacks now heard p kept in o.final
  step-final p (calls_enter way other) kept done = enter-final way other p kept done
  step-final p (calls_exit by_cutoff) kept done =
      let o = exit-IsOver kind callbacks now heard by_cutoff p kept in o.final

  way_out-final :
      (p : Proxy) (c : Call)
      → IsKept p
      → is_way_out c ≡ true
      → (step kind callbacks now p c).attempt.finalized ≡ true
  unfolding step
  way_out-final p calls_next kept out = absurd (cc)
  way_out-final p calls_close kept out =
      let o = close-IsOver kind callbacks now heard p kept in o.final
  way_out-final p (calls_enter way other) kept out = absurd (cc)
  way_out-final p (calls_exit by_cutoff) kept out =
      let o = exit-IsOver kind callbacks now heard by_cutoff p kept in o.final

  or_false : (b : Bool) → (b || false) ≡ true → b ≡ true
  or_false b h = ground arith

  -- The state after some calls: the log is that of one end, and the attempt is final if it was so before
  -- or one of the calls is a way out.
  pub record IsRun (before : Proxy) (calls : List Call) (p : Proxy) : Type 0 where
    pub kept : IsKept p
    pub final :
        (before.attempt.finalized || any is_way_out calls) ≡ true → p.attempt.finalized ≡ true

  after_step :
      (a b c d : Bool)
      → (a ≡ true → c ≡ true)
      → (b ≡ true → c ≡ true)
      → (a || (b || d)) ≡ true
      → (c || d) ≡ true
  after_step a b true d f g h = refl
  after_step true b false d f g h = absurd (cc (f refl))
  after_step false true false d f g h = absurd (cc (g refl))
  after_step false false false d f g h = h

  -- Whatever its user calls and in whatever order, the proxy emits one event of the end of its attempt,
  -- exactly when the attempt is final, and the attempt is final once a call of `close` or `__exit__` was
  -- among them. This needs that no exception that is no Exception leaves the provider's `close` or
  -- `__exit__`, and, where the callbacks of the attempt are awaited, that the await of its pending mark
  -- is not cancelled.
  pub run-IsRun :
      (p : Proxy) (calls : List Call)
      → IsKept p
      → All IsCalm calls
      → IsRun p calls (run kind callbacks now p calls)
  unfolding run
  run-IsRun p [] kept calm = record { kept = kept; final = λ h. or_false _ h }
  run-IsRun p (c ∷ calls) kept (calm, rest) =
      let after = run-IsRun (step kind callbacks now p c) calls (step-IsKept p c calm kept) rest in
      record {
        kept = after.kept;
        final = λ h. after.final (
            after_step _ (is_way_out c) _ (any is_way_out calls) (step-final p c kept)
              (way_out-final p c kept) h);
      }
