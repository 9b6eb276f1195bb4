-- ===== src/Streaming/Ways.antt =====
-- Every way out of the proxy of kazenai/streaming/proxy.py: the end of the stream, an error, the
-- cutoff, `close`, the end of a `with` block, and a loop over the sync class that is left early.
use kazenai_core.Base.{
  ◌==◌, ℕ, zero, suc, ◌≡◌, refl, ◌∙◌, Bool, false, Option, none, some, List, [], ◌∷◌, if_cases,
}
use kazenai_core.Base.Amount.{ℤ}
use kazenai_core.Streaming.Usage.{StreamUsage}
use kazenai_core.Streaming.Attempt.{
  StreamAttempt, Callbacks, observe_text_estimate, should_cutoff, mark_upstream_close, complete,
  cutoff, client_cancelled, provider_error,
}
use kazenai_core.Streaming.Proxy.{
  Chunk, Signal, chunk, cuts, fails, interrupts, Way, absent, works, raises, stopped, Proxy, Got,
  item, Kind, observe_reading, pass_chunk, on_signal, next_of, next, close, exit_end, returned,
  stop_iteration, cutoff_error, upstream_error, cancelled, control_error, sync, exit_entered, exit,
  leave_loop, loop_on, loop,
}
use kazenai_core.Streaming.Once.{
  IsHeard, is_stopped, IsKept, IsOver, over-IsKept, end_with-IsOver, end_unless_final-IsOver,
  close_upstream-IsOver,
}

module _ (kind : Kind) (callbacks : Callbacks) (now : ℤ) (heard : IsHeard kind callbacks) where
  pub close-IsOver : (p : Proxy) → IsKept p → IsOver (close kind callbacks now p).0
  unfolding close
  close-IsOver p kept =
      if_cases (λ (r : Proxy × Got). IsOver (r.0)) p.closed
        (λ done. record { once = kept.once; final = kept.ended done; quiet = kept.quiet })
        (λ _.
          close_upstream-IsOver kind callbacks now heard _ _
            (record { idle = kept.once.idle; once = kept.once.once }) kept.quiet
            (end_unless_final-IsOver kind callbacks now heard client_cancelled returned))

  exit_entered-IsOver :
      (way : Way) (by_cutoff : Bool) (p : Proxy)
      → is_stopped way ≡ false
      → IsKept p
      → IsOver (exit_entered kind callbacks now way by_cutoff p).0
  unfolding exit_entered exit_end mark_upstream_close
  exit_entered-IsOver absent by_cutoff p calm kept =
      close_upstream-IsOver kind callbacks now heard _ _
        (record { idle = kept.once.idle; once = kept.once.once }) kept.quiet
        (λ q. end_unless_final-IsOver kind callbacks now heard _ returned q)
  exit_entered-IsOver works by_cutoff p calm kept =
      end_unless_final-IsOver kind callbacks now heard _ returned _
        (record { idle = kept.once.idle; once = kept.once.once }) kept.quiet
  exit_entered-IsOver raises by_cutoff p calm kept =
      end_unless_final-IsOver kind callbacks now heard provider_error upstream_error _
        (record { idle = kept.once.idle; once = kept.once.once }) kept.quiet
  exit_entered-IsOver stopped by_cutoff p calm kept = absurd (cc)

  pub exit-IsOver :
      (by_cutoff : Bool) (p : Proxy) → IsKept p → IsOver (exit kind callbacks now by_cutoff p).0
  unfolding exit
  exit-IsOver by_cutoff p kept =
      exit_entered-IsOver _ by_cutoff p
        (if_cases (λ (way : Way). is_stopped way ≡ false) p.entered (λ _. kept.quiet.1) (λ _. refl))
        kept

  text-flags :
      (len : ℕ) (a : StreamAttempt)
      → ((observe_text_estimate len a).finalized ≡ a.finalized)
        × ((observe_text_estimate len a).finalize_in_progress ≡ a.finalize_in_progress)
  unfolding observe_text_estimate
  text-flags len a =
      if_cases
        (λ (b : StreamAttempt).
          (b.finalized ≡ a.finalized) × (b.finalize_in_progress ≡ a.finalize_in_progress))
        (len == 0) (λ _. (refl, refl)) (λ _. (refl, refl))

  pub observe-flags :
      (reading : Option (ℕ × Option StreamUsage)) (a : StreamAttempt)
      → ((observe_reading kind callbacks now reading a).finalized ≡ a.finalized)
        × ((observe_reading kind callbacks now reading a).finalize_in_progress
            ≡ a.finalize_in_progress)
  unfolding observe_reading
  observe-flags none a = (refl, refl)
  observe-flags (some (len, none)) a = text-flags len a
  observe-flags (some (len, some usage)) a = text-flags len a

  pub IsKept-observe :
      (reading : Option (ℕ × Option StreamUsage)) (p : Proxy)
      → IsKept p
      → IsKept (record p { attempt = observe_reading kind callbacks now reading p.attempt })
  IsKept-observe reading p kept =
      let (f, i) = observe-flags reading p.attempt in
      record {
        once = record { idle = i ∙ kept.once.idle; once = rw (f) (kept.once.once) };
        ended = λ done. f ∙ kept.ended done;
        quiet = kept.quiet;
      }

  pass_chunk-IsKept :
      (c : Chunk) (p : Proxy) → IsKept p → IsKept (pass_chunk kind callbacks now c p).0
  unfolding pass_chunk
  pass_chunk-IsKept c p kept =
      let seen = IsKept-observe c.reading p kept in
      if_cases (λ (r : Proxy × Got). IsKept (r.0))
        (should_cutoff (observe_reading kind callbacks now c.reading p.attempt))
        (λ _. over-IsKept _ (
          close_upstream-IsOver kind callbacks now heard _ _ seen.once seen.quiet
            (end_with-IsOver kind callbacks now heard cutoff none cutoff_error)))
        (λ _. seen)

  on_signal-IsKept :
      (s : Signal) (p : Proxy) → IsKept p → IsKept (on_signal kind callbacks now s p).0
  unfolding on_signal
  on_signal-IsKept (chunk c) p kept = pass_chunk-IsKept c p kept
  on_signal-IsKept cuts p kept = over-IsKept _ (
      close_upstream-IsOver kind callbacks now heard _ p kept.once kept.quiet
        (end_with-IsOver kind callbacks now heard cutoff none cutoff_error))
  on_signal-IsKept fails p kept = over-IsKept _ (
      close_upstream-IsOver kind callbacks now heard _ p kept.once kept.quiet
        (end_with-IsOver kind callbacks now heard provider_error none upstream_error))
  on_signal-IsKept interrupts p kept = kept

  next_of-IsKept :
      (ss : List Signal) (p : Proxy) → IsKept p → IsKept (next_of kind callbacks now ss p).0
  unfolding next_of
  next_of-IsKept [] p kept = over-IsKept _ (
      end_with-IsOver kind callbacks now heard complete p.upstream.final_usage stop_iteration _
        (record { idle = kept.once.idle; once = kept.once.once }) kept.quiet)
  next_of-IsKept (s ∷ ss) p kept = on_signal-IsKept s _ (record {
    once = record { idle = kept.once.idle; once = kept.once.once };
    ended = kept.ended;
    quiet = kept.quiet;
  })

  pub next-IsKept : (p : Proxy) → IsKept p → IsKept (next kind callbacks now p).0
  unfolding next
  next-IsKept p kept = next_of-IsKept p.upstream.signals p kept

module _ (callbacks : Callbacks) (now : ℤ) where
  leave_loop-IsOver :
      (got : Got) (p : Proxy) → IsKept p → IsOver (leave_loop callbacks now (p, got)).0
  unfolding leave_loop
  leave_loop-IsOver got p kept =
      if_cases (λ (r : Proxy × Got). IsOver (r.0)) p.attempt.finalized
        (λ done. record { once = kept.once; final = done; quiet = kept.quiet })
        (λ _. close-IsOver sync callbacks now tt p kept)

  loop_on-IsOver :
      (again : Proxy → Proxy × Got) (got : Got) (p : Proxy)
      → ((q : Proxy) → IsKept q → IsOver (again q).0)
      → IsKept p
      → IsOver (loop_on callbacks now again (p, got)).0
  unfolding loop_on
  loop_on-IsOver again (item c) p k kept = k p kept
  loop_on-IsOver again returned p k kept = leave_loop-IsOver returned p kept
  loop_on-IsOver again stop_iteration p k kept = leave_loop-IsOver stop_iteration p kept
  loop_on-IsOver again cutoff_error p k kept = leave_loop-IsOver cutoff_error p kept
  loop_on-IsOver again upstream_error p k kept = leave_loop-IsOver upstream_error p kept
  loop_on-IsOver again control_error p k kept = leave_loop-IsOver control_error p kept
  loop_on-IsOver again cancelled p k kept = leave_loop-IsOver cancelled p kept

  -- A `for` loop over the sync class of the stream, left after any number of chunks, by the end of the
  -- stream, by an error, the cutoff or an interrupt, leaves the attempt final, after exactly one event,
  -- when no interrupt leaves the provider's own `close` or `__exit__`.
  pub loop-IsOver : (n : ℕ) (p : Proxy) → IsKept p → IsOver (loop callbacks now n p).0
  unfolding loop
  loop-IsOver zero p kept = leave_loop-IsOver returned p kept
  loop-IsOver (suc n) p kept =
      loop_on-IsOver (loop callbacks now n) _ _ (loop-IsOver n)
        (next-IsKept sync callbacks now tt p kept)
