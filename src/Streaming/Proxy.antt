-- ===== src/Streaming/Proxy.antt =====
-- kazenai/streaming/proxy.py: the iterator that stands before a provider's stream,
-- `StreamIteratorProxy` and `AsyncStreamIteratorProxy`, over the attempt that it ends.
use kazenai_core.Base.{
  ℕ, zero, suc, Bool, true, false, Option, none, some, List, [], ◌∷◌, ◌++◌, if◌then◌else◌,
}
use kazenai_core.Base.Amount.{ℤ}
use kazenai_core.Enforcement.{Enforcement}
use kazenai_core.Streaming.Usage.{StreamUsage, observe_usage}
use kazenai_core.Streaming.Attempt.{
  StreamOutcome, complete, cutoff, client_cancelled, provider_error, StreamAttempt, Callbacks,
  Effect, observe_text_estimate, should_cutoff, mark_upstream_close,
}
use kazenai_core.Streaming.Closing.{World, finalize, finalize_raises}
use kazenai_core.Streaming.AsyncClosing.{finalize_async}

-- What `_observe_chunk` reads off a chunk: the length of its text and its usage; none if it raises.
pub record Chunk : Type 0 where
  pub reading : Option (ℕ × Option StreamUsage)

-- One `next` of the provider's iterator; `interrupts` raises what is no Exception.
pub data Signal : Type 0 where
  chunk : Chunk → Signal
  cuts : Signal
  fails : Signal
  interrupts : Signal

-- The `close` of the provider's stream, and its `__exit__`.
pub data Way : Type 0 where
  absent works raises stopped : Way

-- The provider's stream. Its iterator gives the signals in turn and then ends.
pub record Upstream : Type 0 where
  pub signals : List Signal
  pub final_usage : Option StreamUsage
  pub closing : Way
  pub exiting : Way

pub record Proxy : Type 0 where
  pub upstream : Upstream
  pub closed : Bool
  pub exhausted : Bool
  pub entered : Bool
  pub attempt : StreamAttempt
  pub enforcement : Enforcement
  pub log : List Effect

-- What a call gives its caller. `cancelled` is an exception that is no Exception, and `control_error` one
-- of the event's callback.
pub data Got : Type 0 where
  item : Chunk → Got
  returned stop_iteration cutoff_error upstream_error cancelled control_error : Got

-- How the class of the proxy calls `finalize` of the attempt.
pub data Kind : Type 0 where
  sync : Kind
  async : (awaits_callbacks : Bool) → Kind

-- `_finalize_attempt`; true where an exception leaves it.
unfoldable pub finalize_by :
    Kind
    → Callbacks
    → ℤ
    → StreamOutcome
    → Option StreamUsage
    → StreamAttempt
    → Enforcement
    → World × Bool
finalize_by sync callbacks now outcome usage a e =
    (finalize callbacks now outcome usage a e, finalize_raises callbacks a)
finalize_by (async false) callbacks now outcome usage a e =
    (finalize callbacks now outcome usage a e, finalize_raises callbacks a)
finalize_by (async true) callbacks now outcome usage a e =
    finalize_async callbacks now outcome usage a e

-- An exception of the clean-up takes the place of what was under way.
abbrev unless_cancelled : Got → Got → Got
unless_cancelled cancelled got = cancelled
unless_cancelled control_error got = control_error
unless_cancelled _ got = got

-- The exception that leaves a finalization.
abbrev pub escaping : Kind → Got
escaping sync = control_error
escaping (async false) = control_error
escaping (async true) = cancelled

module _ (kind : Kind) (callbacks : Callbacks) (now : ℤ) where
  -- The attempt is finalized, and then the caller gets what was raised, unless an exception leaves it.
  unfoldable pub end_with : StreamOutcome → Option StreamUsage → Got → Proxy → Proxy × Got
  end_with outcome usage got p =
      let ((a, e, effects), raises_too) =
        finalize_by kind callbacks now outcome usage p.attempt p.enforcement in
      (
        record p { attempt = a; enforcement = e; log = p.log ++ effects },
        if raises_too then escaping kind else got,
      )

  -- `if not self._attempt.finalized: self._attempt.finalize(...)`
  unfoldable pub end_unless_final : StreamOutcome → Got → Proxy → Proxy × Got
  end_unless_final outcome got p =
      if p.attempt.finalized then (p, got) else end_with outcome none got p

  abbrev marked : Bool → Proxy → Proxy
  marked fine p = record p { attempt = mark_upstream_close fine p.attempt }

  -- `_close_upstream`, and what follows it; nothing does where an exception that is no Exception leaves.
  unfoldable pub close_then : Way → (Proxy → Proxy × Got) → Proxy → Proxy × Got
  close_then absent rest p = rest (marked false p)
  close_then works rest p = rest (marked true p)
  close_then raises rest p = rest (marked false p)
  close_then stopped rest p = (p, cancelled)

  unfoldable pub close_upstream_then : (Proxy → Proxy × Got) → Proxy → Proxy × Got
  close_upstream_then rest p = close_then p.upstream.closing rest p

  unfoldable pub observe_reading : Option (ℕ × Option StreamUsage) → StreamAttempt → StreamAttempt
  observe_reading none a = a
  observe_reading (some (len, none)) a = observe_text_estimate len a
  observe_reading (some (len, some usage)) a =
      let b = observe_text_estimate len a in
      record b { observed_usage = observe_usage b.observed_usage usage }

  abbrev drop_signal : List Signal → Proxy → Proxy
  drop_signal rest p = record p { upstream = record p.upstream { signals = rest } }

  -- After a chunk: it is observed, and given to the caller unless the local cutoff is reached.
  unfoldable pub pass_chunk : Chunk → Proxy → Proxy × Got
  pass_chunk c p =
      let q = record p { attempt = observe_reading c.reading p.attempt } in
      if should_cutoff q.attempt
      then close_upstream_then (end_with cutoff none cutoff_error) q
      else (q, item c)

  unfoldable pub on_signal : Signal → Proxy → Proxy × Got
  on_signal (chunk c) p = pass_chunk c p
  on_signal cuts p = close_upstream_then (end_with cutoff none cutoff_error) p
  on_signal fails p = close_upstream_then (end_with provider_error none upstream_error) p
  on_signal interrupts p = (p, cancelled)

  -- `__next__`, with the signals that the iterator still has.
  unfoldable pub next_of : List Signal → Proxy → Proxy × Got
  next_of [] p =
      end_with complete p.upstream.final_usage stop_iteration (record p { exhausted = true })
  next_of (s ∷ rest) p = on_signal s (drop_signal rest p)

  -- `__next__`.
  unfoldable pub next : Proxy → Proxy × Got
  next p = next_of p.upstream.signals p

  -- `close`.
  unfoldable pub close : Proxy → Proxy × Got
  close p =
      if p.closed
      then (p, returned)
      else close_upstream_then (end_unless_final client_cancelled returned)
          (record p { closed = true })

  -- How `__enter__` of the provider's stream ends: there is none, it raises, or it gives a stream.
  unfoldable pub enter : Way → Option Upstream → Proxy → Proxy × Got
  enter absent entered p = (p, returned)
  enter works none p = (record p { entered = true }, returned)
  enter works (some other) p = (record p { entered = true; upstream = other }, returned)
  enter raises entered p = end_with provider_error none upstream_error p
  enter stopped entered p = (p, cancelled)

  -- The outcome of a `with` block that is left: by the cutoff, after the end of the stream, or before.
  unfoldable pub leaving : Bool → Bool → StreamOutcome
  leaving by_cutoff exhausted =
      if by_cutoff then cutoff else if exhausted then complete else client_cancelled

  unfoldable pub exit_end : Bool → Proxy → Proxy × Got
  exit_end by_cutoff p = end_unless_final (leaving by_cutoff p.exhausted) returned p

  unfoldable pub exit_entered : Way → Bool → Proxy → Proxy × Got
  exit_entered absent by_cutoff p =
      close_upstream_then (exit_end by_cutoff) (record p { closed = true })
  exit_entered works by_cutoff p = exit_end by_cutoff (record (marked true p) { closed = true })
  exit_entered raises by_cutoff p =
      end_unless_final provider_error upstream_error (record p { closed = true })
  exit_entered stopped by_cutoff p = (record p { closed = true }, cancelled)

  -- `__exit__`, where the block is left by a StreamCutoffError or not.
  unfoldable pub exit : Bool → Proxy → Proxy × Got
  exit by_cutoff p = exit_entered (if p.entered then p.upstream.exiting else absent) by_cutoff p

module _ (callbacks : Callbacks) (now : ℤ) where
  -- `for chunk in stream` over the sync class, whose body breaks after a number of chunks: the generator of `__iter__`
  -- closes the stream as it is left, if the attempt is not final.
  unfoldable pub leave_loop : Proxy × Got → Proxy × Got
  leave_loop (p, got) =
      if p.attempt.finalized
      then (p, got)
      else let (q, of_close) = close sync callbacks now p in (q, unless_cancelled of_close got)

  unfoldable pub loop_on : (Proxy → Proxy × Got) → Proxy × Got → Proxy × Got
  loop_on again (p, item c) = again p
  loop_on again (p, got) = leave_loop (p, got)

  unfoldable pub loop : ℕ → Proxy → Proxy × Got
  loop zero p = leave_loop (p, returned)
  loop (suc n) p = loop_on (loop n) (next sync callbacks now p)

-- A call of the proxy by its user.
pub data Call : Type 0 where
  calls_next calls_close : Call
  calls_enter : Way → Option Upstream → Call
  calls_exit : (by_cutoff : Bool) → Call

unfoldable pub step : Kind → Callbacks → ℤ → Proxy → Call → Proxy
step kind callbacks now p calls_next = (next kind callbacks now p).0
step kind callbacks now p calls_close = (close kind callbacks now p).0
step kind callbacks now p (calls_enter way other) = (enter kind callbacks now way other p).0
step kind callbacks now p (calls_exit by_cutoff) = (exit kind callbacks now by_cutoff p).0

unfoldable pub run : Kind → Callbacks → ℤ → Proxy → List Call → Proxy
run kind callbacks now p [] = p
run kind callbacks now p (c ∷ calls) = run kind callbacks now (step kind callbacks now p c) calls
