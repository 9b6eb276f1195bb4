-- ===== src/Streaming/ProxyTests.antt =====
-- Runs of kazenai/streaming/proxy.py.
use kazenai_core.Streaming.Closing.{finalize_raises, settle_and_complete, finalize, complete_local}
use kazenai_core.Base.{◌≡◌, refl, true, false, none, some, List, [], ◌∷◌}
use kazenai_core.Base.Amount.{pos}
use kazenai_core.Streaming.Usage.{no_usage}
use kazenai_core.Streaming.Attempt.{
  should_cutoff, observe_text_estimate, mark_upstream_close, acked, not_acked, tier_hold, complete,
  client_cancelled,
}
use kazenai_core.Streaming.Tests.{replies, one_attempt, local_cap}
use kazenai_core.Streaming.Proxy.{
  pass_chunk, on_signal, observe_reading, next_of, loop_on, leave_loop, end_with, end_unless_final,
  close_upstream_then, close_then, finalize_by, chunk, Way, works, stopped, Upstream, Proxy, async,
  control_error, loop, run, Call, calls_next, calls_close, calls_enter, calls_exit, step, close,
  next,
}
use kazenai_core.Streaming.AsyncClosing.{
  begin_async, finish_async, plan_async, plan_by, cost_async, settle_async, awaited, mark_async,
  after_mark, after_settlement, finalize_async,
}
use kazenai_core.Streaming.Once.{IsKept, IsOver}
use kazenai_core.Streaming.Ways.{loop-IsOver}
use kazenai_core.Streaming.Calls.{IsRun, run-IsRun}

abbrev two_chunks : Way → Upstream
two_chunks closing = record {
  signals = chunk (record { reading = some (8, none) }) ∷ chunk (record { reading = none }) ∷ [];
  final_usage = some (record no_usage { authoritative = true });
  closing = closing;
  exiting = works;
}

abbrev proxy : Way → Proxy
proxy closing = record {
  upstream = two_chunks closing;
  closed = false;
  exhausted = false;
  entered = false;
  attempt = one_attempt false;
  enforcement = local_cap;
  log = [];
}

proxy-IsKept : IsKept (proxy works)
proxy-IsKept = record {
  once = record { idle = refl; once = refl };
  ended = λ h. absurd (cc);
  quiet = (refl, refl);
}

-- The loop is left after one chunk, and after the end of the stream.
left_early :
    (loop (replies acked) (pos 1) 1 (proxy works)).0.attempt.terminal_outcome
    ≡ some client_cancelled
unfolding loop loop_on next next_of on_signal pass_chunk should_cutoff observe_reading
    observe_text_estimate leave_loop close close_upstream_then close_then end_unless_final
    mark_upstream_close end_with finalize_by finalize settle_and_complete complete_local
left_early = refl

run_out : (loop (replies acked) (pos 1) 9 (proxy works)).0.attempt.terminal_outcome ≡ some complete
unfolding loop loop_on next next_of on_signal pass_chunk should_cutoff observe_reading
    observe_text_estimate leave_loop close close_upstream_then close_then end_unless_final
    mark_upstream_close end_with finalize_by finalize settle_and_complete complete_local
    finalize_raises
run_out = refl

loop-IsOver_example : IsOver (loop (replies acked) (pos 1) 1 (proxy works)).0
loop-IsOver_example = loop-IsOver (replies acked) (pos 1) 1 (proxy works) proxy-IsKept

abbrev with_block : List Call
with_block = calls_enter works none ∷ calls_next ∷ calls_exit false ∷ calls_close ∷ []

run-IsRun_example :
    IsRun
      (async true)
      (replies acked)
      (pos 1)
      refl
      (proxy works)
      with_block
      (run (async true) (replies acked) (pos 1) (proxy works) with_block)
run-IsRun_example =
    run-IsRun (async true) (replies acked) (pos 1) refl (proxy works) with_block proxy-IsKept
      (tt, (tt, (tt, (tt, tt))))

-- A close that is cancelled while it waits for the provider's own: the proxy counts as closed, and no
-- later close ends the attempt.
stranded :
    (run
      (async true)
      (replies acked)
      (pos 1)
      (proxy stopped)
      (calls_close ∷ calls_close ∷ [])).attempt.finalized
    ≡ false
unfolding run step close close_upstream_then close_then
stranded = refl

-- A close that is cancelled while the pending mark is awaited: the attempt is not final, and no later close
-- ends it.
unmarked :
    (run
      (async true)
      (record (replies not_acked) { mark_cancelled = true })
      (pos 1)
      (proxy works)
      (calls_close ∷ calls_close ∷ [])).attempt.finalized
    ≡ false
unfolding run step close close_upstream_then close_then end_unless_final mark_upstream_close
    end_with finalize_by finalize_async begin_async finish_async plan_async plan_by cost_async
    settle_async awaited mark_async after_mark after_settlement tier_hold
unmarked = refl

-- What the event's callback raises leaves `__next__` of the sync class in place of the end of the stream.
event_error :
    (loop (record (replies acked) { event_raises = true }) (pos 1) 9 (proxy works)).1
    ≡ control_error
unfolding loop loop_on next next_of on_signal pass_chunk should_cutoff observe_reading
    observe_text_estimate leave_loop close close_upstream_then close_then end_unless_final
    mark_upstream_close end_with finalize_by finalize settle_and_complete complete_local
    finalize_raises
event_error = refl
