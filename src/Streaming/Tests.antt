-- ===== src/Streaming/Tests.antt =====
-- Runs of kazenai/streaming/lifecycle.py.
use kazenai_core.Base.{◌≡◌, refl, true, false, Bool, none, some, [], ◌∷◌, arith}
use kazenai_core.Base.Amount.{pos}
use kazenai_core.Enforcement.{Enforcement, init}
use kazenai_core.Streaming.Usage.{
  StreamUsage, no_usage, merged, observe_usage, says_something, as_openai_style,
}
use kazenai_core.Streaming.Merging.{observe_all, IsConsistent}
use kazenai_core.Streaming.Attempt.{
  StreamAttempt, complete, Callbacks, acked, not_acked, interrupted, Reply, unknown, plan,
  tier_hold, cost_of, plan_exact,
}
use kazenai_core.Streaming.Closing.{note_outcome, plan_of, finalize}
use kazenai_core.Streaming.AsyncClosing.{finalize_async}
use kazenai_core.Streaming.AsyncSteps.{is_interrupted}
use kazenai_core.Streaming.Finalize.{Ending}
use kazenai_core.Streaming.Finished.{finalize-Ending}
use kazenai_core.Streaming.Twin.{IsStranded, finalize_async-finalize, finalize_async-interrupted}

-- The two snapshots of an Anthropic stream.
abbrev start_usage : StreamUsage
start_usage = record no_usage { input_tokens = some (pos 10); output_tokens = some (pos 1) }

abbrev last_usage : StreamUsage
last_usage = record no_usage { output_tokens = some (pos 40); authoritative = true }

abbrev pub replies : Reply → Callbacks
replies reply = record {
  postcall_cost = some (λ u style. some (pos 7));
  reconcile = some (λ reserved actual. reply);
  marks_pending = true;
  mark_cancelled = false;
  event_raises = false;
}

abbrev pub one_attempt : Bool → StreamAttempt
one_attempt done = record {
  reserved_cost = some (pos 9);
  held_projection = pos 9;
  usd_per_1k_tokens = 3;
  stream_cutoff = none;
  pricing_call = none;
  observed_usage = start_usage;
  estimated_output_tokens = 0;
  estimated_spend = 0;
  upstream_close_attempted = false;
  upstream_close_ok = false;
  finalized = done;
  finalize_in_progress = false;
  terminal_outcome = none;
  financial_pending = false;
  cost_confidence = unknown;
}

abbrev pub local_cap : Enforcement
local_cap = init (some (pos 100)) none (pos 60)

finalize-Ending_example :
    Ending
      (replies acked)
      (pos 5)
      complete
      (note_outcome complete (some last_usage) (record (one_attempt false) { finalized = true }))
      local_cap
      (finalize (replies acked) (pos 5) complete (some last_usage) (one_attempt false) local_cap)
finalize-Ending_example =
    finalize-Ending (replies acked) (pos 5) complete (some last_usage) (one_attempt false) local_cap
      refl

heard :
    is_interrupted (some (pos 9)) (some (λ reserved actual. not_acked)) (
      plan_of
        (replies not_acked)
        complete
        (note_outcome complete (some last_usage) (one_attempt false)))
    ≡ false
unfolding is_interrupted plan tier_hold cost_of plan_exact observe_usage says_something merged
    as_openai_style
heard = refl

finalize_async-finalize_example :
    finalize_async
      (replies not_acked)
      (pos 5)
      complete
      (some last_usage)
      (one_attempt false)
      local_cap
    ≡ (
      finalize (replies not_acked) (pos 5) complete (some last_usage) (one_attempt false) local_cap,
      false,
    )
finalize_async-finalize_example =
    finalize_async-finalize (replies not_acked) (pos 5) complete (some last_usage)
      (one_attempt false) local_cap refl refl heard

cut_off :
    is_interrupted (some (pos 9)) (some (λ reserved actual. interrupted)) (
      plan_of
        (replies interrupted)
        complete
        (note_outcome complete (some last_usage) (one_attempt false)))
    ≡ true
unfolding is_interrupted plan tier_hold cost_of plan_exact observe_usage says_something merged
    as_openai_style
cut_off = refl

finalize_async-interrupted_example :
    ((finalize_async
        (replies interrupted)
        (pos 5)
        complete
        (some last_usage)
        (one_attempt false)
        local_cap).1
      ≡ true)
    × IsStranded
        (replies interrupted)
        (pos 9)
        (finalize_async
          (replies interrupted)
          (pos 5)
          complete
          (some last_usage)
          (one_attempt false)
          local_cap).0
finalize_async-interrupted_example =
    finalize_async-interrupted (replies interrupted) (pos 5) (pos 9) complete (some last_usage)
      (one_attempt false) local_cap refl refl refl refl cut_off

nothing-IsConsistent : IsConsistent no_usage
nothing-IsConsistent = record {
  total = λ a b e f. absurd (ground arith);
  counted = λ e. absurd (ground arith);
}

final_usage : (observe_all no_usage (start_usage ∷ last_usage ∷ [])).authoritative ≡ true
unfolding observe_all observe_usage says_something merged
final_usage = refl
