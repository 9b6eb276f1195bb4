-- ===== src/Streaming/Usage.antt =====
-- `StreamUsage` of kazenai/streaming/lifecycle.py.
use kazenai_core.Base.{
  Bool, false, not, ◌&&◌, ◌||◌, Option, none, some, [], ◌∷◌, String, if◌then◌else◌, is_some,
}
use kazenai_core.Base.Dir.{Dir, write}
use kazenai_core.Base.Amount.{ℤ, ◌+ℤ◌}

-- The provider's own report: a dict, of which later keys override, or another object.
pub data Raw : Type 0 where
  dict : Dir String → Raw
  other : String → Raw

pub record StreamUsage : Type 0 where
  pub prompt_tokens : Option ℤ
  pub completion_tokens : Option ℤ
  pub input_tokens : Option ℤ
  pub output_tokens : Option ℤ
  pub total_tokens : Option ℤ
  pub raw : Option Raw
  pub authoritative : Bool

abbrev pub no_usage : StreamUsage
no_usage = record {
  prompt_tokens = none;
  completion_tokens = none;
  input_tokens = none;
  output_tokens = none;
  total_tokens = none;
  raw = none;
  authoritative = false;
}

-- `_pick`: the newer value wins where there is one.
abbrev pub pick {ℓ} : {A : Type ℓ} → Option A → Option A → Option A
pick none old = old
pick (some new) old = some new

-- `int(a) + int(b)` where both are known.
abbrev pub sum_known : Option ℤ → Option ℤ → Option ℤ
sum_known (some a) (some b) = some (a +ℤ b)
sum_known (some a) none = none
sum_known none b = none

-- `raw.update(newer)`.
unfoldable pub update : Dir String → Dir String → Dir String
update [] old = old
update ((key, value) ∷ new) old = update new (write key value old)

unfoldable pub merge_raw : Option Raw → Option Raw → Option Raw
unfolding update
merge_raw (some (dict old)) (some (dict new)) = some (dict (update new (update old [])))
merge_raw (some (dict old)) (some (other x)) = some (dict (update old []))
merge_raw (some (dict old)) none = some (dict (update old []))
merge_raw (some (other x)) (some (dict new)) = some (dict (update new []))
merge_raw (some (other x)) (some (other y)) = some (other y)
merge_raw (some (other x)) none = some (other x)
merge_raw none (some (dict new)) = some (dict (update new []))
merge_raw none (some (other x)) = some (other x)
merge_raw none none = none

-- The input and output of a snapshot, under either provider's names.
abbrev pub effective_input : StreamUsage → Option ℤ
effective_input u = pick u.prompt_tokens u.input_tokens

abbrev pub effective_output : StreamUsage → Option ℤ
effective_output u = pick u.completion_tokens u.output_tokens

-- `self.merged(newer)`.
unfoldable pub merged : StreamUsage → StreamUsage → StreamUsage
unfolding merge_raw
merged self newer =
    let prompt = pick newer.prompt_tokens self.prompt_tokens in
    let completion = pick newer.completion_tokens self.completion_tokens in
    let input = pick newer.input_tokens self.input_tokens in
    let output = pick newer.output_tokens self.output_tokens in
    let known = sum_known (pick prompt input) (pick completion output) in
    let total = pick known (pick newer.total_tokens self.total_tokens) in
    let complete_counts =
      is_some total || (is_some (pick prompt input) && is_some (pick completion output)) in
    record {
      prompt_tokens = prompt;
      completion_tokens = completion;
      input_tokens = input;
      output_tokens = output;
      total_tokens = total;
      raw = merge_raw self.raw newer.raw;
      authoritative = complete_counts && (self.authoritative || newer.authoritative);
    }

-- The dict of `as_openai_style`: `prompt_tokens` and `input_tokens` hold one value, and so do the
-- output's.
pub record OpenaiUsage : Type 0 where
  pub prompt_tokens : Option ℤ
  pub completion_tokens : Option ℤ
  pub total_tokens : Option ℤ

-- `as_openai_style`: an empty dict is none.
unfoldable pub as_openai_style : StreamUsage → Option OpenaiUsage
as_openai_style u =
    let total = pick u.total_tokens (sum_known (effective_input u) (effective_output u)) in
    if not u.authoritative && not (is_some u.total_tokens) && not (is_some u.prompt_tokens)
    then none
    else if is_some (effective_input u) || is_some (effective_output u) || is_some total
    then some (record {
      prompt_tokens = effective_input u;
      completion_tokens = effective_output u;
      total_tokens = total;
    })
    else none

-- Whether `observe_usage` takes a snapshot.
unfoldable pub says_something : StreamUsage → Bool
says_something u =
    u.authoritative
    || is_some u.total_tokens
    || is_some u.prompt_tokens
    || is_some u.completion_tokens
    || is_some u.input_tokens
    || is_some u.output_tokens
    || is_some u.raw

-- `observe_usage`.
unfoldable pub observe_usage : StreamUsage → StreamUsage → StreamUsage
unfolding says_something
observe_usage observed u = if says_something u then merged observed u else observed
