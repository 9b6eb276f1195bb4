-- ===== src/Pricing/Rates.antt =====
-- `RateVector`, `component_cost` and `cost_micro_usd` of kazenai/price_catalog.py: the cost of the
-- nine kinds of tokens of a call at the rates of a price row.
use kazenai_core.Base.{ℕ, ◌^◌, Bool, ◌||◌, not, ◌==◌, if◌then◌else◌, Option, none, some, get_or}
use kazenai_core.Base.Amount.{ℤ, pos_part}
use kazenai_core.Pricing.Decimals.{Decimal, whole, ◌+ᴰ◌, ◌*ᴰ◌, per_million, decimal_to_micro_usd}

-- USD per million tokens, and per call for `tool_per_call`.
pub record RateVector : Type 0 where
  pub input : Decimal
  pub cached_input : Option Decimal
  pub cache_write_5m : Option Decimal
  pub cache_write_1h : Option Decimal
  pub output : Decimal
  pub image : Option Decimal
  pub tool_per_call : Option Decimal
  pub audio_input : Option Decimal
  pub audio_cached_input : Option Decimal

-- The keyword arguments of `component_cost`.
pub record Tokens : Type 0 where
  pub input_tokens : ℤ
  pub cached_input_tokens : ℤ
  pub cache_write_5m_tokens : ℤ
  pub cache_write_1h_tokens : ℤ
  pub output_tokens : ℤ
  pub image_tokens : ℤ
  pub tool_calls : ℤ
  pub audio_input_tokens : ℤ
  pub audio_cached_input_tokens : ℤ

abbrev pub is_one : Decimal → Bool
is_one d = d.coefficient == 10 ^ d.places

abbrev pub times : Decimal → Option Decimal → Option Decimal
times multiplier none = none
times multiplier (some rate) = some (rate *ᴰ multiplier)

-- `RateVector.scaled`.
unfoldable pub scaled : RateVector → Decimal → RateVector
scaled r multiplier = if is_one multiplier then r else record {
  input = r.input *ᴰ multiplier;
  cached_input = times multiplier r.cached_input;
  cache_write_5m = times multiplier r.cache_write_5m;
  cache_write_1h = times multiplier r.cache_write_1h;
  output = r.output *ᴰ multiplier;
  image = times multiplier r.image;
  tool_per_call = times multiplier r.tool_per_call;
  audio_input = times multiplier r.audio_input;
  audio_cached_input = times multiplier r.audio_cached_input;
}

abbrev pub effective_component : Option Decimal → Decimal → Decimal
effective_component rate input_rate = get_or rate input_rate

abbrev pub image_rate : RateVector → Decimal
image_rate r = get_or r.image r.input

abbrev pub tool_rate : RateVector → Decimal
tool_rate r = get_or r.tool_per_call (whole 0)

abbrev pub audio_rate : RateVector → Decimal
audio_rate r = get_or r.audio_input r.input

abbrev cached_audio : Option Decimal → Option Decimal → Decimal → Decimal → Decimal
cached_audio (some published) audio text own = published
cached_audio none none text own = text
cached_audio none (some audio) text own = own

abbrev pub audio_cached_rate : RateVector → Decimal
audio_cached_rate r =
    cached_audio r.audio_cached_input r.audio_input (effective_component r.cached_input r.input)
      (audio_rate r)

-- The part that is priced per million tokens, audio apart.
unfoldable pub text_cost : RateVector → Tokens → Decimal
text_cost r t = per_million (
    whole (pos_part t.input_tokens) *ᴰ r.input
    +ᴰ whole (pos_part t.cached_input_tokens) *ᴰ effective_component r.cached_input r.input
    +ᴰ whole (pos_part t.cache_write_5m_tokens) *ᴰ effective_component r.cache_write_5m r.input
    +ᴰ whole (pos_part t.cache_write_1h_tokens) *ᴰ effective_component r.cache_write_1h r.input
    +ᴰ whole (pos_part t.output_tokens) *ᴰ r.output
    +ᴰ whole (pos_part t.image_tokens) *ᴰ image_rate r)

unfoldable pub audio_cost : RateVector → Tokens → Decimal
audio_cost r t = per_million (
    whole (pos_part t.audio_input_tokens) *ᴰ audio_rate r
    +ᴰ whole (pos_part t.audio_cached_input_tokens) *ᴰ audio_cached_rate r)

-- `if audio or audio_cached`
abbrev pub has_audio : Tokens → Bool
has_audio t =
    not (pos_part t.audio_input_tokens == 0) || not (pos_part t.audio_cached_input_tokens == 0)

unfoldable pub component_cost : RateVector → Tokens → Decimal
component_cost r t =
    let total = text_cost r t +ᴰ whole (pos_part t.tool_calls) *ᴰ tool_rate r in
    if has_audio t then total +ᴰ audio_cost r t else total

unfoldable pub cost_micro_usd : RateVector → Tokens → ℕ
cost_micro_usd r t = decimal_to_micro_usd (component_cost r t)
