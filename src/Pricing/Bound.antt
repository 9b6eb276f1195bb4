-- ===== src/Pricing/Bound.antt =====
-- The bound that kazenai/request_pricing.py reserves before a call covers what it settles afterwards.
use native.Mathlib.Nat.{mul-le-mul_left, mul-le-mul_right, add-mul, add-le-add, le_trans, le_of_eq}
use kazenai_core.Base.{
  ℕ, ◌+◌, ◌*◌, ◌≤◌, ◌≡◌, refl, sym, subst, Bool, true, false, ◌||◌, String, str_eq, Option, none,
  some, if◌then◌else◌, arith,
}
use kazenai_core.Base.Amount.{pos_part}
use kazenai_core.Pricing.Decimals.{Decimal, at}
use kazenai_core.Pricing.Rates.{
  RateVector, Tokens, scaled, effective_component, audio_rate, cost_micro_usd,
}
use kazenai_core.Pricing.Cost.{IsFine, worth, cost_micro_usd-le}
use kazenai_core.Pricing.Usage.{Node, usage_components, components_of}
use kazenai_core.Pricing.Decision.{
  Projection, CallPricing, build, build_decision, reserve_tokens, call_pricing,
}
use kazenai_core.Pricing.Tiers.{Tiers}
use kazenai_core.Pricing.Settling.{
  Settings, Settled, settle_usage, settle_tier, settle_at, tier_of, mismatches,
}

-- The rate at which the input of a call is reserved.
abbrev pub reserved_rate : String → RateVector → Decimal
reserved_rate kind r =
    if str_eq kind "5m"
    then effective_component r.cache_write_5m r.input
    else if str_eq kind "1h"
    then effective_component r.cache_write_1h r.input
    else r.input

-- No kind of input token costs more than the rate d.
pub record IsUnder (p : ℕ) (r : RateVector) (d : Decimal) : Type 0 where
  pub input_under : at p r.input ≤ at p d
  pub cached_under : at p (effective_component r.cached_input r.input) ≤ at p d
  pub write_5m_under : at p (effective_component r.cache_write_5m r.input) ≤ at p d
  pub write_1h_under : at p (effective_component r.cache_write_1h r.input) ≤ at p d
  pub audio_under : at p (audio_rate r) ≤ at p d

-- The input tokens of all kinds.
abbrev pub input_count : Tokens → ℕ
input_count t =
    pos_part t.input_tokens
    + pos_part t.cached_input_tokens
    + pos_part t.cache_write_5m_tokens
    + pos_part t.cache_write_1h_tokens
    + pos_part t.audio_input_tokens

at_one_rate :
    (i c w v a n x xc xw xv xa top : ℕ)
    → x ≤ top
    → xc ≤ top
    → xw ≤ top
    → xv ≤ top
    → xa ≤ top
    → i + c + w + v + a ≤ n
    → i * x + c * xc + w * xw + v * xv + a * xa ≤ n * top
at_one_rate i c w v a n x xc xw xv xa top hx hc hw hv ha fits = omega (
  arith,
  mul-le-mul_left i hx,
  mul-le-mul_left c hc,
  mul-le-mul_left w hw,
  mul-le-mul_left v hv,
  mul-le-mul_left a ha,
  mul-le-mul_right top fits,
  add-mul (i + c + w + v) a top,
  add-mul (i + c + w) v top,
  add-mul (i + c) w top,
  add-mul i c top,
)

one_kind :
    (k5 k1 : Bool) (f : Decimal → ℕ) (d dw dv : Decimal) (n o m xc xo xm xt xa xd : ℕ)
    → n * f (if k5 then dw else if k1 then dv else d) + o * xo
      ≤ (if k5 || k1 then 0 else n) * f d
        + 0 * xc
        + (if k5 then n else 0) * f dw
        + (if k1 then n else 0) * f dv
        + o * xo
        + m * xm
        + 0 * xt
        + (0 * xa + 0 * xd)
one_kind true true f d dw dv n o m xc xo xm xt xa xd = omega arith
one_kind true false f d dw dv n o m xc xo xm xt xa xd = omega arith
one_kind false true f d dw dv n o m xc xo xm xt xa xd = omega arith
one_kind false false f d dw dv n o m xc xo xm xt xa xd = omega arith

-- The kinds that a usage report does not name are not settled.
plain :
    (i c w v o a x xc xw xv xo xm xt xa xd : ℕ)
    → i * x + c * xc + w * xw + v * xv + o * xo + 0 * xm + 0 * xt + (a * xa + 0 * xd)
      ≡ i * x + c * xc + w * xw + v * xv + a * xa + o * xo
plain i c w v o a x xc xw xv xo xm xt xa xd = omega arith

module _ (p : ℕ) (r : RateVector) (kind : String) (fine : IsFine p r)
    (under : IsUnder p r (reserved_rate kind r)) where
  usage_components-worth :
      (u : Node) (input output image : ℕ)
      → input_count (usage_components u) ≤ input
      → pos_part (usage_components u).output_tokens ≤ output
      → worth p r (usage_components u) ≤ worth p r (reserve_tokens kind input output image)
  unfolding usage_components components_of reserve_tokens
  usage_components-worth u input output image fits out =
      let t = usage_components u in
      le_trans
        (le_of_eq (
          plain (pos_part t.input_tokens) (pos_part t.cached_input_tokens)
            (pos_part t.cache_write_5m_tokens) (pos_part t.cache_write_1h_tokens)
            (pos_part t.output_tokens) (pos_part t.audio_input_tokens) _ _ _ _ _ _ _ _ _))
        (le_trans
          (add-le-add
            (at_one_rate _ _ _ _ _ input _ _ _ _ _ (at p (reserved_rate kind r)) under.input_under
              under.cached_under under.write_5m_under under.write_1h_under under.audio_under fits)
            (mul-le-mul_right (at p r.output) out))
          (one_kind (str_eq kind "5m") (str_eq kind "1h") (at p) r.input
            (effective_component r.cache_write_5m r.input)
            (effective_component r.cache_write_1h r.input) input output image _ _ _ _ _ _))

  pub usage_components-reserve :
      (u : Node) (input output image : ℕ)
      → input_count (usage_components u) ≤ input
      → pos_part (usage_components u).output_tokens ≤ output
      → cost_micro_usd r (usage_components u)
        ≤ cost_micro_usd r (reserve_tokens kind input output image)
  usage_components-reserve u input output image fits out =
      cost_micro_usd-le p r r (usage_components u) (reserve_tokens kind input output image) fine
        fine (usage_components-worth u input output image fits out)

-- The rates at which a projection is priced.
abbrev pub rates_of : Projection → RateVector
rates_of q = scaled q.row.rates q.multiplier

-- A report without another tier is settled at the frozen rates.
pub settle_tier-expected :
    (s : Settings) (tier : Option String) (org : String) (u : Node) (pricing : CallPricing)
    (tiers : Tiers)
    → mismatches pricing.decision tier ≡ false
    → settle_tier s tier org u pricing tiers
      ≡ settle_at pricing.decision.rate_vector u pricing tiers
unfolding settle_tier
settle_tier-expected s none org u pricing tiers _ = refl
settle_tier-expected s (some tier) org u pricing tiers e = rw (e) refl

abbrev priced : Projection → CallPricing
priced q = record (build q) { exposure_source = "certified_row" }

-- The amount is returned and is at most the amount reserved, and nothing is held.
abbrev pub IsWithin : Projection → Tiers → Settled → Type 0
IsWithin q tiers out =
    (m : ℕ) × (out.micros ≡ some m)
    × (m ≤ (build_decision q).reserved_micro_usd)
    × (out.pricing.hold_for_reconciliation ≡ false)
    × (out.tiers ≡ tiers)

settle_at-IsWithin :
    (p : ℕ) (q : Projection) (u : Node) (tiers : Tiers)
    → IsFine p (rates_of q)
    → IsUnder p (rates_of q) (reserved_rate q.cache_kind (rates_of q))
    → input_count (usage_components u) ≤ q.input_tokens
    → pos_part (usage_components u).output_tokens ≤ q.output_tokens
    → IsWithin q tiers (settle_at (rates_of q) u (priced q) tiers)
unfolding settle_at build call_pricing build_decision
settle_at-IsWithin p q u tiers fine under input output = (
  _,
  refl,
  usage_components-reserve p (rates_of q) q.cache_kind fine under u q.input_tokens q.output_tokens
      q.image_tokens input output,
  refl,
  refl,
)

-- For a call whose report names the tier that was expected, or none: where every kind of input costs at
-- most the rate that the input was reserved at, and the report counts no more input and output tokens
-- than were projected, the settled amount is returned, is at most the amount reserved, and neither
-- holds the call nor touches the admission breaker.
pub settle_usage-reserved :
    (p : ℕ) (q : Projection) (s : Settings) (u : Node) (reported : Option String) (org : String)
    (tiers : Tiers)
    → IsFine p (rates_of q)
    → IsUnder p (rates_of q) (reserved_rate q.cache_kind (rates_of q))
    → input_count (usage_components u) ≤ q.input_tokens
    → pos_part (usage_components u).output_tokens ≤ q.output_tokens
    → mismatches (build_decision q) (tier_of s u reported) ≡ false
    → IsWithin q tiers (settle_usage s (build q) u reported org tiers)
unfolding settle_usage build call_pricing build_decision
settle_usage-reserved p q s u reported org tiers fine under input output expected =
    subst (IsWithin q tiers) (sym (settle_tier-expected s _ org u (priced q) tiers expected))
      (settle_at-IsWithin p q u tiers fine under input output)
