-- ===== src/Pricing/Cost.antt =====
-- The cost of a call as a sum: each kind of tokens at its own rate, added without any loss, and
-- its order, for kazenai/price_catalog.py.
use native.Mathlib.Nat.{zero-mul}
use kazenai_core.Base.{
  ℕ, ◌+◌, ◌*◌, ◌≤◌, ◌≡◌, sym, ◌∙◌, false, not, ◌||◌, ◌==◌, subst, if_cases, arith,
}
use kazenai_core.Base.Amount.{pos_part}
use kazenai_core.Pricing.Decimals.{Decimal, whole, at, ◌+ᴰ◌, ◌*ᴰ◌, per_million}
use kazenai_core.Pricing.Rounding.{
  at-+ᴰ, at-*ᴰ, at-per_million, places-+ᴰ, places-*ᴰ, places-per_million, decimal_to_micro_usd_mono,
}
use kazenai_core.Pricing.Rates.{
  RateVector, Tokens, effective_component, image_rate, tool_rate, audio_rate, audio_cached_rate,
  text_cost, audio_cost, has_audio, component_cost, cost_micro_usd,
}

-- A decimal of at most p places that is v / 10 ^ p.
abbrev pub IsWorth : ℕ → Decimal → ℕ → Type 0
IsWorth p d v = (d.places ≤ p) × (at p d ≡ v)

IsWorth-sum :
    (p : ℕ) (a b : Decimal) (x y : ℕ) → IsWorth p a x → IsWorth p b y → IsWorth p (a +ᴰ b) (x + y)
IsWorth-sum p a b x y (a_fits, a_is) (b_fits, b_is) =
    (places-+ᴰ a b p a_fits b_fits, rw (at-+ᴰ a b p a_fits b_fits, a_is, b_is))

IsWorth-count : (p n : ℕ) (d : Decimal) → d.places ≤ p → IsWorth p (whole n *ᴰ d) (n * at p d)
IsWorth-count p n d fits = (places-*ᴰ n d p fits, at-*ᴰ n d p)

IsWorth-million : (p : ℕ) (a : Decimal) (x : ℕ) → IsWorth p a x → IsWorth (p + 6) (per_million a) x
IsWorth-million p a x (fits, is) = (places-per_million a p fits, at-per_million a p ∙ is)

-- Every rate of a row has at most p places.
pub record IsFine (p : ℕ) (r : RateVector) : Type 0 where
  pub input_fits : r.input.places ≤ p
  pub cached_fits : (effective_component r.cached_input r.input).places ≤ p
  pub write_5m_fits : (effective_component r.cache_write_5m r.input).places ≤ p
  pub write_1h_fits : (effective_component r.cache_write_1h r.input).places ≤ p
  pub output_fits : r.output.places ≤ p
  pub image_fits : (image_rate r).places ≤ p
  pub tool_fits : (tool_rate r).places ≤ p
  pub audio_fits : (audio_rate r).places ≤ p
  pub audio_cached_fits : (audio_cached_rate r).places ≤ p

-- The numerator of the text part and of the audio part, over 10 ^ (p + 6) dollars.
abbrev pub text_worth : ℕ → RateVector → Tokens → ℕ
text_worth p r t =
    pos_part t.input_tokens * at p r.input
    + pos_part t.cached_input_tokens * at p (effective_component r.cached_input r.input)
    + pos_part t.cache_write_5m_tokens * at p (effective_component r.cache_write_5m r.input)
    + pos_part t.cache_write_1h_tokens * at p (effective_component r.cache_write_1h r.input)
    + pos_part t.output_tokens * at p r.output
    + pos_part t.image_tokens * at p (image_rate r)

abbrev pub audio_worth : ℕ → RateVector → Tokens → ℕ
audio_worth p r t =
    pos_part t.audio_input_tokens * at p (audio_rate r)
    + pos_part t.audio_cached_input_tokens * at p (audio_cached_rate r)

abbrev pub worth : ℕ → RateVector → Tokens → ℕ
worth p r t =
    text_worth p r t + pos_part t.tool_calls * at (p + 6) (tool_rate r) + audio_worth p r t

text_cost-IsWorth :
    (p : ℕ) (r : RateVector) (t : Tokens)
    → IsFine p r
    → IsWorth (p + 6) (text_cost r t) (text_worth p r t)
unfolding text_cost
text_cost-IsWorth p r t fine = IsWorth-million p _ _ (
    IsWorth-sum p _ _ _ _
      (IsWorth-sum p _ _ _ _
        (IsWorth-sum p _ _ _ _
          (IsWorth-sum p _ _ _ _
            (IsWorth-sum p _ _ _ _
              (IsWorth-count p (pos_part t.input_tokens) r.input fine.input_fits)
              (IsWorth-count p (pos_part t.cached_input_tokens)
                (effective_component r.cached_input r.input) fine.cached_fits))
            (IsWorth-count p (pos_part t.cache_write_5m_tokens)
              (effective_component r.cache_write_5m r.input) fine.write_5m_fits))
          (IsWorth-count p (pos_part t.cache_write_1h_tokens)
            (effective_component r.cache_write_1h r.input) fine.write_1h_fits))
        (IsWorth-count p (pos_part t.output_tokens) r.output fine.output_fits))
      (IsWorth-count p (pos_part t.image_tokens) (image_rate r) fine.image_fits))

audio_cost-IsWorth :
    (p : ℕ) (r : RateVector) (t : Tokens)
    → IsFine p r
    → IsWorth (p + 6) (audio_cost r t) (audio_worth p r t)
unfolding audio_cost
audio_cost-IsWorth p r t fine = IsWorth-million p _ _ (
    IsWorth-sum p _ _ _ _
      (IsWorth-count p (pos_part t.audio_input_tokens) (audio_rate r) fine.audio_fits)
      (IsWorth-count p (pos_part t.audio_cached_input_tokens) (audio_cached_rate r)
        fine.audio_cached_fits))

no_audio : (n m x y : ℕ) → (not (n == 0) || not (m == 0)) ≡ false → n * x + m * y ≡ 0
no_audio n m x y h = rw (first_none n m h, first_none m n (ground arith), zero-mul x, zero-mul y)
  where
    first_none : (a b : ℕ) → (not (a == 0) || not (b == 0)) ≡ false → a ≡ 0
    first_none a b e = ground arith

-- `component_cost` is exactly the sum, over the nine kinds of tokens, of the count (a negative one
-- counts as none) times the rate of that kind, per million except for tool calls, whether or not
-- the audio branch is taken.
pub component_cost-IsWorth :
    (p : ℕ) (r : RateVector) (t : Tokens)
    → IsFine p r
    → IsWorth (p + 6) (component_cost r t) (worth p r t)
unfolding component_cost
component_cost-IsWorth p r t fine =
    if_cases (λ d. IsWorth (p + 6) d (worth p r t)) (has_audio t)
      (λ h. IsWorth-sum (p + 6) _ _ _ _ total (audio_cost-IsWorth p r t fine))
      (λ h. (
        total.0,
        total.1
            ∙ omega (
              arith,
              no_audio (pos_part t.audio_input_tokens) (pos_part t.audio_cached_input_tokens)
                  (at p (audio_rate r)) (at p (audio_cached_rate r)) h,
            ),
      ))
  where
    total :
        IsWorth
          (p + 6)
          (text_cost r t +ᴰ whole (pos_part t.tool_calls) *ᴰ tool_rate r)
          (text_worth p r t + pos_part t.tool_calls * at (p + 6) (tool_rate r))
    total = IsWorth-sum (p + 6) _ _ _ _ (text_cost-IsWorth p r t fine) (
        IsWorth-count (p + 6) (pos_part t.tool_calls) (tool_rate r) (omega (arith, fine.tool_fits)))

-- With a sum that is no larger, the cost in micro-dollars is no larger.
pub cost_micro_usd-le :
    (p : ℕ) (r r' : RateVector) (t t' : Tokens)
    → IsFine p r
    → IsFine p r'
    → worth p r t ≤ worth p r' t'
    → cost_micro_usd r t ≤ cost_micro_usd r' t'
unfolding cost_micro_usd
cost_micro_usd-le p r r' t t' fine fine' h =
    decimal_to_micro_usd_mono (component_cost r t) (component_cost r' t') (p + 6) (dear.0) (dear'.0)
      (subst (λ v. v ≤ at (p + 6) (component_cost r' t')) (sym dear.1)
        (subst (λ v. worth p r t ≤ v) (sym dear'.1) h))
  where
    dear : IsWorth (p + 6) (component_cost r t) (worth p r t)
    dear = component_cost-IsWorth p r t fine

    dear' : IsWorth (p + 6) (component_cost r' t') (worth p r' t')
    dear' = component_cost-IsWorth p r' t' fine'
