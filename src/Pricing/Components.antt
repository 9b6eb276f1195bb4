-- ===== src/Pricing/Components.antt =====
-- What `usage_components` of kazenai/request_pricing.py makes of a report: no token is billed
-- twice, none is lost, and no figure of the input is negative.
use kazenai_core.Base.{zero, suc, not, ◌&&◌, ◌||◌, ◌≡◌, Bool, true, if◌then◌else◌, if_cases, arith}
use kazenai_core.Base.Amount.{ℤ, pos, negsuc, ◌+ℤ◌, ◌-ℤ◌, ◌≤ℤ◌, ltb_ℤ, floor_zero, int_laws}
use kazenai_core.Pricing.Rates.{Tokens}
use kazenai_core.Pricing.Usage.{
  Node, is_zero, min_ℤ, uncached_of, cached_of, billed_of, audio_of, Figures, figures,
  components_of, usage_components,
}

-- The input tokens that are charged, of every kind.
abbrev pub charged_input : Tokens → ℤ
charged_input t =
    t.input_tokens +ℤ t.audio_input_tokens +ℤ t.cached_input_tokens +ℤ t.cache_write_5m_tokens
    +ℤ t.cache_write_1h_tokens

uncached_lem :
    (b : Bool) (cached prompt : ℤ)
    → b ≡ true
    → pos 0 ≤ℤ cached
    → cached ≤ℤ prompt
    → (if b && not (is_zero cached) then floor_zero (prompt -ℤ cached) else prompt)
      ≡ prompt -ℤ cached
unfolding ◌-ℤ◌
uncached_lem b (pos zero) prompt e low high = ground arith
uncached_lem b (pos (suc c)) prompt e low high = ground arith
uncached_lem b (negsuc c) prompt e low high = ground arith

cached_lem :
    (b b' : Bool) (cached : ℤ)
    → b ≡ true
    → (if b && not (is_zero cached) then cached else if b' then cached else pos 0) ≡ cached
cached_lem b b' (pos zero) e = ground arith
cached_lem b b' (pos (suc c)) e = ground arith
cached_lem b b' (negsuc c) e = ground arith

floor_lem : (x : ℤ) → pos 0 ≤ℤ x → floor_zero x ≡ x
floor_lem x h = ground arith

sums :
    (prompt cached w5 w1 audio : ℤ)
    → (prompt -ℤ cached -ℤ w5 -ℤ w1 -ℤ audio) +ℤ audio +ℤ cached +ℤ w5 +ℤ w1 ≡ prompt
sums prompt cached w5 w1 audio = omega int_laws

cached_of_lem : (f : Figures) → f.has_prompt ≡ true → cached_of f ≡ f.cached
unfolding cached_of
cached_of_lem f e = cached_lem f.has_prompt _ f.cached e

nested_floor :
    (prompt cached w5 w1 : ℤ)
    → pos 0 ≤ℤ cached
    → pos 0 ≤ℤ w5
    → pos 0 ≤ℤ w1
    → cached +ℤ w5 +ℤ w1 ≤ℤ prompt
    → (cached ≤ℤ prompt) × (pos 0 ≤ℤ (prompt -ℤ cached -ℤ w5 -ℤ w1))
nested_floor prompt cached w5 w1 a b c fits = (omega int_laws, omega int_laws)

billed_of_lem :
    (f : Figures)
    → f.has_prompt ≡ true
    → f.normalized ≡ true
    → pos 0 ≤ℤ f.cached
    → pos 0 ≤ℤ f.write_5m
    → pos 0 ≤ℤ f.write_1h
    → f.cached +ℤ f.write_5m +ℤ f.write_1h ≤ℤ f.prompt
    → billed_of f ≡ f.prompt -ℤ f.cached -ℤ f.write_5m -ℤ f.write_1h
unfolding billed_of uncached_of
billed_of_lem f prompt normal cached w5 w1 fits =
    let (below, left) = nested_floor f.prompt f.cached f.write_5m f.write_1h cached w5 w1 fits in
    rw (normal, uncached_lem f.has_prompt f.cached f.prompt prompt cached below) (floor_lem _ left)

pub components_of-charged :
    (f : Figures)
    → f.has_prompt ≡ true
    → f.normalized ≡ true
    → pos 0 ≤ℤ f.cached
    → pos 0 ≤ℤ f.write_5m
    → pos 0 ≤ℤ f.write_1h
    → f.cached +ℤ f.write_5m +ℤ f.write_1h ≤ℤ f.prompt
    → charged_input (components_of f) ≡ f.prompt
unfolding components_of
components_of-charged f prompt normal cached w5 w1 fits =
    rw (billed, cached_is) (sums f.prompt f.cached f.write_5m f.write_1h (audio_of f))
  where
    cached_is : cached_of f ≡ f.cached
    cached_is = cached_of_lem f prompt

    billed : billed_of f ≡ f.prompt -ℤ f.cached -ℤ f.write_5m -ℤ f.write_1h
    billed = billed_of_lem f prompt normal cached w5 w1 fits

-- No input figure of the result is below zero, whatever the report says.
rest_nonneg : (a b : ℤ) → pos 0 ≤ℤ (b -ℤ min_ℤ a b)
rest_nonneg a b =
    if_cases (λ (m : ℤ). pos 0 ≤ℤ (b -ℤ m)) (ltb_ℤ b a) (λ h. omega int_laws)
      (λ h. let le : a ≤ℤ b = ground arith in omega int_laws)

-- Whatever the report says, negative figures included, the uncached input is not negative.
pub components_of-floor : (f : Figures) → pos 0 ≤ℤ (components_of f).input_tokens
unfolding components_of audio_of
components_of-floor f = rest_nonneg (floor_zero f.audio) (billed_of f)

either : (b c d : Bool) → b ≡ true → (b || c || d) ≡ true
either b c d e = ground arith

figures-has_prompt : (u : Node) → (figures u).normalized ≡ true → (figures u).has_prompt ≡ true
unfolding figures
figures-has_prompt u normal = either _ _ _ normal

-- Where the report has `prompt_tokens`, and its cached and written tokens are no negative numbers and
-- lie within it, every prompt token is charged exactly once: as plain input, audio, cached or written.
pub usage_components-charged :
    (u : Node)
    → (figures u).normalized ≡ true
    → pos 0 ≤ℤ (figures u).cached
    → pos 0 ≤ℤ (figures u).write_5m
    → pos 0 ≤ℤ (figures u).write_1h
    → (figures u).cached +ℤ (figures u).write_5m +ℤ (figures u).write_1h ≤ℤ (figures u).prompt
    → charged_input (usage_components u) ≡ (figures u).prompt
unfolding usage_components
usage_components-charged u normal =
    components_of-charged (figures u) (figures-has_prompt u normal) normal
