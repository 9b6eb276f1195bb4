-- ===== src/Pricing/Rounding.antt =====
-- Rounding keeps the order and does not depend on how many places a number is written with.
use native.Mathlib.Nat.{
  le-max_left, le-max_right, max-le, add-sub_of_le, zero-add, one-le-pow, mul-one, pow-suc,
  add-zero, add-suc, le-div_iff_mul-le, eq-or-lt_of_le, div-mul-le_self, div-add-mod', mod-lt,
  mul-add-div_right, div-eq_of_lt, mul-pos, mul-le-mul_right, add-mul, mul_assoc, mul_right_comm,
}
use kazenai_core.Base.{
  ℕ, zero, suc, ◌+◌, ◌-◌, ◌*◌, ◌/◌, ◌%◌, ◌^◌, ◌≤◌, ◌<◌, ◌≡◌, sym, max, ◌∙◌, subst, ap, ◌⊎◌, inl,
  inr, Bool-cases, ltb, arith,
}
use kazenai_core.Pricing.Decimals.{
  round_up, rounded, half_even, nanos, ceil_thousand, decimal_to_micro_usd, Decimal, at, ◌+ᴰ◌, ◌*ᴰ◌,
  per_million, whole,
}

rounded_mono :
    (q r q' r' d : ℕ) → (q < q') ⊎ ((q ≡ q') × (r ≤ r')) → rounded q r d ≤ rounded q' r' d
unfolding rounded round_up
rounded_mono q r q' r' d h = ground arith

div_mono : (n m d : ℕ) → 0 < d → n ≤ m → n / d ≤ m / d
div_mono n m d pos h = (le-div_iff_mul-le pos).1 (omega (arith, div-mul-le_self n d))

pub half_even_mono : (n m d : ℕ) → 0 < d → n ≤ m → half_even n d ≤ half_even m d
unfolding half_even
half_even_mono n m d pos h =
    rounded_mono (n / d) (n % d) (m / d) (m % d) d (elim (eq-or-lt_of_le (div_mono n m d pos h)) [
      | inr less ↦ inl less
      | inl same ↦
          inr (same, omega (arith, div-add-mod' n d, div-add-mod' m d, ap (λ q. q * d) same))
    ])

-- Written with more places, a number rounds to the same.
ltb_scale : (a b k : ℕ) → 0 < k → ltb (a * k) (b * k) ≡ ltb a b
ltb_scale a b k pos = elim (Bool-cases (ltb a b)) [
  | inl less ↦ ground (arith, mul-le-mul_right {m = a + 1} {n = b} k (ground arith), add-mul a 1 k)
  | inr not_less ↦ ground (arith, mul-le-mul_right {m = b} {n = a} k (ground arith))
]

rounded_scale : (q r d k : ℕ) → 0 < k → rounded q (r * k) (d * k) ≡ rounded q r d
unfolding rounded round_up
rounded_scale q r d k pos =
    rw (← mul_assoc 2 r k, ltb_scale (2 * r) d k pos, ltb_scale d (2 * r) k pos)

scaled : (n d k : ℕ) → n * k ≡ n / d * (d * k) + n % d * k
scaled n d k =
    subst (λ t. t * k ≡ n / d * (d * k) + n % d * k) (div-add-mod' n d)
      (rw (add-mul (n / d * d) (n % d) k, mul_assoc (n / d) d k))

small : (n d k : ℕ) → 0 < d → 0 < k → n % d * k < d * k
small n d k pos k_pos = omega (
  arith,
  mul-le-mul_right {m = n % d + 1} {n = d} k (omega (arith, mod-lt n pos)),
  add-mul (n % d) 1 k,
)

div_scale : (n d k : ℕ) → 0 < d → 0 < k → (n * k) / (d * k) ≡ n / d
div_scale n d k pos k_pos = rw (
  scaled n d k,
  mul-add-div_right (mul-pos pos k_pos) (n / d) (n % d * k),
  div-eq_of_lt (small n d k pos k_pos),
  add-zero (n / d),
)

mod_scale : (n d k : ℕ) → 0 < d → 0 < k → (n * k) % (d * k) ≡ n % d * k
mod_scale n d k pos k_pos = omega (
  arith,
  div-add-mod' (n * k) (d * k),
  scaled n d k,
  ap (λ q. q * (d * k)) (div_scale n d k pos k_pos),
)

pub half_even_scale : (n d k : ℕ) → 0 < d → 0 < k → half_even (n * k) (d * k) ≡ half_even n d
unfolding half_even
half_even_scale n d k pos k_pos =
    rw (
      div_scale n d k pos k_pos,
      mod_scale n d k pos k_pos,
      rounded_scale (n / d) (n % d) d k k_pos,
    )

power_pos : (n : ℕ) → 0 < 10 ^ n
power_pos n = one-le-pow n 10 (omega arith)

power_add : (a b : ℕ) → 10 ^ (a + b) ≡ 10 ^ a * 10 ^ b
power_add a zero = rw (add-zero a, mul-one (10 ^ a))
power_add a (suc b) =
    rw
      (add-suc a b, pow-suc 10 (a + b), pow-suc 10 b, power_add a b, mul_assoc (10 ^ a) (10 ^ b) 10)

ceil_mono : (n m : ℕ) → n ≤ m → ceil_thousand n ≤ ceil_thousand m
ceil_mono n m h = omega arith

power_gap : (p q : ℕ) → p ≤ q → 10 ^ q ≡ 10 ^ p * 10 ^ (q - p)
power_gap p q h =
    subst (λ s. 10 ^ s ≡ 10 ^ p * 10 ^ (q - p)) (add-sub_of_le h) (power_add p (q - p))

-- The micro-dollars do not depend on how many places the amount is written with.
pub decimal_to_micro_usd-at :
    (d : Decimal) (p : ℕ)
    → d.places ≤ p
    → decimal_to_micro_usd d ≡ ceil_thousand (nanos (at p d) (10 ^ p))
unfolding decimal_to_micro_usd nanos
decimal_to_micro_usd-at d p h = ap ceil_thousand (
    rw (
      power_gap d.places p h,
      mul_right_comm d.coefficient (10 ^ (p - d.places)) 1_000_000_000,
      half_even_scale (d.coefficient * 1_000_000_000) (10 ^ d.places) (10 ^ (p - d.places))
          (power_pos d.places) (power_pos (p - d.places)),
    ))

-- A smaller amount is never rounded to more, however the two are written.
pub decimal_to_micro_usd_mono :
    (a b : Decimal) (p : ℕ)
    → a.places ≤ p
    → b.places ≤ p
    → at p a ≤ at p b
    → decimal_to_micro_usd a ≤ decimal_to_micro_usd b
unfolding nanos
decimal_to_micro_usd_mono a b p ha hb h =
    rw (decimal_to_micro_usd-at a p ha, decimal_to_micro_usd-at b p hb)
      (ceil_mono _ _ (half_even_mono _ _ _ (power_pos p) (mul-le-mul_right 1_000_000_000 h)))

at_deeper : (c q m p : ℕ) → q ≤ m → m ≤ p → c * 10 ^ (m - q) * 10 ^ (p - m) ≡ c * 10 ^ (p - q)
at_deeper c q m p low high =
    mul_assoc c (10 ^ (m - q)) (10 ^ (p - m))
    ∙ ap (λ t. c * t)
        (sym (power_add (m - q) (p - m)) ∙ ap (λ s. 10 ^ s) (omega (arith, low, high)))

-- Adding, multiplying and dividing, at a fixed number of places.
pub at-+ᴰ : (a b : Decimal) (p : ℕ) → a.places ≤ p → b.places ≤ p → at p (a +ᴰ b) ≡ at p a + at p b
unfolding ◌+ᴰ◌
at-+ᴰ a b p ha hb = rw (
  add-mul (at (max a.places b.places) a) (at (max a.places b.places) b)
      (10 ^ (p - max a.places b.places)),
  at_deeper a.coefficient a.places (max a.places b.places) p (le-max_left a.places b.places)
      (max-le ha hb),
  at_deeper b.coefficient b.places (max a.places b.places) p (le-max_right a.places b.places)
      (max-le ha hb),
)

pub at-*ᴰ : (n : ℕ) (a : Decimal) (p : ℕ) → at p (whole n *ᴰ a) ≡ n * at p a
unfolding ◌*ᴰ◌
at-*ᴰ n a p = rw (zero-add a.places, mul_assoc n a.coefficient (10 ^ (p - a.places)))

pub at-per_million : (a : Decimal) (p : ℕ) → at (p + 6) (per_million a) ≡ at p a
unfolding per_million
at-per_million a p = ap (λ s. a.coefficient * 10 ^ s) (omega arith)

-- The places of a result.
pub places-+ᴰ : (a b : Decimal) (p : ℕ) → a.places ≤ p → b.places ≤ p → (a +ᴰ b).places ≤ p
unfolding ◌+ᴰ◌
places-+ᴰ a b p ha hb = max-le ha hb

pub places-*ᴰ : (n : ℕ) (a : Decimal) (p : ℕ) → a.places ≤ p → (whole n *ᴰ a).places ≤ p
unfolding ◌*ᴰ◌
places-*ᴰ n a p ha = omega (arith, ha)

pub places-per_million : (a : Decimal) (p : ℕ) → a.places ≤ p → (per_million a).places ≤ p + 6
unfolding per_million
places-per_million a p ha = omega (arith, ha)
