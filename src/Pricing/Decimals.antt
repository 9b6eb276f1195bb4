-- ===== src/Pricing/Decimals.antt =====
-- The non-negative finite numbers of Python's `decimal`, exact, and `decimal_to_micro_usd` of
-- kazenai/price_catalog.py: half-even to nano-dollars, then up to micro-dollars.
use kazenai_core.Base.{
  ℕ, ◌+◌, ◌-◌, ◌*◌, ◌/◌, ◌%◌, ◌^◌, max, Bool, true, false, not, ltb, ◌==◌, if◌then◌else◌,
}

-- coefficient / 10 ^ places
pub record Decimal : Type 0 where
  pub coefficient : ℕ
  pub places : ℕ

abbrev pub decimal_of : ℕ → ℕ → Decimal
decimal_of c p = record { coefficient = c; places = p }

-- `Decimal(n)` of an int.
abbrev pub whole : ℕ → Decimal
whole n = decimal_of n 0

-- The coefficient of the same number when it is written with p places, p ≥ places.
abbrev pub at : ℕ → Decimal → ℕ
at p d = d.coefficient * 10 ^ (p - d.places)

infixl 65 ◌+ᴰ◌
infixl 70 ◌*ᴰ◌
unfoldable pub ◌+ᴰ◌ : Decimal → Decimal → Decimal
a +ᴰ b =
    decimal_of (at (max a.places b.places) a + at (max a.places b.places) b) (max a.places b.places)

unfoldable pub ◌*ᴰ◌ : Decimal → Decimal → Decimal
a *ᴰ b = decimal_of (a.coefficient * b.coefficient) (a.places + b.places)

-- x / Decimal(1_000_000)
unfoldable pub per_million : Decimal → Decimal
per_million d = decimal_of d.coefficient (d.places + 6)

-- Whether a quotient q with remainder r of d rounds up, half to even.
unfoldable pub round_up : ℕ → ℕ → ℕ → Bool
round_up q r d = if ltb (2 * r) d then false else if ltb d (2 * r) then true else not (q % 2 == 0)

unfoldable pub rounded : ℕ → ℕ → ℕ → ℕ
unfolding round_up
rounded q r d = if round_up q r d then q + 1 else q

-- n / d, rounded half to even.
unfoldable pub half_even : ℕ → ℕ → ℕ
unfolding rounded
half_even n d = rounded (n / d) (n % d) d

-- The nano-dollars that `quantize` leaves of coefficient / unit dollars.
unfoldable pub nanos : ℕ → ℕ → ℕ
unfolding half_even
nanos coefficient unit = half_even (coefficient * 1_000_000_000) unit

abbrev pub ceil_thousand : ℕ → ℕ
ceil_thousand n = (n + 999) / 1000

unfoldable pub decimal_to_micro_usd : Decimal → ℕ
unfolding nanos
decimal_to_micro_usd amount = ceil_thousand (nanos amount.coefficient (10 ^ amount.places))

-- `micro_usd_to_decimal`.
unfoldable pub micro_usd_to_decimal : ℕ → Decimal
micro_usd_to_decimal micros = decimal_of micros 6
