-- ===== src/Base/Text.antt =====
-- Python's `str.strip`, `rstrip("/")`, `startswith` and `split` on one separator, over `String`.
use Prim.Native.Nat.{ℕ, zero, suc, ◌+◌, ◌/◌, ◌%◌}
use Prim.Native.Char.{code}
use Prim.Native.String.{String}
use mathlib.Core.Bool.{Bool, true, false, ◌&&◌, ◌||◌}
use mathlib.Core.List.{List, [], ◌∷◌}
use mathlib.Core.Path.{◌≡◌, refl}
use native.Mathlib.Omega.{arith}
use kazenai_core.Base.Tests.{ltb, leb, ◌==◌, if◌then◌else◌}

-- `str.isspace` of one character: every white space of the Unicode table.
pub is_space : ℕ → Bool
is_space c =
    (leb 9 c && leb c 13)
    || (leb 28 c && leb c 32)
    || c == 133
    || c == 160
    || c == 5760
    || (leb 8192 c && leb c 8202)
    || c == 8232
    || c == 8233
    || c == 8239
    || c == 8287
    || c == 12288

pub lstrip : String → String
unfolding is_space
lstrip String.[] = String.[]
lstrip (String.◌∷◌ c s) = let rest = lstrip s in if is_space (code c) then rest else String.◌∷◌ c s

unfoldable pub is_empty : String → Bool
is_empty String.[] = true
is_empty (String.◌∷◌ c s) = false

-- Trailing characters that satisfy a test are dropped.
pub rdrop : (ℕ → Bool) → String → String
unfolding is_empty
rdrop p String.[] = String.[]
rdrop p (String.◌∷◌ c s) =
    let rest = rdrop p s in if is_empty rest && p (code c) then String.[] else String.◌∷◌ c rest

-- `str.strip()`.
unfoldable pub strip : String → String
unfolding lstrip rdrop is_space
strip s = rdrop is_space (lstrip s)

-- `s.rstrip("/")`.
unfoldable pub rstrip_slash : String → String
unfolding rdrop
rstrip_slash s = rdrop (λ c. c == b'/') s

-- `a or b` on two texts.
unfoldable pub or_text : String → String → String
unfolding is_empty
or_text a b = if is_empty a then b else a

-- `s[:n]`.
unfoldable pub take_chars : ℕ → String → String
take_chars zero s = String.[]
take_chars (suc n) String.[] = String.[]
take_chars (suc n) (String.◌∷◌ c s) = String.◌∷◌ c (take_chars n s)

-- The code points of a text, capital ASCII letters as small ones.
unfoldable pub lower_codes : String → List ℕ
lower_codes String.[] = []
lower_codes (String.◌∷◌ c s) =
    let n = code c in (if leb b'A' n && leb n b'Z' then n + 32 else n) ∷ lower_codes s

-- The code points of a text.
unfoldable pub codes : String → List ℕ
codes String.[] = []
codes (String.◌∷◌ c s) = code c ∷ codes s

unfoldable pub codes_eq : List ℕ → List ℕ → Bool
codes_eq [] [] = true
codes_eq [] (y ∷ ys) = false
codes_eq (x ∷ xs) [] = false
codes_eq (x ∷ xs) (y ∷ ys) = x == y && codes_eq xs ys

pub codes_eq_sound : (xs ys : List ℕ) → codes_eq xs ys ≡ true → xs ≡ ys
unfolding codes_eq
codes_eq_sound [] [] h = refl
codes_eq_sound [] (y ∷ ys) h = absurd (ground arith)
codes_eq_sound (x ∷ xs) [] h = absurd (ground arith)
codes_eq_sound (x ∷ xs) (y ∷ ys) h =
    let same : xs ≡ ys = codes_eq_sound xs ys (ground arith) in
    let head : x ≡ y = ground arith in rw (same, head) refl

-- `s.strip().lower() == word`, for a word of small ASCII letters other than k (no other
-- character becomes one of the rest).
unfoldable pub word_is : String → String → Bool
unfolding lower_codes codes_eq strip
word_is word s = codes_eq (lower_codes (strip s)) (lower_codes word)

-- The text `a + b`.
unfoldable pub concat : String → String → String
concat String.[] b = b
concat (String.◌∷◌ c a) b = String.◌∷◌ c (concat a b)

unfoldable pub digit : ℕ → String
digit n =
    if n == 0
    then "0"
    else if n == 1
    then "1"
    else if n == 2
    then "2"
    else if n == 3
    then "3"
    else if n == 4
    then "4"
    else if n == 5
    then "5"
    else if n == 6
    then "6"
    else if n == 7
    then "7"
    else if n == 8
    then "8"
    else "9"

-- The decimal digits of a number before a text. As much fuel as the number is enough, since a tenth
-- of what is above 9 is smaller.
unfoldable pub decimal_from : ℕ → ℕ → String → String
unfolding concat digit
decimal_from zero n after = concat (digit n) after
decimal_from (suc fuel) n after =
    let more = decimal_from fuel (n / 10) (concat (digit (n % 10)) after) in
    if ltb n 10 then concat (digit n) after else more

-- `str(n)`.
unfoldable pub decimal : ℕ → String
unfolding decimal_from
decimal n = decimal_from n n ""
