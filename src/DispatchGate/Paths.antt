-- ===== src/DispatchGate/Paths.antt =====
-- The texts of paths that kazenai/_dispatch_gate.py takes apart.
use kazenai_core.Base.{
  ℕ, ◌≡◌, refl, ap, ◌∙◌, Bool, true, false, ◌||◌, List, [], ◌∷◌, String, if◌then◌else◌, ◌==◌, ◌↔◌,
  zero, suc, str_eq, eq_iff,
}
use kazenai_core.Base.Text.{concat, take_chars}
use Prim.Native.Char.{code}

-- `text.split(c, 1)[0]`: the text before the first character with this code.
unfoldable pub cut_at : ℕ → String → String
cut_at n String.[] = String.[]
cut_at n (String.◌∷◌ c s) =
    let rest = cut_at n s in if code c == n then String.[] else String.◌∷◌ c rest

unfoldable pub has_char : ℕ → String → Bool
has_char n String.[] = false
has_char n (String.◌∷◌ c s) = code c == n || has_char n s

unfoldable pub chars : String → ℕ
chars String.[] = 0
chars (String.◌∷◌ c s) = suc (chars s)

-- `text.startswith(prefix)`.
unfoldable pub starts_with : String → String → Bool
unfolding chars
starts_with prefix s = str_eq (take_chars (chars prefix) s) prefix

pub drop_chars : ℕ → String → String
drop_chars zero s = s
drop_chars (suc n) String.[] = String.[]
drop_chars (suc n) (String.◌∷◌ c s) = drop_chars n s

-- `text[len(prefix):]`.
pub drop_prefix : String → String → String
unfolding drop_chars chars
drop_prefix prefix s = drop_chars (chars prefix) s

abbrev pub push_first : String → List String → List String
push_first s [] = s ∷ []
push_first s (t ∷ ts) = concat s t ∷ ts

-- `text.split("/")`.
unfoldable pub split_slash : String → List String
split_slash String.[] = "" ∷ []
split_slash (String.◌∷◌ c s) =
    let rest = split_slash s in
    if code c == b'/' then "" ∷ rest else push_first (String.◌∷◌ c "") rest

take-drop : (n : ℕ) (s : String) → s ≡ concat (take_chars n s) (drop_chars n s)
unfolding take_chars drop_chars concat
take-drop zero s = refl
take-drop (suc n) String.[] = refl
take-drop (suc n) (String.◌∷◌ c s) = ap (String.◌∷◌ c) (take-drop n s)

take-concat : (prefix rest : String) → take_chars (chars prefix) (concat prefix rest) ≡ prefix
unfolding take_chars chars concat
take-concat String.[] rest = refl
take-concat (String.◌∷◌ c p) rest = ap (String.◌∷◌ c) (take-concat p rest)

-- A text that starts with another is that text and a rest.
pub starts_with-concat :
    (prefix s : String)
    → (starts_with prefix s ≡ true) ↔ ((rest : String) × (s ≡ concat prefix rest))
unfolding starts_with
starts_with-concat prefix s = (
  λ e.
      let same = (eq_iff (take_chars (chars prefix) s) prefix).0 e in
      (
        drop_chars (chars prefix) s,
        take-drop (chars prefix) s ∙ ap (λ k. concat k (drop_chars (chars prefix) s)) same,
      ),
  λ found.
      let (rest, e) = found in
      rw e (
        (eq_iff (take_chars (chars prefix) (concat prefix rest)) prefix).1
          (take-concat prefix rest)),
)

pub concat_assoc : (a b c : String) → concat (concat a b) c ≡ concat a (concat b c)
unfolding concat
concat_assoc String.[] b c = refl
concat_assoc (String.◌∷◌ x a) b c = ap (String.◌∷◌ x) (concat_assoc a b c)
