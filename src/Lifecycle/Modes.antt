-- ===== src/Lifecycle/Modes.antt =====
-- What `resolve_deployment_mode` of kazenai/deployment.py makes of its variables.
use kazenai_core.Base.{
  ◌≡◌, refl, sym, ap, ◌∙◌, ◌⊎◌, inl, inr, ℕ, ◌≤◌, ltb, Bool, true, false, not, ◌&&◌, List, [], ◌∷◌,
  any, All, Option, none, some, if_cases, if◌then◌else◌, arith,
}
use kazenai_core.Lifecycle.{Var, Env, Mode, development, test, staging, production}
use kazenai_core.Base.Results.{ok, bind_ok, ok_inj}
use kazenai_core.Lifecycle.Deployment.{
  mode_vars, mode_of, restrictiveness, signals, canonical_mode, canonical, is_mode,
  most_restrictive, agree_on, resolve_signals, resolve_deployment_mode,
}

-- The mode of a value, production where it names none.
abbrev pub or_production : Option Mode → Mode
or_production none = production
or_production (some mode) = mode

-- One of the values stands for a mode.
abbrev pub Names : Mode → List (Var × List ℕ) → Type 0
Names mode [] = ⊥
Names mode ((v, raw) ∷ rest) = (or_production (mode_of raw) ≡ mode) ⊎ Names mode rest

-- A mode that one of the values stands for, development where there is no value.
abbrev pub IsChosen : Mode → List (Var × List ℕ) → Type 0
IsChosen mode [] = mode ≡ development
IsChosen mode (s ∷ rest) = Names mode (s ∷ rest)

-- The most restrictive of the modes that the values stand for, development where there is no value.
pub record IsMostRestrictive (values : List (Var × List ℕ)) (mode : Mode) : Type 0 where
  pub above :
      All
        (λ (s : Var × List ℕ). restrictiveness (or_production (mode_of s.1)) ≤ restrictiveness mode)
        values
  pub chosen : IsChosen mode values

restrictiveness-inj : (a b : Mode) → restrictiveness a ≡ restrictiveness b → a ≡ b
restrictiveness-inj development development h = refl
restrictiveness-inj test test h = refl
restrictiveness-inj staging staging h = refl
restrictiveness-inj production production h = refl
restrictiveness-inj _ _ h = absurd (omega arith)

-- The variables that lenient reading makes of values.
abbrev pub lenient : List (Var × List ℕ) → List (Var × Mode)
lenient [] = []
lenient ((v, raw) ∷ rest) = (v, or_production (mode_of raw)) ∷ lenient rest

canonical_mode-lenient :
    (v : Var) (raw : List ℕ) (m : Option Mode) → canonical_mode false v raw m ≡ ok (or_production m)
canonical_mode-lenient v raw none = refl
canonical_mode-lenient v raw (some mode) = refl

pub canonical-lenient :
    (values : List (Var × List ℕ)) → canonical false values ≡ ok (lenient values)
unfolding canonical
canonical-lenient [] = refl
canonical-lenient ((v, raw) ∷ rest) =
    rw (canonical_mode-lenient v raw (mode_of raw), canonical-lenient rest) refl

-- The later of two modes where it is more restrictive.
abbrev stricter : Mode → Mode → Mode
stricter a b = if ltb (restrictiveness a) (restrictiveness b) then b else a

abbrev IsAbove : Mode → List (Var × Mode) → Type 0
IsAbove mode values = All (λ (s : Var × Mode). restrictiveness s.1 ≤ restrictiveness mode) values

abbrev IsOneOf : Mode → List (Var × Mode) → Type 0
IsOneOf mode [] = ⊥
IsOneOf mode (s ∷ rest) = (s.1 ≡ mode) ⊎ IsOneOf mode rest

stricter-above :
    (a b : Mode)
    → (restrictiveness a ≤ restrictiveness (stricter a b))
      × (restrictiveness b ≤ restrictiveness (stricter a b))
stricter-above a b =
    if_cases
      (λ (m : Mode).
        (restrictiveness a ≤ restrictiveness m) × (restrictiveness b ≤ restrictiveness m))
      (ltb (restrictiveness a) (restrictiveness b)) (λ h. (ground arith, omega arith))
      (λ h. (omega arith, ground arith))

most_restrictive-IsAbove :
    (mode : Mode) (values : List (Var × Mode))
    → (restrictiveness mode ≤ restrictiveness (most_restrictive mode values))
      × IsAbove (most_restrictive mode values) values
unfolding most_restrictive
most_restrictive-IsAbove mode [] = (omega arith, tt)
most_restrictive-IsAbove mode (s ∷ rest) =
    let bound = stricter-above mode s.1 in
    let (first, others) = most_restrictive-IsAbove (stricter mode s.1) rest in
    (omega arith, (omega arith, others))

stricter-one : (a b : Mode) → (a ≡ stricter a b) ⊎ (b ≡ stricter a b)
stricter-one a b =
    if_cases (λ (m : Mode). (a ≡ m) ⊎ (b ≡ m)) (ltb (restrictiveness a) (restrictiveness b))
      (λ _. inr refl) (λ _. inl refl)

pub most_restrictive-one :
    (mode : Mode) (values : List (Var × Mode))
    → (mode ≡ most_restrictive mode values) ⊎ IsOneOf (most_restrictive mode values) values
unfolding most_restrictive
most_restrictive-one mode [] = inl refl
most_restrictive-one mode (s ∷ rest) = elim (most_restrictive-one (stricter mode s.1) rest) [
  | inr there ↦ inr (inr there)
  | inl same ↦ elim (stricter-one mode s.1) [
    | inl old ↦ inl (old ∙ same)
    | inr new ↦ inr (inl (new ∙ same))
  ]
]

All-lenient :
    (mode : Mode) (values : List (Var × List ℕ))
    → IsAbove mode (lenient values)
    → All
        (λ (s : Var × List ℕ). restrictiveness (or_production (mode_of s.1)) ≤ restrictiveness mode)
        values
All-lenient mode [] h = tt
All-lenient mode ((v, raw) ∷ rest) h = (h.0, All-lenient mode rest h.1)

pub Names-lenient :
    (mode : Mode) (values : List (Var × List ℕ)) → IsOneOf mode (lenient values) → Names mode values
Names-lenient mode [] h = h
Names-lenient mode ((v, raw) ∷ rest) (inl here) = inl here
Names-lenient mode ((v, raw) ∷ rest) (inr there) = inr (Names-lenient mode rest there)

and_false : (b : Bool) → (b && false) ≡ false
and_false b = ground arith

agree_on-lenient :
    (values : List (Var × List ℕ))
    → (mode : Mode) × (agree_on false (lenient values) ≡ ok mode) × IsMostRestrictive values mode
unfolding agree_on
agree_on-lenient [] = (development, refl, record { above = tt; chosen = refl })
agree_on-lenient ((v, raw) ∷ rest) =
    let first = or_production (mode_of raw) in
    let mode = most_restrictive first (lenient rest) in
    let above = most_restrictive-IsAbove first (lenient rest) in
    (
      mode,
      (rw (and_false (any (λ other. not (is_mode first other.1)) (lenient rest))) refl),
      record {
        above = (above.0, All-lenient mode rest above.1);
        chosen = elim (most_restrictive-one first (lenient rest)) [
          | inl same ↦ inl same
          | inr there ↦ inr (Names-lenient mode rest there)
        ];
      },
    )

-- Where signals may disagree, the mode is the most restrictive of those that the variables name, a value
-- that is no mode counting as production; it is development where no variable is set. There always is one.
pub resolve_deployment_mode-IsMostRestrictive :
    (env : Env)
    → (mode : Mode) × (resolve_deployment_mode false env ≡ ok mode)
      × IsMostRestrictive (signals env mode_vars) mode
unfolding resolve_deployment_mode resolve_signals
resolve_deployment_mode-IsMostRestrictive env =
    let values = signals env mode_vars in rw (canonical-lenient values) (agree_on-lenient values)

strict_mode :
    (v : Var) (raw : List ℕ) (m : Option Mode) (mode : Mode)
    → canonical_mode true v raw m ≡ ok mode
    → m ≡ some mode
strict_mode v raw none mode h = absurd (cc)
strict_mode v raw (some found) mode h = ap some (ok_inj found mode h)

pub canonical-strict :
    (values : List (Var × List ℕ)) (modes : List (Var × Mode))
    → canonical true values ≡ ok modes
    → (lenient values ≡ modes)
      × All (λ (s : Var × List ℕ). mode_of s.1 ≡ some (or_production (mode_of s.1))) values
unfolding canonical
canonical-strict [] modes h = (ok_inj [] modes h, tt)
canonical-strict ((v, raw) ∷ rest) modes h =
    let (mode, read, h1) = bind_ok (canonical_mode true v raw (mode_of raw)) _ h in
    let (others, later, h2) = bind_ok (canonical true rest) _ h1 in
    let (same, known) = canonical-strict rest others later in
    let found : mode_of raw ≡ some mode = strict_mode v raw (mode_of raw) mode read in
    (rw (found, same) (ok_inj ((v, mode) ∷ others) modes h2), (rw (found) refl, known))

pub All-same :
    (first : Mode) (rest : List (Var × Mode))
    → any (λ other. not (is_mode first other.1)) rest ≡ false
    → All (λ (s : Var × Mode). s.1 ≡ first) rest
All-same first [] h = tt
All-same first (s ∷ rest) h =
    (restrictiveness-inj s.1 first (ground arith), All-same first rest (ground arith))

pub same_one :
    (first mode : Mode) (rest : List (Var × Mode))
    → All (λ (s : Var × Mode). s.1 ≡ first) rest
    → IsOneOf mode rest
    → first ≡ mode
same_one first mode [] same one = absurd one
same_one first mode (s ∷ rest) same (inl here) = sym same.0 ∙ here
same_one first mode (s ∷ rest) same (inr there) = same_one first mode rest same.1 there
