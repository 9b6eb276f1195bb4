-- ===== src/Policies/Prices.antt =====
-- kazenai/pricing_policy.py: which price a model has, and what happens to a model without one. The
-- texts of the environment are arguments; a key is the list of its code points, and capital letters
-- are those of ASCII.
use kazenai_core.Base.{
  ℕ, ◌≡◌, ◌≢◌, refl, ◌⊎◌, ◌↔◌, inl, inr, Bool, true, false, not, ◌&&◌, ◌||◌, Option, none, some,
  List, [], ◌∷◌, String, if◌then◌else◌, any, is_some, Option-cases, Bool-cases, arith, subst,
}
use kazenai_core.Base.Text.{strip, lower_codes, codes_eq, word_is}

pub data UnknownModelPolicy : Type 0 where
  warn block estimate : UnknownModelPolicy

-- `mode in _PRODUCTION_LIKE`, of a mode that is already lower case.
unfoldable pub is_production_like : String → Bool
is_production_like mode =
    let codes = lower_codes mode in
    codes_eq codes (lower_codes "saas")
    || codes_eq codes (lower_codes "production")
    || codes_eq codes (lower_codes "prod")
    || codes_eq codes (lower_codes "staging")

-- `unknown_model_policy` of KAZENAI_UNKNOWN_MODEL_POLICY and the deployment's mode.
pub unknown_model_policy : String → String → UnknownModelPolicy
unfolding is_production_like
unknown_model_policy explicit mode =
    if word_is "estimate" explicit
    then estimate
    else if word_is "warn" explicit
    then (if is_production_like mode then block else warn)
    else block

-- A mapping of aliases to canonical keys.
abbrev pub Aliases : Type 0
Aliases = List (List ℕ × List ℕ)

unfoldable pub alias_of : List ℕ → Aliases → Option (List ℕ)
alias_of key [] = none
alias_of key ((from, to) ∷ aliases) = if codes_eq from key then some to else alias_of key aliases

-- `key in keys`.
abbrev pub is_key : List ℕ → List (List ℕ) → Bool
is_key key keys = any (λ k. codes_eq k key) keys

-- `resolve_model_key`.
unfoldable pub resolve_model_key : String → List (List ℕ) → Aliases → Option (List ℕ)
unfolding alias_of
resolve_model_key model keys aliases =
    let key = lower_codes (strip model) in
    if codes_eq key []
    then none
    else if is_key key keys
    then some key
    else elim (alias_of key aliases) [
      | none ↦ none
      | some canonical ↦
          if not (codes_eq canonical []) && is_key canonical keys then some canonical else none
    ]

pub is_known_model : String → List (List ℕ) → Aliases → Bool
is_known_model model keys aliases = is_some (resolve_model_key model keys aliases)

abbrev pub blocks : UnknownModelPolicy → Bool
blocks block = true
blocks _ = false

-- `enforce_unknown_model`: true where it returns, false where it raises UnknownModelError.
pub enforce_unknown_model : String → List (List ℕ) → Aliases → String → String → Bool
unfolding is_known_model unknown_model_policy
enforce_unknown_model model keys aliases explicit mode =
    if is_known_model model keys aliases
    then true
    else not (blocks (unknown_model_policy explicit mode))

found-known :
    (named key canonical : List ℕ) (alias : Option (List ℕ)) (keys : List (List ℕ))
    → alias ≡ some canonical
    → (if not (codes_eq canonical []) && is_key canonical keys then some canonical else none)
      ≡ some key
    → (is_key key keys ≡ true) × (codes_eq key [] ≡ false) × ((key ≡ named) ⊎ (alias ≡ some key))
found-known named key canonical alias keys a e =
    let parts : (canonical ≡ key)
        × (is_key canonical keys ≡ true)
        × (codes_eq canonical [] ≡ false) =
      ground arith in
    subst
      (λ (k : List ℕ).
        (is_key k keys ≡ true) × (codes_eq k [] ≡ false) × ((k ≡ named) ⊎ (alias ≡ some k)))
      parts.0 (parts.1, parts.2, inr a)

named-known :
    (named key : List ℕ) (alias : Option (List ℕ)) (keys : List (List ℕ))
    → (if codes_eq named [] then none else if is_key named keys then some named else elim alias [
      | none ↦ none
      | some canonical ↦
          if not (codes_eq canonical []) && is_key canonical keys then some canonical else none
    ])
      ≡ some key
    → (is_key key keys ≡ true) × (codes_eq key [] ≡ false) × ((key ≡ named) ⊎ (alias ≡ some key))
named-known named key alias keys e = elim (Bool-cases (codes_eq named [])) [
  | inl h ↦ absurd (ground arith)
  | inr h ↦ elim (Bool-cases (is_key named keys)) [
    | inl k ↦
        let same : named ≡ key = ground arith in
        subst
          (λ (n : List ℕ).
            (is_key n keys ≡ true) × (codes_eq n [] ≡ false) × ((n ≡ named) ⊎ (alias ≡ some n)))
          same (k, h, inl refl)
    | inr k ↦ elim (Option-cases alias) [
      | inl a ↦ absurd (ground arith)
      | inr (canonical, a) ↦ found-known named key canonical alias keys a (ground arith)
    ]
  ]
]

-- A price's key is one of the table's, and it is the model's own name or the name's alias; nothing
-- else is inherited.
pub resolve_model_key-known :
    (model : String) (keys : List (List ℕ)) (aliases : Aliases) (key : List ℕ)
    → resolve_model_key model keys aliases ≡ some key
    → (is_key key keys ≡ true)
      × (codes_eq key [] ≡ false)
      × ((key ≡ lower_codes (strip model))
          ⊎ (alias_of (lower_codes (strip model)) aliases ≡ some key))
unfolding resolve_model_key
resolve_model_key-known model keys aliases key e =
    named-known (lower_codes (strip model)) key (alias_of (lower_codes (strip model)) aliases) keys
      e

passes :
    (price : Option (List ℕ)) (guess warned like_production : Bool)
    → ((if is_some price
          then true
          else not (
              blocks (
                if guess
                then estimate
                else if warned
                then (if like_production then block else warn)
                else block)))
        ≡ true)
      ↔ ((price ≢ none) ⊎ (guess ≡ true) ⊎ ((warned ≡ true) × (like_production ≡ false)))
passes none guess warned like_production = ground arith
passes (some key) guess warned like_production = (λ _. inl (λ e. absurd (ground arith)), λ _. refl)

-- A model passes exactly when it has a price, or the environment asks for an estimate, or it asks
-- for warnings outside a deployment like production.
pub enforce_unknown_model-passes :
    (model : String) (keys : List (List ℕ)) (aliases : Aliases) (explicit mode : String)
    → (enforce_unknown_model model keys aliases explicit mode ≡ true) ↔ (
        (resolve_model_key model keys aliases ≢ none)
        ⊎ (word_is "estimate" explicit ≡ true)
        ⊎ ((word_is "warn" explicit ≡ true) × (is_production_like mode ≡ false)))
unfolding enforce_unknown_model unknown_model_policy is_known_model
enforce_unknown_model-passes model keys aliases explicit mode =
    passes (resolve_model_key model keys aliases) (word_is "estimate" explicit)
      (word_is "warn" explicit) (is_production_like mode)
