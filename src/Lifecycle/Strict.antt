-- ===== src/Lifecycle/Strict.antt =====
-- What `resolve_deployment_mode` of kazenai/deployment.py returns where its variables have to agree.
use kazenai_core.Base.{
  ◌≡◌, refl, sym, ap, ◌∙◌, inl, inr, ℕ, Bool, true, false, not, ◌&&◌, List, [], ◌∷◌, any, All, some,
  if◌then◌else◌,
}
use mathlib.Core.Option.{some-injective}
use kazenai_core.Base.Text.{codes_eq_sound, codes_eq, codes}
use kazenai_core.Lifecycle.{
  Var, deployment_mode, kazenai_env, finops_env, agentlens_env, Env, norm, is_set, is_word, is_in,
  Mode, development, ModeConflict,
}
use kazenai_core.Base.Results.{Result, ok, refused, bind_ok, ok_inj}
use kazenai_core.Lifecycle.Deployment.{
  mode_vars, mode_of, signals, canonical, is_mode, most_restrictive, agree_on, resolve_signals,
  resolve_deployment_mode, is_dev_env,
}
use kazenai_core.Lifecycle.Modes.{
  or_production, IsChosen, lenient, All-same, same_one, most_restrictive-one, canonical-strict,
}

pub undisputed :
    {A : Type 0} (b : Bool) (conflict : ModeConflict) (a m : A)
    → ◌≡◌ {A = Result ModeConflict A} (if b && true then refused conflict else ok a) (ok m)
    → (b ≡ false) × (a ≡ m)
undisputed true conflict a m h = absurd (cc)
undisputed false conflict a m h = (refl, ok_inj a m h)

All-lenient_read :
    (mode first : Mode) (values : List (Var × List ℕ))
    → first ≡ mode
    → All (λ (s : Var × Mode). s.1 ≡ first) (lenient values)
    → All (λ (s : Var × List ℕ). mode_of s.1 ≡ some (or_production (mode_of s.1))) values
    → All (λ (s : Var × List ℕ). mode_of s.1 ≡ some mode) values
All-lenient_read mode first [] same h known = tt
All-lenient_read mode first ((v, raw) ∷ rest) same h known =
    (known.0 ∙ ap some (h.0 ∙ same), All-lenient_read mode first rest same h.1 known.1)

agree_on-strict :
    (values : List (Var × List ℕ)) (mode : Mode)
    → agree_on true (lenient values) ≡ ok mode
    → All (λ (s : Var × List ℕ). mode_of s.1 ≡ some (or_production (mode_of s.1))) values
    → All (λ (s : Var × List ℕ). mode_of s.1 ≡ some mode) values × IsChosen mode values
unfolding agree_on
agree_on-strict [] mode h known = (tt, sym (ok_inj development mode h))
agree_on-strict ((v, raw) ∷ rest) mode h known =
    let first = or_production (mode_of raw) in
    let (agreed, result) =
      undisputed (any (λ other. not (is_mode first other.1)) (lenient rest)) _
        (most_restrictive first (lenient rest)) mode h in
    let same = All-same first (lenient rest) agreed in
    let is_first : first ≡ mode = elim (most_restrictive-one first (lenient rest)) [
      | inl here ↦ here ∙ result
      | inr there ↦ same_one first _ (lenient rest) same there ∙ result
    ] in
    (
      (known.0 ∙ ap some is_first, All-lenient_read mode first rest is_first same known.1),
      inl is_first,
    )

-- Where signals have to agree and a mode is returned, each variable that is set names just that mode, and it
-- is development where none is set.
pub resolve_deployment_mode-strict :
    (env : Env) (mode : Mode)
    → resolve_deployment_mode true env ≡ ok mode
    → All (λ (s : Var × List ℕ). mode_of s.1 ≡ some mode) (signals env mode_vars)
      × IsChosen mode (signals env mode_vars)
unfolding resolve_deployment_mode resolve_signals
resolve_deployment_mode-strict env mode h =
    let (modes, read, rest) = bind_ok (canonical true (signals env mode_vars)) (agree_on true) h in
    let (same, known) = canonical-strict (signals env mode_vars) modes read in
    agree_on-strict (signals env mode_vars) mode (ap (agree_on true) same ∙ rest) known

dev_mode : (raw : List ℕ) → is_word "dev" raw ≡ true → mode_of raw ≡ some development
unfolding mode_of is_in is_word codes codes_eq
dev_mode raw h = rw (codes_eq_sound raw (codes "dev") h) refl

dev_set : (raw : List ℕ) → is_word "dev" raw ≡ true → is_set raw ≡ true
unfolding is_word codes codes_eq
dev_set raw h = rw (codes_eq_sound raw (codes "dev") h) refl

module _ (P : Var × List ℕ → Type 0) where
  tail_All :
      (b : Bool) (s : Var × List ℕ) (rest : List (Var × List ℕ))
      → All P (if b then s ∷ rest else rest)
      → All P rest
  tail_All true s rest h = h.1
  tail_All false s rest h = h

  head_All :
      (b : Bool) (s : Var × List ℕ) (rest : List (Var × List ℕ))
      → b ≡ true
      → All P (if b then s ∷ rest else rest)
      → P s
  head_All true s rest given h = h.0
  head_All false s rest given h = absurd (cc)

  signals-All :
      (env : Env) (v w : Var) (vs : List Var)
      → is_set (norm (env w)) ≡ true
      → All P (signals env (v ∷ w ∷ vs))
      → P (w, norm (env w))
  unfolding signals
  signals-All env v w vs given h =
      head_All _ _ (signals env vs) given
        (tail_All (is_set (norm (env v))) (v, norm (env v)) (signals env (w ∷ vs)) h)

-- The environment of a developer, where signals agree, is in development.
pub dev-mode :
    (env : Env) (mode : Mode)
    → is_dev_env env ≡ true
    → resolve_deployment_mode true env ≡ ok mode
    → mode ≡ development
unfolding is_dev_env
dev-mode env mode dev h =
    let named =
      signals-All (λ s. mode_of s.1 ≡ some mode) env deployment_mode kazenai_env
        (finops_env ∷ agentlens_env ∷ []) (dev_set (norm (env kazenai_env)) dev)
        (resolve_deployment_mode-strict env mode h).0 in
    some-injective mode development (sym named ∙ dev_mode (norm (env kazenai_env)) dev)
