-- ===== src/Lifecycle/Starting.antt =====
-- A service that has started, by kazenai/deployment.py, fails closed in production.
use kazenai_core.Base.{
  ◌≡◌, ◌≢◌, refl, sym, ap, ◌∙◌, ◌⊎◌, inl, inr, Bool, true, false, not, ◌&&◌, List, [], ◌∷◌, any,
  arith, Bool-cases,
}
use kazenai_core.Lifecycle.{
  Var, enforcement_mode, reservation_mode, Env, norm, is_word, Mode, development,
}
use kazenai_core.Base.Results.{ok, refused, bind_ok}
use kazenai_core.Lifecycle.Deployment.{
  mode_vars, canonical, signals, agree_on, resolve_signals, resolve_deployment_mode, is_dev_env,
  is_mode, most_restrictive,
}
use kazenai_core.Lifecycle.Modes.{canonical-lenient, canonical-strict}
use kazenai_core.Lifecycle.Strict.{undisputed}
use kazenai_core.Lifecycle.Config.{
  FailurePolicy, fail_closed, fail_open, EffectiveLifecycleConfig, Outcome,
}
use kazenai_core.Lifecycle.Resolve.{resolve}
use kazenai_core.Lifecycle.Opening.{resolve-open}
use kazenai_core.Lifecycle.Runtime.{
  asked_plainly, is_closed, closed_by, closed_as, enforcement_fail_closed,
  finops_reservation_fail_closed, is_production_mode, is_saas_deployment, has_closed_posture,
}

agree_on-false :
    (modes : List (Var × Mode)) (mode : Mode)
    → agree_on true modes ≡ ok mode
    → agree_on false modes ≡ ok mode
unfolding agree_on
agree_on-false [] mode h = h
agree_on-false (s ∷ rest) mode h =
    let (agreed, same) =
      undisputed (any (λ other. not (is_mode s.1 other.1)) rest) _ (most_restrictive s.1 rest) mode
        h in
    rw (agreed) (ap ok same)

-- A mode on which the signals agree is also the one that the lenient reading returns.
pub strict-lenient :
    (env : Env) (mode : Mode)
    → resolve_deployment_mode true env ≡ ok mode
    → resolve_deployment_mode false env ≡ ok mode
unfolding resolve_deployment_mode resolve_signals
strict-lenient env mode h =
    let (modes, read, rest) = bind_ok (canonical true (signals env mode_vars)) (agree_on true) h in
    let (same, _) = canonical-strict (signals env mode_vars) modes read in
    rw (canonical-lenient (signals env mode_vars), same) (agree_on-false modes mode rest)

false_ne : false ≢ true
false_ne h = absurd (cc)

open_policy : (f : FailurePolicy) → is_closed f ≡ false → f ≡ fail_open
open_policy fail_closed h = absurd (cc)
open_policy fail_open h = refl

closed_by-dev : (env : Env) (v : Var) → closed_by env v ≡ false → is_dev_env env ≡ true
unfolding closed_by
closed_by-dev env v h = ground arith

closed_as-dev :
    (env : Env) (v : Var) (r : Outcome EffectiveLifecycleConfig)
    → resolve env asked_plainly ≡ r
    → closed_as env v r ≡ false
    → is_dev_env env ≡ true
unfolding closed_as
closed_as-dev env v (ok cfg) is h =
    (resolve-open env asked_plainly cfg is (open_policy cfg.failure_policy h)).0
closed_as-dev env v (refused e) is h = closed_by-dev env v h

both_false : (a b : Bool) → (a && b) ≡ false → (a ≡ false) ⊎ (b ≡ false)
both_false true b h = inr h
both_false false b h = inl refl

-- Enforcement and reservation fail open only where KAZENAI_ENV is dev, also where no configuration can be
-- resolved.
pub enforcement_fail_closed-dev :
    (env : Env)
    → (enforcement_fail_closed env && finops_reservation_fail_closed env) ≡ false
    → is_dev_env env ≡ true
unfolding enforcement_fail_closed finops_reservation_fail_closed
enforcement_fail_closed-dev env h =
    elim (both_false (enforcement_fail_closed env) (finops_reservation_fail_closed env) h) [
      | inl enforced ↦ closed_as-dev env enforcement_mode _ refl enforced
      | inr reserved ↦ closed_as-dev env reservation_mode _ refl reserved
    ]

-- The flags that a closed posture rules out.
posture-words :
    (env : Env)
    → has_closed_posture env ≡ true
    → is_saas_deployment env ≡ true
    → (is_word "fail_open" (norm (env enforcement_mode)) ≡ false)
      × (is_word "fail_open" (norm (env reservation_mode)) ≡ false)
unfolding has_closed_posture
posture-words env h saas = (ground arith, ground arith)

no_development :
    (env : Env) → is_saas_deployment env ≡ true → resolve_deployment_mode true env ≢ ok development
unfolding is_saas_deployment
no_development env saas h =
    absurd (false_ne (ap is_production_mode (sym (strict-lenient env development h)) ∙ saas))

closed_as-posture :
    (env : Env) (v : Var) (r : Outcome EffectiveLifecycleConfig)
    → resolve env asked_plainly ≡ r
    → is_saas_deployment env ≡ true
    → is_word "fail_open" (norm (env v)) ≡ false
    → closed_as env v r ≡ true
unfolding closed_as closed_by
closed_as-posture env v (ok cfg) is saas word = elim (Bool-cases (is_closed cfg.failure_policy)) [
  | inl closed ↦ closed
  | inr opens ↦ absurd (
      no_development env saas
        (resolve-open env asked_plainly cfg is (open_policy cfg.failure_policy opens)).1)
]
closed_as-posture env v (refused e) is saas word = rw (word) refl

-- Where the modes that are set are those of production or staging (an unknown one counting as production, and
-- the most restrictive deciding), and the posture check lets a service start, both enforcement and
-- reservation fail closed, whatever else the environment says.
pub has_closed_posture-closed :
    (env : Env)
    → is_saas_deployment env ≡ true
    → has_closed_posture env ≡ true
    → (enforcement_fail_closed env ≡ true) × (finops_reservation_fail_closed env ≡ true)
unfolding enforcement_fail_closed finops_reservation_fail_closed
has_closed_posture-closed env saas posture =
    let words = posture-words env posture saas in
    (
      closed_as-posture env enforcement_mode _ refl saas words.0,
      closed_as-posture env reservation_mode _ refl saas words.1,
    )
