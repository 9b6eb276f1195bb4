-- ===== src/Lifecycle/Opening.antt =====
-- When a call may fail open, by kazenai/lifecycle_config.py and kazenai/deployment.py.
use kazenai_core.Base.{
  ◌≡◌, ◌≢◌, refl, sym, ap, subst, ◌∙◌, ◌⊎◌, inl, inr, Bool, true, false, not, ◌&&◌, ◌||◌, Option,
  none, some, if◌then◌else◌,
}
use mathlib.Core.Option.{some-injective}
use kazenai_core.Lifecycle.{
  strict_budget, enforcement_mode, reservation_mode, Env, norm, is_word, Mode, development,
  LifecycleError, failure_policy_conflict,
}
use kazenai_core.Base.Results.{Result, ok, refuse_if, bind_ok, ok_inj}
use kazenai_core.Lifecycle.Deployment.{resolve_deployment_mode, is_dev_env}
use kazenai_core.Lifecycle.Strict.{dev-mode}
use kazenai_core.Lifecycle.Config.{
  Profile, control, legacy, FailurePolicy, fail_closed, fail_open, Source, EffectiveLifecycleConfig,
  classify_strict,
}
use kazenai_core.Lifecycle.Branches.{
  Policy, explicit_policy, policy_word, or_policy, with_policy, open_in, control_policy, mode_for,
  legacy_default, legacy_policy, effective, is_disabled,
}
use kazenai_core.Lifecycle.Resolve.{Asked, policy_of, config_of, resolve}
use kazenai_core.Lifecycle.Policy.{resolve-Steps}

-- A mode of enforcement or of reservation is `fail_open`, or the profile is legacy and the strict flag is
-- not on.
abbrev pub AsksOpen : Env → Profile → Type 0
AsksOpen env profile =
    (is_word "fail_open" (norm (env enforcement_mode)) ≡ true)
    ⊎ ((is_word "fail_open" (norm (env reservation_mode)) ≡ true)
        ⊎ ((profile ≡ legacy) × (classify_strict (norm (env strict_budget)) ≢ ok (some true))))

false_ne : false ≢ true
false_ne h = absurd (cc)

closed_ne : fail_closed ≢ fail_open
closed_ne h = absurd (cc)

open_in-open :
    (dev : Bool) (f : FailurePolicy) (p : Policy)
    → p.policy ≡ f
    → (open_in dev f p).policy ≡ fail_open
    → (dev ≡ true) × (f ≡ fail_open)
open_in-open dev fail_closed p is h = absurd (closed_ne (sym is ∙ h))
open_in-open true fail_open p is h = (refl, refl)
open_in-open false fail_open p is h = absurd (closed_ne h)

either_word :
    (b c : Bool) (x y p : Policy)
    → y.policy ≡ fail_closed
    → ◌≡◌ {A = Result LifecycleError Policy} (ok (if b || c then x else y)) (ok p)
    → p.policy ≡ fail_open
    → (b ≡ true) ⊎ (c ≡ true)
either_word true c x y p shut h opens = inl refl
either_word false true x y p shut h opens = inr refl
either_word false false x y p shut h opens =
    absurd (closed_ne (sym shut ∙ (ap (λ (q : Policy). q.policy) (ok_inj y p h) ∙ opens)))

control-open :
    (env : Env) (ambiguous : Bool) (strict : Option Bool) (source : Source) (p : Policy)
    → control_policy env ambiguous strict source ≡ ok p
    → p.policy ≡ fail_open
    → AsksOpen env control
unfolding control_policy
control-open env ambiguous strict source p h opens =
    let (u, _, h1) =
      bind_ok (refuse_if (is_disabled strict && not ambiguous) failure_policy_conflict) _ h in
    elim (either_word (is_word "fail_open" (norm (env enforcement_mode)))
      (is_word "fail_open" (norm (env reservation_mode))) _ _ p refl h1 opens) [
        | inl b ↦ inl b
        | inr c ↦ inr (inl c)
      ]

first_word :
    (b c : Bool)
    → (if b then some fail_open else if c then some fail_closed else none) ≡ some fail_open
    → b ≡ true
first_word true c h = refl
first_word false true h = absurd (closed_ne (some-injective fail_closed fail_open h))
first_word false false h = absurd (cc)

or_policy-open :
    (a b : Option FailurePolicy)
    → or_policy a b ≡ some fail_open
    → (a ≡ some fail_open) ⊎ (b ≡ some fail_open)
or_policy-open none b h = inr h
or_policy-open (some f) b h = inl h

explicit_policy-open : (env : Env) → explicit_policy env ≡ some fail_open → AsksOpen env legacy
unfolding explicit_policy
explicit_policy-open env h =
    elim (or_policy-open (policy_word (norm (env enforcement_mode)))
      (policy_word (norm (env reservation_mode))) h) [
        | inl enforced ↦ inl (first_word _ _ enforced)
        | inr reserved ↦ inr (inl (first_word _ _ reserved))
      ]

legacy_default-open :
    (mode : Mode) (strict : Option Bool) (source : Source)
    → (legacy_default mode strict source).policy ≡ fail_open
    → strict ≢ some true
unfolding legacy_default
legacy_default-open mode none source h e = absurd (cc)
legacy_default-open mode (some true) source h e = absurd (closed_ne h)
legacy_default-open mode (some false) source h e = absurd (false_ne (some-injective false true e))

with_policy-open :
    (f : Option FailurePolicy) (p : Policy)
    → (with_policy f p).policy ≡ fail_open
    → (f ≡ some fail_open) ⊎ (p.policy ≡ fail_open)
with_policy-open none p h = inr h
with_policy-open (some f) p h = inl (ap some h)

legacy-open :
    (env : Env) (mode : Mode) (strict : Option Bool) (source : Source)
    → classify_strict (norm (env strict_budget)) ≡ ok strict
    → (legacy_policy env mode strict source).policy ≡ fail_open
    → AsksOpen env legacy
unfolding legacy_policy
legacy-open env mode strict source strict_is h =
    elim (with_policy-open (explicit_policy env) (legacy_default mode strict source) h) [
      | inl explicit ↦ explicit_policy-open env explicit
      | inr default ↦ inr (
          inr (
            refl,
            λ e.
                legacy_default-open mode strict source default
                  (ok_inj strict (some true) (sym strict_is ∙ e)),
          ))
    ]

policy_of-open :
    (env : Env) (asked : Asked) (mode : Mode) (ambiguous : Bool) (strict : Option Bool)
    (chosen : Profile × Source) (p : Policy)
    → classify_strict (norm (env strict_budget)) ≡ ok strict
    → policy_of env asked mode ambiguous strict chosen ≡ ok p
    → p.policy ≡ fail_open
    → AsksOpen env chosen.0
unfolding policy_of
policy_of-open env asked mode ambiguous strict (control, source) p strict_is h opens =
    control-open env ambiguous strict source p h opens
policy_of-open env asked mode ambiguous strict (legacy, source) p strict_is h opens =
    let (read, _, h1) = bind_ok (mode_for mode asked.mode) _ h in
    legacy-open env read strict source strict_is
      (ap (λ (q : Policy). q.policy) (ok_inj (legacy_policy env read strict source) p h1) ∙ opens)

-- A configuration that is returned fails open only where KAZENAI_ENV is dev and the deployment mode is
-- development, and only where a mode of enforcement or of reservation asks for it, or the profile is
-- legacy and the strict flag is not on.
pub resolve-open :
    (env : Env) (asked : Asked) (cfg : EffectiveLifecycleConfig)
    → resolve env asked ≡ ok cfg
    → cfg.failure_policy ≡ fail_open
    → (is_dev_env env ≡ true)
      × (resolve_deployment_mode true env ≡ ok development)
      × AsksOpen env cfg.profile
unfolding effective config_of
resolve-open env asked cfg h opens =
    let steps = resolve-Steps env asked cfg h in
    let policy_opens = ap (λ (c : EffectiveLifecycleConfig). c.failure_policy) steps.is ∙ opens in
    let (dev, asks) =
      open_in-open (is_dev_env env) steps.policy.policy steps.policy refl policy_opens in
    (
      dev,
      steps.mode_is ∙ ap ok (dev-mode env steps.mode dev steps.mode_is),
      subst (AsksOpen env) (ap (λ (c : EffectiveLifecycleConfig). c.profile) steps.is) (
          policy_of-open env asked steps.mode _ steps.strict _ steps.policy steps.strict_is
            steps.policy_is asks),
    )
