-- ===== src/Lifecycle/Policy.antt =====
-- The failure policy of `resolve_effective_lifecycle` of kazenai/lifecycle_config.py.
use kazenai_core.Base.{◌≡◌, ap, Bool, true, false, not, ◌&&◌, List, Option}
use kazenai_core.Lifecycle.{strict_budget, Env, norm, Mode, profile_conflict, ModeConflict}
use kazenai_core.Base.Results.{Result, ok, refused, refuse_if, bind_ok, refuse_if_ok, ok_inj}
use kazenai_core.Lifecycle.Deployment.{resolve_deployment_mode}
use kazenai_core.Lifecycle.Config.{
  Owner, EffectiveLifecycleConfig, as_lifecycle, profile_vars, classify_strict, Alias, classified,
  aliases_disagree, finops_url_key, winning,
}
use kazenai_core.Lifecycle.Branches.{Policy, effective, owner_of}
use kazenai_core.Lifecycle.Resolve.{Asked, is_ambiguous_allowed, policy_of, config_of, resolve}

-- The steps of a resolution that returns a configuration.
pub record Steps (env : Env) (asked : Asked) (cfg : EffectiveLifecycleConfig) : Type 0 where
  pub mode : Mode
  pub aliases : List Alias
  pub strict : Option Bool
  pub policy : Policy
  pub owner : Owner
  pub mode_is : resolve_deployment_mode true env ≡ ok mode
  pub aliases_are : classified env profile_vars ≡ ok aliases
  pub strict_is : classify_strict (norm (env strict_budget)) ≡ ok strict
  pub agreed : (aliases_disagree aliases && not (is_ambiguous_allowed env asked.allow)) ≡ false
  pub policy_is :
      policy_of env asked mode
        (is_ambiguous_allowed env asked.allow)
        strict
        (winning aliases (finops_url_key env))
      ≡ ok policy
  pub is :
      config_of env aliases strict
        (winning aliases (finops_url_key env))
        owner
        (effective env policy)
      ≡ cfg

unlifted : {A : Type 0} (m : Result ModeConflict A) (a : A) → as_lifecycle m ≡ ok a → m ≡ ok a
unlifted (ok b) a h = ap ok (ok_inj b a h)
unlifted (refused e) a h = absurd (cc)

pub resolve-Steps :
    (env : Env) (asked : Asked) (cfg : EffectiveLifecycleConfig)
    → resolve env asked ≡ ok cfg
    → Steps env asked cfg
unfolding resolve
resolve-Steps env asked cfg h =
    let (mode, mode_is, h1) = bind_ok (as_lifecycle (resolve_deployment_mode true env)) _ h in
    let (aliases, aliases_are, h2) = bind_ok (classified env profile_vars) _ h1 in
    let (strict, strict_is, h3) = bind_ok (classify_strict (norm (env strict_budget))) _ h2 in
    let (u, passed, h4) =
      bind_ok
        (refuse_if (aliases_disagree aliases && not (is_ambiguous_allowed env asked.allow))
          profile_conflict)
        _ h3 in
    let (policy, policy_is, h5) =
      bind_ok
        (policy_of env asked mode (is_ambiguous_allowed env asked.allow) strict
          (winning aliases (finops_url_key env)))
        _ h4 in
    let (owner, owner_is, h6) = bind_ok (owner_of asked.owner) _ h5 in
    record {
      mode = mode;
      aliases = aliases;
      strict = strict;
      policy = policy;
      owner = owner;
      mode_is = unlifted _ mode mode_is;
      aliases_are = aliases_are;
      strict_is = strict_is;
      agreed = refuse_if_ok _ profile_conflict passed;
      policy_is = policy_is;
      is = ok_inj _ cfg h6;
    }
