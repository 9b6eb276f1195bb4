-- ===== src/Lifecycle/Resolve.antt =====
-- kazenai/lifecycle_config.py: `resolve_effective_lifecycle`. No two deprecations are equal, so
-- `dict.fromkeys` keeps them all.
use kazenai_core.Base.{
  ℕ, Bool, true, not, ◌&&◌, String, List, [], ◌∷◌, ◌++◌, map, Option, none, some, if◌then◌else◌,
}
use kazenai_core.Base.Text.{codes}
use kazenai_core.Lifecycle.{
  Var, strict_budget, allow_ambiguous, Env, norm, is_set, is_in, Mode, profile_conflict,
}
use kazenai_core.Base.Results.{ok, ◌>>=◌, ◌>>◌, refuse_if}
use kazenai_core.Lifecycle.Deployment.{resolve_deployment_mode}
use kazenai_core.Lifecycle.Config.{
  Profile, control, legacy, AccountingMode, reservation_settlement, legacy_check_reconcile, Owner,
  LifecycleVersion, reservation_lifecycle_v1, legacy_check_reconcile_v1, Source, Deprecation,
  strict_selects_policy_only, explicit_legacy, EffectiveLifecycleConfig, Outcome, profile_vars,
  classify_strict, Alias, classified, alias_deprecations, aliases_disagree, finops_url_key, winning,
  as_lifecycle,
}
use kazenai_core.Lifecycle.Branches.{
  Policy, control_policy, mode_for, legacy_policy, effective, owner_of,
}

-- The arguments of a call.
pub record Asked : Type 0 where
  pub allow : Option Bool
  pub owner : String
  pub mode : Option String

-- Whether conflicts are allowed for a migration.
unfoldable pub is_ambiguous_allowed : Env → Option Bool → Bool
is_ambiguous_allowed env (some allow) = allow
is_ambiguous_allowed env none = is_in ("1" ∷ "true" ∷ "yes" ∷ []) (norm (env allow_ambiguous))

abbrev pub accounting_of : Profile → AccountingMode
accounting_of control = reservation_settlement
accounting_of legacy = legacy_check_reconcile

abbrev pub version_of : Profile → LifecycleVersion
version_of control = reservation_lifecycle_v1
version_of legacy = legacy_check_reconcile_v1

-- The branch of the profile.
unfoldable pub policy_of :
    Env → Asked → Mode → Bool → Option Bool → Profile × Source → Outcome Policy
policy_of env asked mode ambiguous strict (control, source) =
    control_policy env ambiguous strict source
policy_of env asked mode ambiguous strict (legacy, source) = do
  read ← mode_for mode asked.mode
  ok (legacy_policy env read strict source)

-- The variables that were read, with their values.
unfoldable pub sources_of : List Alias → List ℕ → Option Var → List (Var × List ℕ)
sources_of aliases strict url =
    map (λ (a : Alias). (a.var, a.raw)) aliases
    ++ (if is_set strict then (strict_budget, strict) ∷ [] else [])
    ++ elim url [ none ↦ [] | some key ↦ (key, codes "configured") ∷ [] ]

unfoldable pub strict_deprecations : Option Bool → List Deprecation
strict_deprecations none = []
strict_deprecations (some enabled) = strict_selects_policy_only ∷ []

unfoldable pub legacy_deprecations : Profile → List Alias → List Deprecation
legacy_deprecations legacy (a ∷ rest) = explicit_legacy ∷ []
legacy_deprecations _ _ = []

-- The configuration that is returned.
unfoldable pub config_of :
    Env → List Alias → Option Bool → Profile × Source → Owner → Policy → EffectiveLifecycleConfig
config_of env aliases strict chosen owner final = record {
  profile = chosen.0;
  accounting_mode = accounting_of chosen.0;
  failure_policy = final.policy;
  accounting_owner = owner;
  lifecycle_version = version_of chosen.0;
  source = final.policy_source;
  sources = sources_of aliases (norm (env strict_budget)) (finops_url_key env);
  deprecations =
      alias_deprecations aliases
      ++ strict_deprecations strict
      ++ legacy_deprecations chosen.0 aliases;
  diagnostics = final.notes;
}

-- `resolve_effective_lifecycle`.
unfoldable pub resolve : Env → Asked → Outcome EffectiveLifecycleConfig
resolve env asked = do
  mode ← as_lifecycle (resolve_deployment_mode true env)
  let ambiguous = is_ambiguous_allowed env asked.allow
  aliases ← classified env profile_vars
  strict ← classify_strict (norm (env strict_budget))
  refuse_if (aliases_disagree aliases && not ambiguous) profile_conflict
  let chosen = winning aliases (finops_url_key env)
  policy ← policy_of env asked mode ambiguous strict chosen
  owner ← owner_of asked.owner
  ok (config_of env aliases strict chosen owner (effective env policy))
