-- ===== src/Lifecycle/Runtime.antt =====
-- kazenai/deployment.py: what reads the resolved configuration at run time, and the checks of a start.
use kazenai_core.Base.{
  Bool, true, false, not, ◌&&◌, String, List, [], ◌∷◌, any, if◌then◌else◌, none,
}
use kazenai_core.Base.Text.{is_empty, strip}
use kazenai_core.Lifecycle.{
  Var, enforcement_mode, finops_enforcement_mode, reservation_mode, default_org_id, Env, norm,
  is_word, Mode, ModeConflict,
}
use kazenai_core.Base.Results.{Result, ok, refused, ◌>>=◌}
use kazenai_core.Lifecycle.Deployment.{resolve_deployment_mode, is_production_like, is_dev_env}
use kazenai_core.Lifecycle.Config.{
  FailurePolicy, fail_closed, fail_open, EffectiveLifecycleConfig, Profile, control, legacy,
  AccountingMode, reservation_settlement, legacy_check_reconcile, Outcome,
}
use kazenai_core.Lifecycle.Resolve.{Asked, resolve}

-- The call of the resolver without arguments.
abbrev pub asked_plainly : Asked
asked_plainly = record { allow = none; owner = "sdk"; mode = none }

abbrev pub is_closed : FailurePolicy → Bool
is_closed fail_closed = true
is_closed fail_open = false

-- What a variable alone says, where no configuration can be resolved.
unfoldable pub closed_by : Env → Var → Bool
closed_by env v = if is_word "fail_open" (norm (env v)) then not (is_dev_env env) else true

unfoldable pub closed_as : Env → Var → Outcome EffectiveLifecycleConfig → Bool
closed_as env v (ok cfg) = is_closed cfg.failure_policy
closed_as env v (refused e) = closed_by env v

unfoldable pub enforcement_fail_closed : Env → Bool
enforcement_fail_closed env = closed_as env enforcement_mode (resolve env asked_plainly)

unfoldable pub finops_reservation_fail_closed : Env → Bool
finops_reservation_fail_closed env = closed_as env reservation_mode (resolve env asked_plainly)

-- `is_production_like`; the lenient reading of the mode never raises.
abbrev pub is_production_mode : Result ModeConflict Mode → Bool
is_production_mode (ok mode) = is_production_like mode
is_production_mode (refused conflict) = false

unfoldable pub is_saas_deployment : Env → Bool
is_saas_deployment env = is_production_mode (resolve_deployment_mode false env)

abbrev enforcement_vars : List Var
enforcement_vars = enforcement_mode ∷ finops_enforcement_mode ∷ reservation_mode ∷ []

-- Whether `validate_prod_fail_closed_posture` lets a service start.
unfoldable pub has_closed_posture : Env → Bool
has_closed_posture env =
    if is_saas_deployment env
    then not (any (λ v. is_word "fail_open" (norm (env v))) enforcement_vars)
    else true

-- `canonical_default_org`.
unfoldable pub canonical_default_org : Env → String → String
canonical_default_org env dev_default =
    if is_empty (strip (env default_org_id)) then dev_default else strip (env default_org_id)

-- Whether `require_canonical_default_org` lets a service start.
unfoldable pub has_default_org : Env → Bool
has_default_org env = not (is_saas_deployment env && is_empty (strip (env default_org_id)))

abbrev pub is_control_profile : Profile → Bool
is_control_profile control = true
is_control_profile legacy = false

-- `is_control`.
abbrev pub is_control : EffectiveLifecycleConfig → Bool
is_control cfg = is_control_profile cfg.profile

abbrev pub settles : AccountingMode → Bool
settles reservation_settlement = true
settles legacy_check_reconcile = false

-- `uses_reservation_settlement`.
abbrev pub uses_reservation_settlement : EffectiveLifecycleConfig → Bool
uses_reservation_settlement cfg = is_control cfg && settles cfg.accounting_mode

-- `control_profile_active` and `lifecycle_budget_enabled`.
unfoldable pub control_profile_active : Env → Outcome Bool
control_profile_active env = do cfg ← resolve env asked_plainly; ok (is_control cfg)

unfoldable pub lifecycle_budget_enabled : Env → Outcome Bool
lifecycle_budget_enabled env = do
  cfg ← resolve env asked_plainly
  ok (uses_reservation_settlement cfg)
