-- ===== src/Lifecycle/Tests.antt =====
-- Runs of kazenai/deployment.py and kazenai/lifecycle_config.py.
use kazenai_core.Base.{◌≡◌, refl, true, false, not, String, [], none, some}
use kazenai_core.Base.Text.{strip, lower_codes, codes, codes_eq, is_empty}
use kazenai_core.Lifecycle.{
  deployment_mode, kazenai_env, enforcement_mode, Env, norm, is_word, is_in, Mode, development,
}
use kazenai_core.Base.Results.{ok}
use kazenai_core.Lifecycle.Deployment.{
  mode_vars, mode_of, signals, canonical, agree_on, most_restrictive, resolve_signals,
  resolve_deployment_mode, is_dev_env,
}
use kazenai_core.Lifecycle.Config.{
  legacy, legacy_check_reconcile, fail_open, sdk, legacy_check_reconcile_v1, unset,
  EffectiveLifecycleConfig, classified, classify_profile, classify_strict, finops_url_key, winning,
  aliases_disagree, alias_deprecations,
}
use kazenai_core.Lifecycle.Branches.{
  explicit_policy, control_policy, mode_for, legacy_default, legacy_policy, effective, owner_of,
}
use kazenai_core.Lifecycle.Runtime.{
  asked_plainly, closed_by, closed_as, enforcement_fail_closed, finops_reservation_fail_closed,
  is_saas_deployment, has_closed_posture,
}
use kazenai_core.Lifecycle.Resolve.{
  is_ambiguous_allowed, resolve, policy_of, sources_of, strict_deprecations, legacy_deprecations,
  config_of,
}
use kazenai_core.Lifecycle.Server.{ServerCapabilities}
use kazenai_core.Lifecycle.Modes.{IsMostRestrictive, resolve_deployment_mode-IsMostRestrictive}
use kazenai_core.Lifecycle.Opening.{AsksOpen, resolve-open}
use kazenai_core.Lifecycle.Precedence.{IsSelected, resolve-IsSelected}
use kazenai_core.Lifecycle.Starting.{has_closed_posture-closed}

-- A developer's environment that asks to fail open, under a deployment mode.
abbrev dev_open : String → Env
dev_open mode deployment_mode = mode
dev_open mode kazenai_env = "dev"
dev_open mode enforcement_mode = "fail_open"
dev_open mode _ = ""

-- Where the signals disagree the lenient mode is production, and enforcement fails open all the same.
production_open : enforcement_fail_closed (dev_open "production") ≡ false
unfolding enforcement_fail_closed closed_as closed_by resolve resolve_deployment_mode
    resolve_signals signals canonical agree_on mode_of is_in is_word codes_eq codes lower_codes
    strip norm is_dev_env
production_open = refl

production_mode : is_saas_deployment (dev_open "production") ≡ true
unfolding is_saas_deployment resolve_deployment_mode resolve_signals signals canonical agree_on
    mode_of is_in is_word codes_eq codes lower_codes strip norm most_restrictive
production_mode = refl

abbrev in_production : Env
in_production deployment_mode = "production"
in_production _ = ""

saas : is_saas_deployment in_production ≡ true
unfolding is_saas_deployment resolve_deployment_mode resolve_signals signals canonical agree_on
    mode_of is_in is_word codes_eq codes lower_codes strip norm most_restrictive
saas = refl

posture : has_closed_posture in_production ≡ true
unfolding has_closed_posture is_saas_deployment resolve_deployment_mode resolve_signals signals
    canonical agree_on mode_of is_in is_word codes_eq codes lower_codes strip norm most_restrictive
posture = refl

has_closed_posture-closed_example :
    (enforcement_fail_closed in_production ≡ true)
    × (finops_reservation_fail_closed in_production ≡ true)
has_closed_posture-closed_example = has_closed_posture-closed in_production saas posture

abbrev dev_config : EffectiveLifecycleConfig
dev_config = record {
  profile = legacy;
  accounting_mode = legacy_check_reconcile;
  failure_policy = fail_open;
  accounting_owner = sdk;
  lifecycle_version = legacy_check_reconcile_v1;
  source = unset;
  sources = [];
  deprecations = [];
  diagnostics = [];
}

dev_resolved : resolve (dev_open "") asked_plainly ≡ ok dev_config
unfolding resolve resolve_deployment_mode resolve_signals signals canonical agree_on mode_of
    most_restrictive is_in is_word codes_eq codes lower_codes strip norm is_dev_env classified
    classify_profile classify_strict finops_url_key winning aliases_disagree alias_deprecations
    explicit_policy control_policy mode_for legacy_default legacy_policy effective owner_of
    is_ambiguous_allowed policy_of sources_of strict_deprecations legacy_deprecations config_of
    is_empty
dev_resolved = refl

resolve-open_example :
    (is_dev_env (dev_open "") ≡ true)
    × (resolve_deployment_mode true (dev_open "") ≡ ok development)
    × AsksOpen (dev_open "") legacy
resolve-open_example = resolve-open (dev_open "") asked_plainly dev_config dev_resolved refl

resolve-IsSelected_example :
    IsSelected (dev_open "") (not (is_ambiguous_allowed (dev_open "") none)) dev_config
resolve-IsSelected_example = resolve-IsSelected (dev_open "") asked_plainly dev_config dev_resolved

abbrev served : ServerCapabilities
served = record { inner = some true; outer = false; lifecycle_version = none }

resolve_deployment_mode-IsMostRestrictive_example :
    (mode : Mode) × (resolve_deployment_mode false (dev_open "staging") ≡ ok mode)
    × IsMostRestrictive (signals (dev_open "staging") mode_vars) mode
resolve_deployment_mode-IsMostRestrictive_example =
    resolve_deployment_mode-IsMostRestrictive (dev_open "staging")
