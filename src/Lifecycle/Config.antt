-- ===== src/Lifecycle/Config.antt =====
-- kazenai/lifecycle_config.py: the values of the resolver and how the variables of profiles are read. The
-- texts of diagnostics and deprecations are constructors.
use kazenai_core.Base.{
  ℕ, Bool, true, false, not, List, [], ◌∷◌, any, Option, none, some, if◌then◌else◌,
}
use kazenai_core.Base.Text.{is_empty, strip}
use kazenai_core.Lifecycle.{
  Var, finops_control_profile, control_profile, kazenai_profile, finops_url, finops_ingest_url, Env,
  norm, is_set, is_in, ModeConflict, LifecycleError, deployment_mode_conflict,
  invalid_profile_value, invalid_strict_value,
}
use kazenai_core.Base.Results.{Result, ok, refused, ◌>>=◌}

pub data Profile : Type 0 where
  control legacy : Profile

pub data AccountingMode : Type 0 where
  reservation_settlement legacy_check_reconcile : AccountingMode

pub data FailurePolicy : Type 0 where
  fail_closed fail_open : FailurePolicy

pub data Owner : Type 0 where
  sdk server : Owner

pub data LifecycleVersion : Type 0 where
  reservation_lifecycle_v1 legacy_check_reconcile_v1 : LifecycleVersion

-- Where the profile comes from, or the failure policy where no profile is set.
pub data Source : Type 0 where
  unset default_finops_configured : Source
  from : Var → Source

pub data Deprecation : Type 0 where
  alias : Var → Deprecation
  strict_selects_policy_only explicit_legacy : Deprecation

pub data Diagnostic : Type 0 where
  ambiguous_migration control_fail_open production_default fail_open_ignored : Diagnostic

pub record EffectiveLifecycleConfig : Type 0 where
  pub profile : Profile
  pub accounting_mode : AccountingMode
  pub failure_policy : FailurePolicy
  pub accounting_owner : Owner
  pub lifecycle_version : LifecycleVersion
  pub source : Source
  pub sources : List (Var × List ℕ)
  pub deprecations : List Deprecation
  pub diagnostics : List Diagnostic

abbrev pub Outcome {ℓ} : Type ℓ → Type ℓ
Outcome A = Result LifecycleError A

-- A conflict of modes as an error of the resolver.
abbrev pub as_lifecycle {ℓ} : {A : Type ℓ} → Result ModeConflict A → Outcome A
as_lifecycle (ok a) = ok a
as_lifecycle (refused conflict) = refused (deployment_mode_conflict conflict)

abbrev pub profile_vars : List Var
profile_vars = finops_control_profile ∷ control_profile ∷ kazenai_profile ∷ []

-- `_classify_profile_token`, of a text that is not empty.
unfoldable pub classify_profile : List ℕ → Outcome Profile
classify_profile raw =
    if is_in ("1" ∷ "true" ∷ "yes" ∷ "control" ∷ []) raw
    then ok control
    else if is_in ("0" ∷ "false" ∷ "no" ∷ "off" ∷ "legacy" ∷ "disabled" ∷ []) raw
    then ok legacy
    else refused (invalid_profile_value raw)

-- `_classify_strict_token`.
unfoldable pub classify_strict : List ℕ → Outcome (Option Bool)
classify_strict raw =
    if not (is_set raw)
    then ok none
    else if is_in ("1" ∷ "true" ∷ "yes" ∷ "strict" ∷ []) raw
    then ok (some true)
    else if is_in ("0" ∷ "false" ∷ "no" ∷ "off" ∷ "disabled" ∷ []) raw
    then ok (some false)
    else refused (invalid_strict_value raw)

-- A profile variable that is set, with its value and what the value stands for.
pub record Alias : Type 0 where
  pub var : Var
  pub raw : List ℕ
  pub label : Profile

-- The loop over the profile variables.
unfoldable pub classified : Env → List Var → Outcome (List Alias)
classified env [] = ok []
classified env (v ∷ vs) =
    let later = classified env vs in
    if is_set (norm (env v))
    then (do
      label ← classify_profile (norm (env v))
      aliases ← later
      ok (record { var = v; raw = norm (env v); label = label } ∷ aliases))
    else later

abbrev is_canonical : Var → Bool
is_canonical finops_control_profile = true
is_canonical _ = false

unfoldable pub alias_deprecations : List Alias → List Deprecation
alias_deprecations [] = []
alias_deprecations (a ∷ rest) =
    let later = alias_deprecations rest in if is_canonical a.var then later else alias a.var ∷ later

abbrev pub is_same : Profile → Profile → Bool
is_same control control = true
is_same legacy legacy = true
is_same _ _ = false

-- Whether the aliases name two profiles.
unfoldable pub aliases_disagree : List Alias → Bool
aliases_disagree [] = false
aliases_disagree (a ∷ rest) = any (λ (b : Alias). not (is_same a.label b.label)) rest

-- The first variable with the URL of the service.
unfoldable pub finops_url_key : Env → Option Var
finops_url_key env =
    if not (is_empty (strip (env finops_url)))
    then some finops_url
    else if not (is_empty (strip (env finops_ingest_url)))
    then some finops_ingest_url
    else none

-- The profile and its source: those of the first alias, or the defaults.
unfoldable pub winning : List Alias → Option Var → Profile × Source
winning (a ∷ rest) url = (a.label, from a.var)
winning [] (some key) = (control, default_finops_configured)
winning [] none = (legacy, unset)
