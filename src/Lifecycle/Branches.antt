-- ===== src/Lifecycle/Branches.antt =====
-- kazenai/lifecycle_config.py: the failure policy of each profile, and the owner.
use kazenai_core.Base.{
  ℕ, Bool, true, false, not, ◌&&◌, ◌||◌, String, List, [], ◌∷◌, ◌++◌, Option, none, some,
  if◌then◌else◌,
}
use kazenai_core.Base.Text.{is_empty}
use kazenai_core.Lifecycle.{
  deployment_mode, strict_budget, enforcement_mode, reservation_mode, Env, norm, is_set, is_word,
  Mode, LifecycleError, invalid_owner, failure_policy_conflict,
}
use kazenai_core.Base.Results.{Result, ok, refused, ◌>>◌, refuse_if}
use kazenai_core.Lifecycle.Deployment.{resolve_deployment_mode, is_production_like, is_dev_env}
use kazenai_core.Lifecycle.Config.{
  FailurePolicy, fail_closed, fail_open, Owner, sdk, server, Source, unset, from, Diagnostic,
  ambiguous_migration, control_fail_open, production_default, fail_open_ignored, Outcome,
  as_lifecycle,
}

abbrev pub policy_word : List ℕ → Option FailurePolicy
policy_word raw =
    if is_word "fail_open" raw
    then some fail_open
    else if is_word "fail_closed" raw
    then some fail_closed
    else none

abbrev pub or_policy : Option FailurePolicy → Option FailurePolicy → Option FailurePolicy
or_policy none later = later
or_policy (some policy) later = some policy

-- What the modes of enforcement or else of reservation say.
unfoldable pub explicit_policy : Env → Option FailurePolicy
explicit_policy env =
    or_policy (policy_word (norm (env enforcement_mode)))
      (policy_word (norm (env reservation_mode)))

pub record Policy : Type 0 where
  pub policy : FailurePolicy
  pub policy_source : Source
  pub notes : List Diagnostic

-- `strict_enabled is False`.
abbrev pub is_disabled : Option Bool → Bool
is_disabled none = false
is_disabled (some enabled) = not enabled

-- The branch of the Control profile.
unfoldable pub control_policy : Env → Bool → Option Bool → Source → Outcome Policy
control_policy env ambiguous strict source = do
  refuse_if (is_disabled strict && not ambiguous) failure_policy_conflict
  let notes = if is_disabled strict then ambiguous_migration ∷ [] else []
  let opens =
      is_word "fail_open" (norm (env enforcement_mode))
      || is_word "fail_open" (norm (env reservation_mode))
  ok (
      if opens
      then record {
        policy = fail_open;
        policy_source = source;
        notes = notes ++ control_fail_open ∷ [];
      }
      else record { policy = fail_closed; policy_source = source; notes = notes })

-- The mode that the legacy branch reads: that of the argument where one is given.
abbrev only_mode : String → Env
only_mode text deployment_mode = text
only_mode text _ = ""

unfoldable pub mode_for : Mode → Option String → Result LifecycleError Mode
mode_for resolved none = ok resolved
mode_for resolved (some text) =
    if is_empty text
    then ok resolved
    else as_lifecycle (resolve_deployment_mode false (only_mode text))

abbrev strict_source : Source → Source
strict_source unset = from strict_budget
strict_source source = source

-- The policy that the legacy profile has without explicit modes.
unfoldable pub legacy_default : Mode → Option Bool → Source → Policy
legacy_default mode (some true) source = record {
  policy = fail_closed;
  policy_source = strict_source source;
  notes = [];
}
legacy_default mode (some false) source = record {
  policy = fail_open;
  policy_source = source;
  notes = [];
}
legacy_default mode none source =
    if is_production_like mode
    then record { policy = fail_closed; policy_source = source; notes = production_default ∷ [] }
    else record { policy = fail_open; policy_source = source; notes = [] }

abbrev pub with_policy : Option FailurePolicy → Policy → Policy
with_policy none chosen = chosen
with_policy (some policy) chosen = record chosen { policy = policy }

-- The branch of the legacy profile.
unfoldable pub legacy_policy : Env → Mode → Option Bool → Source → Policy
legacy_policy env mode strict source =
    with_policy (explicit_policy env) (legacy_default mode strict source)

abbrev pub open_in : Bool → FailurePolicy → Policy → Policy
open_in dev fail_closed p = p
open_in true fail_open p = p
open_in false fail_open p = record p {
  policy = fail_closed;
  notes = p.notes ++ fail_open_ignored ∷ [];
}

-- `fail_open` takes effect only where KAZENAI_ENV is dev.
unfoldable pub effective : Env → Policy → Policy
effective env p = open_in (is_dev_env env) p.policy p

-- The accounting owner of the argument, `sdk` where it is empty.
unfoldable pub owner_of : String → Outcome Owner
owner_of text =
    let owner = norm text in
    if not (is_set owner) || is_word "sdk" owner
    then ok sdk
    else if is_word "gateway" owner || is_word "server" owner
    then ok server
    else refused (invalid_owner owner)
