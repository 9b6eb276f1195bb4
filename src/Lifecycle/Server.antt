-- ===== src/Lifecycle/Server.antt =====
-- kazenai/lifecycle_config.py: the blocks of a configuration, and `assert_compatible_with_server`. What the
-- server says is read as the code reads it: whether a flag is true, and the texts that are not empty.
use kazenai_core.Base.{
  Bool, not, ◌&&◌, ◌||◌, String, str_eq, Option, none, some, if◌then◌else◌, [], ◌∷◌,
}
use kazenai_core.Lifecycle.{Env, norm, is_in, LifecycleError}
use kazenai_core.Base.Results.{Result, ok, refused, ◌>>=◌, ◌>>◌, refuse_if}
use kazenai_core.Lifecycle.Config.{
  Profile, AccountingMode, FailurePolicy, Owner, sdk, server, LifecycleVersion, Source,
  EffectiveLifecycleConfig, Outcome,
}
use kazenai_core.Lifecycle.Resolve.{resolve}
use kazenai_core.Lifecycle.Runtime.{asked_plainly, uses_reservation_settlement}

pub data EnforcementOwner : Type 0 where
  sdk_enforces gateway_enforces : EnforcementOwner

-- `map_accounting_owner_to_enforcement`, of a text and of an owner.
unfoldable pub owner_text_to_enforcement : String → EnforcementOwner
owner_text_to_enforcement owner =
    if is_in ("server" ∷ "gateway" ∷ []) (norm owner) then gateway_enforces else sdk_enforces

abbrev pub owner_name : Owner → String
owner_name sdk = "sdk"
owner_name server = "server"

unfoldable pub map_accounting_owner_to_enforcement : Owner → EnforcementOwner
map_accounting_owner_to_enforcement owner = owner_text_to_enforcement (owner_name owner)

pub record ReceiptBlock : Type 0 where
  pub profile : Profile
  pub accounting_mode : AccountingMode
  pub failure_policy : FailurePolicy
  pub accounting_owner : Owner
  pub enforcement_owner : EnforcementOwner
  pub lifecycle_version : LifecycleVersion
  pub source : Source

-- `to_receipt_block`.
unfoldable pub to_receipt_block : EffectiveLifecycleConfig → ReceiptBlock
to_receipt_block cfg = record {
  profile = cfg.profile;
  accounting_mode = cfg.accounting_mode;
  failure_policy = cfg.failure_policy;
  accounting_owner = cfg.accounting_owner;
  enforcement_owner = map_accounting_owner_to_enforcement cfg.accounting_owner;
  lifecycle_version = cfg.lifecycle_version;
  source = cfg.source;
}

-- `reservation_settlement` under `capabilities`, where that is an object, and at the top; and
-- `lifecycle_version` of the effective lifecycle, where there is one.
pub record ServerCapabilities : Type 0 where
  pub inner : Option Bool
  pub outer : Bool
  pub lifecycle_version : Option String

pub data Mismatch : Type 0 where
  unresolved : LifecycleError → Mismatch
  no_settlement : ReceiptBlock → Mismatch
  unsupported_version : ReceiptBlock → String → Bool → Mismatch

unfoldable pub supports_control : ServerCapabilities → Bool
supports_control caps = elim caps.inner [ none ↦ caps.outer | some flag ↦ flag ]

abbrev pub control_version : String
control_version = "reservation.lifecycle.v1"

unfoldable pub server_lifecycle : ServerCapabilities → String
server_lifecycle caps = elim caps.lifecycle_version [
  | some text ↦ text
  | none ↦ if supports_control caps then control_version else "legacy.check_reconcile.v1"
]

unfoldable pub is_served_version : String → Bool
is_served_version text = str_eq text "" || str_eq text control_version

abbrev pub as_mismatch : Outcome EffectiveLifecycleConfig → Result Mismatch EffectiveLifecycleConfig
as_mismatch (ok cfg) = ok cfg
as_mismatch (refused e) = refused (unresolved e)

unfoldable pub check_client :
    ServerCapabilities → EffectiveLifecycleConfig → Result Mismatch EffectiveLifecycleConfig
check_client caps client = do
  refuse_if (uses_reservation_settlement client && not (supports_control caps))
      (no_settlement (to_receipt_block client))
  refuse_if (uses_reservation_settlement client && not (is_served_version (server_lifecycle caps)))
      (unsupported_version (to_receipt_block client) (server_lifecycle caps)
        (supports_control caps))
  ok client

-- `assert_compatible_with_server`.
unfoldable pub assert_compatible_with_server :
    ServerCapabilities → Env → Result Mismatch EffectiveLifecycleConfig
assert_compatible_with_server caps env = do
  client ← as_mismatch (resolve env asked_plainly)
  check_client caps client
