-- ===== src/Pricing/Tiers.antt =====
-- The in-process admission breaker of kazenai/request_pricing.py for service tiers that were reported
-- but not expected, `_TIER_BREAKER` and `_TIER_AUDIT`. Times are in milliseconds.
use kazenai_core.Base.{
  ℕ, ◌+◌, Bool, ◌&&◌, String, str_eq, List, [], ◌∷◌, ◌++◌, Option, none, some, if◌then◌else◌, leb,
  any,
}

pub data TierState : Type 0 where
  pending_reconciliation unknown_charge : TierState

-- An entry with its key, org + provider + model + reported tier.
pub record TierEntry : Type 0 where
  pub org : String
  pub provider : String
  pub model : String
  pub tier : String
  pub opened_at : ℕ
  pub held_micro_usd : ℕ
  pub state : TierState

pub record AuditRow : Type 0 where
  pub org_id : String
  pub provider : String
  pub model : String
  pub tier : String
  pub held_micro_usd : ℕ

pub record Tiers : Type 0 where
  pub breaker : List TierEntry
  pub audit : List AuditRow

-- 35 days.
abbrev pub unknown_charge_after : ℕ
unknown_charge_after = 3_024_000_000

unfoldable pub unresolved_tier_state : ℕ → ℕ → TierState
unresolved_tier_state opened_at now =
    if leb (opened_at + unknown_charge_after) now then unknown_charge else pending_reconciliation

unfoldable pub has_key : String → String → String → String → TierEntry → Bool
has_key org provider model tier e =
    str_eq e.org org && str_eq e.provider provider && str_eq e.model model && str_eq e.tier tier

unfoldable pub blocks_model : String → String → String → TierEntry → Bool
blocks_model org provider model e =
    str_eq e.org org && str_eq e.provider provider && str_eq e.model model

-- What `_check_breaker` raises: the tier and the state in its message.
pub record Closed : Type 0 where
  pub tier : String
  pub state : TierState

abbrev pub aged : ℕ → TierEntry → TierEntry
aged now e = record e { state = unresolved_tier_state e.opened_at now }

-- The first entry for the model is aged and refuses; none where the check passes.
unfoldable pub check_entries :
    ℕ → String → String → String → List TierEntry → List TierEntry × Option Closed
check_entries now org provider model [] = ([], none)
check_entries now org provider model (e ∷ rest) =
    let (rest', refused) = check_entries now org provider model rest in
    if blocks_model org provider model e
    then (aged now e ∷ rest, some (record { tier = e.tier; state = (aged now e).state }))
    else (e ∷ rest', refused)

-- `_check_breaker`.
unfoldable pub check_breaker : ℕ → String → String → String → Tiers → Tiers × Option Closed
unfolding check_entries
check_breaker now org provider model tiers =
    let (breaker, refused) = check_entries now org provider model tiers.breaker in
    (record tiers { breaker = breaker }, refused)

-- `_open_breaker`: an entry that stands keeps the time at which it was opened.
unfoldable pub open_breaker : ℕ → String → String → String → String → ℕ → Tiers → Tiers
unfolding has_key
open_breaker now org provider model tier held tiers = record {
  breaker =
      if any (has_key org provider model tier) tiers.breaker
      then tiers.breaker
      else tiers.breaker
        ++ (record {
          org = org;
          provider = provider;
          model = model;
          tier = tier;
          opened_at = now;
          held_micro_usd = held;
          state = pending_reconciliation;
        }
            ∷ []);
  audit =
      tiers.audit
      ++ (record {
        org_id = org;
        provider = provider;
        model = model;
        tier = tier;
        held_micro_usd = held;
      }
          ∷ []);
}

-- `clear_tier_breaker`.
pub clear_tier_breaker : Tiers → Tiers
clear_tier_breaker tiers = record { breaker = []; audit = [] }
