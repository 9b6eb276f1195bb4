-- ===== src/Ownership.antt =====
-- kazenai/enforcement_owner.py: which layer may reserve for a call, over scopes that nest, with the
-- test of kazenai/spine/guard.py, `reserve_budget`, before it reserves. An owner is the list of its
-- code points, stripped and in lower case; capital letters are those of ASCII.
use kazenai_core.Base.{
  ℕ, zero, Bool, true, false, not, ◌&&◌, ◌||◌, String, List, [], ◌∷◌, ◌++◌, Option, none, some,
  if◌then◌else◌, is_some, or_else,
}
use kazenai_core.Base.Text.{strip, lower_codes, codes_eq, codes, is_empty}
use kazenai_core.Base.Amount.{ℤ, pos}
pub mod Scopes
pub mod Reuse
mod Tests

-- The references of a decision, without and with an owner.
pub record Refs : Type 0 where
  pub decision_id : Option String
  pub reservation_id : Option String
  pub call_id : Option String
  pub attempt : Option ℤ

pub record OwnerState : Type 0 where
  pub owner : List ℕ
  pub refs : Refs

pub data OwnershipError : Type 0 where
  invalid_enforcement_owner ambiguous_enforcement_owner : OwnershipError

pub data Claim : Type 0 where
  granted : OwnerState → Claim
  conflicts : OwnershipError → Claim

abbrev pub owner_text : String → List ℕ
owner_text text = lower_codes (strip text)

-- `configured_enforcement_owner` of KAZENAI_ENFORCEMENT_OWNER.
unfoldable pub configured_owner : String → Option (List ℕ)
configured_owner raw = if codes_eq (owner_text raw) [] then none else some (owner_text raw)

abbrev pub sdk : List ℕ
sdk = b's' ∷ b'd' ∷ b'k' ∷ []

abbrev pub gateway : List ℕ
gateway = b'g' ∷ b'a' ∷ b't' ∷ b'e' ∷ b'w' ∷ b'a' ∷ b'y' ∷ []

-- Whether an optional text is there and not empty.
abbrev pub has_text : Option String → Bool
has_text none = false
has_text (some t) = not (is_empty t)

-- Python's `new or old`.
abbrev pub or_text : Option String → Option String → Option String
or_text new old = if has_text new then new else old

abbrev pub merged_refs : Refs → Refs → Refs
merged_refs new old = record {
  decision_id = or_text new.decision_id old.decision_id;
  reservation_id = or_text new.reservation_id old.reservation_id;
  call_id = or_text new.call_id old.call_id;
  attempt = or_else new.attempt old.attempt;
}

abbrev pub is_other : List ℕ → Option (List ℕ) → Bool
is_other want none = false
is_other want (some owner) = not (codes_eq owner want)

-- The state of a scope under an optional outer one.
unfoldable pub claim_under : List ℕ → Refs → Option OwnerState → Claim
claim_under want refs none = granted (record { owner = want; refs = refs })
claim_under want refs (some current) =
    if codes_eq current.owner want
    then granted (record { owner = want; refs = merged_refs refs current.refs })
    else conflicts ambiguous_enforcement_owner

-- `claim_enforcement_owner` up to its `yield`, for an owner that is normalized.
unfoldable pub claim_owner : Option (List ℕ) → Option OwnerState → List ℕ → Refs → Claim
claim_owner env current want refs =
    if codes_eq want []
    then conflicts invalid_enforcement_owner
    else if is_other want env
    then conflicts ambiguous_enforcement_owner
    else claim_under want refs current

-- `bind_decision_refs`.
unfoldable pub bind_refs : Refs → Option OwnerState → Option OwnerState
bind_refs refs none = none
bind_refs refs (some s) = some (record {
  owner = s.owner;
  refs = record {
    decision_id = or_else refs.decision_id s.refs.decision_id;
    reservation_id = or_else refs.reservation_id s.refs.reservation_id;
    call_id = or_else refs.call_id s.refs.call_id;
    attempt = or_else refs.attempt s.refs.attempt;
  };
})

abbrev pub owned_by : List ℕ → Option OwnerState → Bool
owned_by owner none = false
owned_by owner (some s) = codes_eq s.owner owner

abbrev pub env_is : List ℕ → Option (List ℕ) → Bool
env_is owner none = false
env_is owner (some e) = codes_eq e owner

-- `gateway_owns_enforcement`.
unfoldable pub gateway_owns : Option (List ℕ) → Option OwnerState → Bool
gateway_owns env current = env_is gateway env || owned_by gateway current

abbrev pub holds_reservation : Option OwnerState → Bool
holds_reservation none = false
holds_reservation (some s) = has_text s.refs.reservation_id

-- `should_skip_sdk_reserve`.
unfoldable pub should_skip : Option (List ℕ) → Option OwnerState → Bool
should_skip env current = gateway_owns env current || holds_reservation current

abbrev pub owner_is_other : List ℕ → Option OwnerState → Bool
owner_is_other want none = false
owner_is_other want (some s) = not (codes_eq s.owner want)

-- Whether `assert_sdk_may_reserve` raises.
unfoldable pub must_not_reserve : Option (List ℕ) → Option OwnerState → Bool
must_not_reserve env current =
    not (should_skip env current) && (is_other sdk env || owner_is_other sdk current)

-- Python's `new or old` on numbers.
abbrev int_or : Option ℤ → Option ℤ → Option ℤ
int_or none old = old
int_or (some (pos zero)) old = old
int_or (some n) old = some n

-- The references that are bound after a reservation, for the call's own id and attempt.
abbrev pub bound_refs : Option String → Option ℤ → Refs → Refs
bound_refs call_id attempt answer = record {
  decision_id = or_text answer.decision_id none;
  reservation_id = or_text answer.reservation_id none;
  call_id = or_else (or_text answer.call_id call_id) (some "");
  attempt = or_else (int_or answer.attempt attempt) (some (pos 1));
}

-- What a program does under owners: it enters a scope, binds references, or reserves for a call with
-- an id and an attempt, which the server answers.
mutual
  pub data Action : Type 0 where
    claims : String → Refs → Body → Action
    claims_configured : Refs → Body → Action
    binds : Refs → Action
    reserves : Option String → Option ℤ → Refs → Action

  pub data Body : Type 0 where
    done : Body
    next : Action → Body → Body

-- Where a run leaves the owner's state, the states in which it reserved, and what it raised.
pub record Run : Type 0 where
  pub current : Option OwnerState
  pub made : List (Option OwnerState)
  pub raised : Option OwnershipError

-- `reserve_budget` as far as owners go, where the reservation itself succeeds, on the path of Control. The
-- path of the legacy profile, which binds its references otherwise, is left out.
unfoldable pub reserve : Option (List ℕ) → Option OwnerState → Option String → Option ℤ → Refs → Run
reserve env current call_id attempt answer =
    if should_skip env current
    then record { current = current; made = []; raised = none }
    else if must_not_reserve env current
    then record { current = current; made = []; raised = some ambiguous_enforcement_owner }
    else record {
      current =
          if has_text answer.reservation_id || has_text answer.decision_id
          then bind_refs (bound_refs call_id attempt answer) current
          else current;
      made = current ∷ [];
      raised = none;
    }

-- A scope around a body. The context variable is reset as it is left, also by an exception.
unfoldable pub enter : Option OwnerState → Claim → (OwnerState → Run) → Run
enter current (conflicts error) body = record { current = current; made = []; raised = some error }
enter current (granted s) body = record (body s) { current = current }

-- One action and what follows it, which an exception skips.
unfoldable pub and_then : Run → Run → Run
and_then r later =
    if is_some r.raised
    then r
    else record { current = later.current; made = r.made ++ later.made; raised = later.raised }

-- The owner that `claim_configured_enforcement_owner` claims.
abbrev pub or_sdk : Option (List ℕ) → List ℕ
or_sdk none = sdk
or_sdk (some owner) = owner

unfoldable mutual
  pub act : Option (List ℕ) → Option OwnerState → Action → Run
  act env current (claims owner refs body) =
      enter current (claim_owner env current (owner_text owner) refs) (λ s. run env (some s) body)
  act env current (claims_configured refs body) =
      enter current (claim_owner env current (or_sdk env) refs) (λ s. run env (some s) body)
  act env current (binds refs) = record {
    current = bind_refs refs current;
    made = [];
    raised = none;
  }
  act env current (reserves call_id attempt answer) = reserve env current call_id attempt answer

  pub run : Option (List ℕ) → Option OwnerState → Body → Run
  run env current done = record { current = current; made = []; raised = none }
  run env current (next a rest) =
      let r = act env current a in let later = run env r.current rest in and_then r later
