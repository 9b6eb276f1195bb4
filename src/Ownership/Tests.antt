-- ===== src/Ownership/Tests.antt =====
-- Runs of kazenai/enforcement_owner.py.
use kazenai_core.Base.{◌≡◌, refl, All, [], ◌∷◌, none, some}
use kazenai_core.Base.Text.{is_empty, strip, lower_codes, codes_eq, codes}
use kazenai_core.Ownership.{
  Refs, OwnerState, Body, sdk, claims, reserves, done, next, run, reserve, configured_owner, act,
  enter, and_then, claim_owner, claim_under, bind_refs, should_skip, gateway_owns, must_not_reserve,
  ambiguous_enforcement_owner,
}
use kazenai_core.Ownership.Scopes.{MayReserve, run-MayReserve}
use kazenai_core.Ownership.Reuse.{run-reserve, NeverClears, IsKeeping}

abbrev no_refs : Refs
no_refs = record { decision_id = none; reservation_id = none; call_id = none; attempt = none }

abbrev answered : Refs
answered = record no_refs { reservation_id = some "r1" }

abbrev in_sdk : OwnerState
in_sdk = record { owner = sdk; refs = no_refs }

-- A scope in a scope, in which a call is made again.
abbrev nested : Body
nested = next (claims " SDK" no_refs (next (reserves none none answered) done)) done

abbrev calls : Body
calls = next (reserves none none answered) nested

run-MayReserve_example :
    All (MayReserve none) (run none none (next (claims "sdk" no_refs calls) done)).made
run-MayReserve_example = run-MayReserve none none (next (claims "sdk" no_refs calls) done)

run-reserve_example :
    (run none (some in_sdk) (next (reserves none none answered) nested)).made
    ≡ (reserve none (some in_sdk) none none answered).made
unfolding is_empty NeverClears IsKeeping
run-reserve_example = run-reserve none in_sdk none none answered nested refl ((tt, tt), tt)

-- A nested scope makes no second reservation; without a scope each call makes one.
nested_once : (run none (some in_sdk) calls).made ≡ some in_sdk ∷ []
unfolding act run enter and_then reserve claim_owner claim_under bind_refs should_skip gateway_owns
    must_not_reserve codes_eq lower_codes strip codes is_empty
nested_once = refl

unscoped_twice :
    (run none none
      (next (reserves none none answered) (next (reserves none none answered) done))).made
    ≡ none ∷ none ∷ []
unfolding act run enter and_then reserve claim_owner claim_under bind_refs should_skip gateway_owns
    must_not_reserve codes_eq lower_codes strip codes is_empty
unscoped_twice = refl

-- Under the gateway nothing is reserved, and a claim of the sdk conflicts.
gateway_only :
    (run (configured_owner " Gateway ") none calls)
    ≡ record { current = none; made = []; raised = some ambiguous_enforcement_owner }
unfolding act run enter and_then reserve claim_owner claim_under bind_refs should_skip gateway_owns
    must_not_reserve codes_eq lower_codes strip codes is_empty configured_owner
gateway_only = refl
