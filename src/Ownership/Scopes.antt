-- ===== src/Ownership/Scopes.antt =====
-- Scopes of owners of kazenai/enforcement_owner.py that nest: where a reservation is made, and that one
-- is reused.
use kazenai_core.Base.{
  ◌≡◌, ℕ, false, String, List, [], ◌∷◌, ◌++◌, Option, none, some, All, if_cases, is_some, arith,
}
use kazenai_core.Base.Text.{codes_eq_sound}
use kazenai_core.Base.Amount.{ℤ}
use kazenai_core.Ownership.{
  Refs, OwnerState, Claim, granted, conflicts, sdk, has_text, claim_owner, holds_reservation,
  should_skip, owner_is_other, is_other, must_not_reserve, Action, claims, claims_configured, binds,
  reserves, Body, done, next, Run, reserve, enter, and_then, owner_text, or_sdk, act, run,
}

-- No owner or the sdk in the environment.
abbrev pub IsSdkOrNone : Option (List ℕ) → Type 0
IsSdkOrNone none = Unit
IsSdkOrNone (some owner) = owner ≡ sdk

-- No scope, or one of the sdk that holds no reservation.
abbrev pub IsFree : Option OwnerState → Type 0
IsFree none = Unit
IsFree (some s) = (s.owner ≡ sdk) × (has_text s.refs.reservation_id ≡ false)

-- What holds of the state that is granted, if one is.
abbrev pub OnGranted : (OwnerState → Type 0) → Claim → Type 0
OnGranted P (granted s) = P s
OnGranted P (conflicts error) = Unit

module _ {ℓ} (P : Option OwnerState → Type ℓ) where
  All-++ : (xs ys : List (Option OwnerState)) → All P xs → All P ys → All P (xs ++ ys)
  All-++ [] ys here there = there
  All-++ (x ∷ xs) ys here there = (here.0, All-++ xs ys here.1 there)

  enter-All :
      {Q : OwnerState → Type 0} (current : Option OwnerState) (claim : Claim)
      (body : OwnerState → Run)
      → OnGranted Q claim
      → ((s : OwnerState) → Q s → All P (body s).made)
      → All P (enter current claim body).made
  unfolding enter
  enter-All current (granted s) body q inside = inside s q
  enter-All current (conflicts error) body q inside = tt

  and_then-All : (r later : Run) → All P r.made → All P later.made → All P (and_then r later).made
  unfolding and_then
  and_then-All r later here there =
      if_cases (λ (x : Run). All P x.made) (is_some r.raised) (λ _. here)
        (λ _. All-++ r.made later.made here there)

any_grant : (claim : Claim) → OnGranted (λ _. Unit) claim
any_grant (granted s) = tt
any_grant (conflicts error) = tt

free_env : (env : Option (List ℕ)) → is_other sdk env ≡ false → IsSdkOrNone env
free_env none h = tt
free_env (some e) h = codes_eq_sound e sdk (ground arith)

IsFree-scope :
    (current : Option OwnerState)
    → holds_reservation current ≡ false
    → owner_is_other sdk current ≡ false
    → IsFree current
IsFree-scope none h k = tt
IsFree-scope (some s) h k = (codes_eq_sound s.owner sdk (ground arith), h)

abbrev pub MayReserve : Option (List ℕ) → Option OwnerState → Type 0
MayReserve env context = IsSdkOrNone env × IsFree context

reserve-All :
    (env : Option (List ℕ)) (current : Option OwnerState) (id : Option String) (attempt : Option ℤ)
    (answer : Refs)
    → All (MayReserve env) (reserve env current id attempt answer).made
unfolding reserve should_skip must_not_reserve
reserve-All env current id attempt answer =
    if_cases (λ (r : Run). All (MayReserve env) r.made) (should_skip env current) (λ _. tt)
      (λ free.
        if_cases (λ (r : Run). All (MayReserve env) r.made) (must_not_reserve env current) (λ _. tt)
          (λ may. (
            (free_env env (ground arith), IsFree-scope current (ground arith) (ground arith)),
            tt,
          )))

mutual
  unfolding act run

  act-All :
      (env : Option (List ℕ)) (current : Option OwnerState) (a : Action)
      → All (MayReserve env) (act env current a).made
  act-All env current (claims owner refs body) =
      enter-All (MayReserve env) current (claim_owner env current (owner_text owner) refs) _
        (any_grant _) (λ s _. run-All env (some s) body)
  act-All env current (claims_configured refs body) =
      enter-All (MayReserve env) current (claim_owner env current (or_sdk env) refs) _ (any_grant _)
        (λ s _. run-All env (some s) body)
  act-All env current (binds refs) = tt
  act-All env current (reserves id attempt answer) = reserve-All env current id attempt answer

  run-All :
      (env : Option (List ℕ)) (current : Option OwnerState) (body : Body)
      → All (MayReserve env) (run env current body).made
  run-All env current done = tt
  run-All env current (next a rest) =
      and_then-All (MayReserve env) (act env current a) _ (act-All env current a)
        (run-All env (act env current a).current rest)

-- Whatever scopes a program enters, nests and leaves, wherever it binds references and asks for
-- reservations: each reservation is made under no configured owner or the sdk, and in no scope or in
-- one of the sdk that does not hold a reservation yet.
pub run-MayReserve :
    (env : Option (List ℕ)) (current : Option OwnerState) (body : Body)
    → All (MayReserve env) (run env current body).made
run-MayReserve env current body = run-All env current body
