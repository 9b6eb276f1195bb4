-- ===== src/Ownership/Reuse.antt =====
-- Scopes of owners of kazenai/enforcement_owner.py that hold a reservation, and those inside them.
use kazenai_core.Base.{
  ◌≡◌, refl, ap, ℕ, true, false, ◌||◌, String, List, [], ◌∷◌, if◌then◌else◌, Option, none, some,
  if_cases, is_some, or_else, arith,
}
use kazenai_core.Base.Text.{codes_eq_sound, codes_eq, is_empty}
use kazenai_core.Base.Amount.{ℤ}
use kazenai_core.Ownership.{
  Refs, OwnerState, Claim, granted, conflicts, gateway, has_text, or_text, merged_refs, claim_under,
  claim_owner, bind_refs, gateway_owns, should_skip, is_other, must_not_reserve, bound_refs, Action,
  claims, claims_configured, binds, reserves, Body, done, next, Run, reserve, enter, and_then,
  owner_text, or_sdk, act, run,
}
use kazenai_core.Ownership.Scopes.{OnGranted}

-- A reservation's id that is bound is not empty.
abbrev KeepsId : Option String → Type 0
KeepsId none = Unit
KeepsId (some id) = is_empty id ≡ false

unfoldable mutual
  pub IsKeeping : Action → Type 0
  IsKeeping (claims owner refs body) = NeverClears body
  IsKeeping (claims_configured refs body) = NeverClears body
  IsKeeping (binds refs) = KeepsId refs.reservation_id
  IsKeeping (reserves id attempt answer) = Unit

  -- A program that never binds an empty id of a reservation.
  pub NeverClears : Body → Type 0
  NeverClears done = Unit
  NeverClears (next a rest) = IsKeeping a × NeverClears rest

or_text-kept : (new old : Option String) → has_text old ≡ true → has_text (or_text new old) ≡ true
or_text-kept new old h =
    if_cases (λ (t : Option String). has_text t ≡ true) (has_text new) (λ e. e) (λ _. h)

or_else-kept :
    (new old : Option String)
    → KeepsId new
    → has_text old ≡ true
    → has_text (or_else new old) ≡ true
or_else-kept none old keeps h = h
or_else-kept (some id) old keeps h = ground arith

module _ (env : Option (List ℕ)) where
  abbrev Skips : Option OwnerState → Type 0
  Skips current = should_skip env current ≡ true

  Skips-scope :
      (s t : OwnerState)
      → s.owner ≡ t.owner
      → (has_text s.refs.reservation_id ≡ true → has_text t.refs.reservation_id ≡ true)
      → Skips (some s)
      → Skips (some t)
  unfolding should_skip gateway_owns
  Skips-scope s t same kept h =
      let gate : codes_eq s.owner gateway ≡ codes_eq t.owner gateway =
        ap (λ o. codes_eq o gateway) same in
      ground arith

  claim-Skips :
      (current : Option OwnerState) (want : List ℕ) (refs : Refs)
      → Skips current
      → OnGranted (λ s. Skips (some s)) (claim_under want refs current)
  unfolding claim_under should_skip gateway_owns
  claim-Skips none want refs h = ground arith
  claim-Skips (some c) want refs h =
      if_cases (OnGranted (λ s. Skips (some s))) (codes_eq c.owner want)
        (λ same.
          Skips-scope c (record { owner = want; refs = merged_refs refs c.refs })
            (codes_eq_sound c.owner want same)
            (or_text-kept refs.reservation_id c.refs.reservation_id) h)
        (λ _. tt)

  bind-Skips :
      (current : Option OwnerState) (refs : Refs)
      → KeepsId refs.reservation_id
      → Skips current
      → Skips (bind_refs refs current)
  unfolding bind_refs
  bind-Skips none refs keeps h = h
  bind-Skips (some c) refs keeps h =
      Skips-scope c _ refl (or_else-kept refs.reservation_id c.refs.reservation_id keeps) h

  claim_owner-Skips :
      (current : Option OwnerState) (want : List ℕ) (refs : Refs)
      → Skips current
      → OnGranted (λ s. Skips (some s)) (claim_owner env current want refs)
  unfolding claim_owner
  claim_owner-Skips current want refs h =
      if_cases (OnGranted (λ s. Skips (some s))) (codes_eq want []) (λ _. tt)
        (λ _.
          if_cases (OnGranted (λ s. Skips (some s))) (is_other want env) (λ _. tt)
            (λ _. claim-Skips current want refs h))

  -- A run that reserves nothing and after which no reservation is made.
  abbrev IsSpent : Run → Type 0
  IsSpent r = (r.made ≡ []) × Skips r.current

  enter-IsSpent :
      (current : Option OwnerState) (claim : Claim) (body : OwnerState → Run)
      → OnGranted (λ s. Skips (some s)) claim
      → Skips current
      → ((s : OwnerState) → Skips (some s) → IsSpent (body s))
      → IsSpent (enter current claim body)
  unfolding enter
  enter-IsSpent current (granted s) body q h inside = ((inside s q).0, h)
  enter-IsSpent current (conflicts error) body q h inside = (refl, h)

  and_then-IsSpent : (r later : Run) → IsSpent r → IsSpent later → IsSpent (and_then r later)
  unfolding and_then
  and_then-IsSpent r later here there =
      if_cases IsSpent (is_some r.raised) (λ _. here) (λ _. (rw (here.0, there.0) refl, there.1))

  reserve-IsSpent :
      (current : Option OwnerState) (id : Option String) (attempt : Option ℤ) (answer : Refs)
      → Skips current
      → IsSpent (reserve env current id attempt answer)
  unfolding reserve
  reserve-IsSpent current id attempt answer h = rw (h) (refl, h)

mutual
  unfolding act run IsKeeping NeverClears

  act-IsSpent :
      (env : Option (List ℕ)) (current : Option OwnerState) (a : Action)
      → IsKeeping a
      → Skips env current
      → IsSpent env (act env current a)
  act-IsSpent env current (claims owner refs body) keeps h =
      enter-IsSpent env current _ _ (claim_owner-Skips env current (owner_text owner) refs h) h
        (λ s q. run-IsSpent env (some s) body keeps q)
  act-IsSpent env current (claims_configured refs body) keeps h =
      enter-IsSpent env current _ _ (claim_owner-Skips env current (or_sdk env) refs h) h
        (λ s q. run-IsSpent env (some s) body keeps q)
  act-IsSpent env current (binds refs) keeps h = (refl, bind-Skips env current refs keeps h)
  act-IsSpent env current (reserves id attempt answer) keeps h =
      reserve-IsSpent env current id attempt answer h

  run-IsSpent :
      (env : Option (List ℕ)) (current : Option OwnerState) (body : Body)
      → NeverClears body
      → Skips env current
      → IsSpent env (run env current body)
  run-IsSpent env current done keeps h = (refl, h)
  run-IsSpent env current (next a rest) keeps h =
      let here = act-IsSpent env current a keeps.0 h in
      and_then-IsSpent env (act env current a) _ here
        (run-IsSpent env (act env current a).current rest keeps.1 here.1)

or_text-given :
    (new old : Option String)
    → has_text new ≡ true
    → has_text (or_else (or_text new none) old) ≡ true
or_text-given none old given = absurd (ground arith)
or_text-given (some t) old given = rw (given) given

bound-Skips :
    (env : Option (List ℕ)) (s : OwnerState) (id : Option String) (attempt : Option ℤ)
    (answer : Refs)
    → has_text answer.reservation_id ≡ true
    → Skips env (bind_refs (bound_refs id attempt answer) (some s))
unfolding should_skip gateway_owns bind_refs
bound-Skips env s id attempt answer given =
    let held : has_text (or_else (or_text answer.reservation_id none) s.refs.reservation_id)
        ≡ true =
      or_text-given answer.reservation_id s.refs.reservation_id given in
    ground arith

-- In a scope, a call is reserved for with an answer that names the reservation, and what follows in the
-- scope never binds an empty id: then nothing that follows reserves again, in whatever scopes it
-- enters, so that the reservations are those of the first call.
pub run-reserve :
    (env : Option (List ℕ)) (s : OwnerState) (id : Option String) (attempt : Option ℤ)
    (answer : Refs) (rest : Body)
    → has_text answer.reservation_id ≡ true
    → NeverClears rest
    → (run env (some s) (next (reserves id attempt answer) rest)).made
      ≡ (reserve env (some s) id attempt answer).made
unfolding act run reserve and_then
run-reserve env s id attempt answer rest given keeps =
    let Same : Run → Type 0 = λ r. (and_then r (run env r.current rest)).made ≡ r.made in
    if_cases Same (should_skip env (some s)) (λ skip. (run-IsSpent env (some s) rest keeps skip).0)
      (λ _.
        if_cases Same (must_not_reserve env (some s)) (λ _. refl)
          (λ _.
            let skip : Skips env (
                if has_text answer.reservation_id || has_text answer.decision_id
                then bind_refs (bound_refs id attempt answer) (some s)
                else some s) =
              if_cases (Skips env) (has_text answer.reservation_id || has_text answer.decision_id)
                (λ _. bound-Skips env s id attempt answer given) (λ no. absurd (ground arith)) in
            ap (λ (l : List (Option OwnerState)). some s ∷ l)
              (run-IsSpent env _ rest keeps skip).0))
