-- ===== src/OrgPolicy/Warning.antt =====
-- `note_fail_open_call` of kazenai/spine/org_policy.py: one warning in a minute for an organization. Times are
-- in milliseconds.
use kazenai_core.Base.{
  ◌≡◌, ℕ, suc, ◌+◌, ltb, ◌==◌, not, ◌&&◌, List, [], ◌∷◌, length, Option, none, some, if◌then◌else◌,
  arith, String, str_eq,
}

-- When a warning was last given, and the calls since.
pub record Warned : Type 0 where
  pub last : ℕ
  pub count : ℕ

abbrev pub warn_every_ms : ℕ
warn_every_ms = 60000

abbrev or_new : Option Warned → Warned
or_new none = record { last = 0; count = 0 }
or_new (some warned) = warned

-- What is kept for the organization, and the number of calls of the warning that is given.
unfoldable pub note : ℕ → Warned → Warned × Option ℕ
note now warned =
    if ltb now (warned.last + warn_every_ms) && not (warned.last == 0)
    then (record { last = warned.last; count = suc warned.count }, none)
    else (record { last = now; count = 0 }, some (suc warned.count))

unfoldable pub note_fail_open_call :
    String → ℕ → (String → Option Warned) → (String → Option Warned) × Option ℕ
note_fail_open_call org now warned =
    let (kept, told) = note now (or_new (warned org)) in
    (λ other. if str_eq org other then some kept else warned other, told)

abbrev told_of : Option ℕ → ℕ
told_of none = 0
told_of (some n) = n

-- The calls that the warnings of a sequence of calls count, and those that wait.
unfoldable pub counted : Warned → List ℕ → ℕ
counted warned [] = warned.count
counted warned (now ∷ later) =
    let r = note now warned in let rest = counted r.0 later in told_of r.1 + rest

note-count :
    (now : ℕ) (warned : Warned)
    → told_of (note now warned).1 + (note now warned).0.count ≡ suc warned.count
unfolding note
note-count now warned = ground arith

-- Every call of an organization is counted by exactly one warning, or waits for the next.
pub counted-length :
    (warned : Warned) (times : List ℕ) → counted warned times ≡ warned.count + length times
unfolding counted
counted-length warned [] = omega arith
counted-length warned (now ∷ later) =
    let rest = counted-length (note now warned).0 later in
    let one = note-count now warned in omega arith
