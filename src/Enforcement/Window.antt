-- ===== src/Enforcement/Window.antt =====
-- The rate limit of kazenai/enforcement.py: which calls `_prune_locked` keeps, and what
-- `check_local` admits.
use kazenai_core.Base.{
  ◌≡◌, refl, sym, Bool, false, not, Option, some, List, [], ◌∷◌, ◌++◌, arith, length, keep, All,
  inl, inr, ap, ◌∙◌, ◌↔◌, subst, if_cases, Bool-cases,
}
use kazenai_core.Base.Amount.{ℤ, pos, ◌-ℤ◌, ◌≤ℤ◌, ltb_ℤ}
use kazenai_core.Enforcement.{
  Enforcement, popleft_before, prune, rate_limited, is_rate_limited, check_budget, hold,
  check_local, record_call, release_projection,
}

-- The oldest first.
abbrev pub Ascends : List ℤ → Type 0
Ascends [] = Unit
Ascends (t ∷ ts) = All (λ u. t ≤ℤ u) ts × Ascends ts

-- The calls of the window that ends now.
abbrev pub is_recent : ℤ → ℤ → Bool
is_recent cutoff t = not (ltb_ℤ t cutoff)

keep_later :
    (cutoff t : ℤ) (ts : List ℤ)
    → ltb_ℤ t cutoff ≡ false
    → All (λ u. t ≤ℤ u) ts
    → keep (is_recent cutoff) ts ≡ ts
keep_later cutoff t [] h later = refl
keep_later cutoff t (u ∷ ts) h (le, later) =
    let rest = keep_later cutoff t ts h later in ground (arith, rest)

-- Removing calls from the old end while they are old is the filter of the recent ones.
pub popleft_before-keep :
    (cutoff : ℤ) (ts : List ℤ) → Ascends ts → popleft_before cutoff ts ≡ keep (is_recent cutoff) ts
unfolding popleft_before
popleft_before-keep cutoff [] ok = refl
popleft_before-keep cutoff (t ∷ ts) (later, ok) = elim (Bool-cases (ltb_ℤ t cutoff)) [
  | inl e ↦ rw (e, popleft_before-keep cutoff ts ok) refl
  | inr e ↦ rw e (ap (λ k. t ∷ k) (sym (keep_later cutoff t ts e later)))
]

-- `check_local` refuses a call for its rate exactly when the calls recorded in the window that ends
-- now have reached the limit, for timestamps in ascending order.
pub check_local-rate :
    (now proj limit : ℤ) (e : Enforcement)
    → Ascends e.call_timestamps
    → e.calls_per_minute ≡ some limit
    → ((check_local now proj e).1 ≡ rate_limited)
      ↔ (limit ≤ℤ pos (length (keep (is_recent (now -ℤ e.window)) e.call_timestamps)))
unfolding check_local is_rate_limited check_budget hold
check_local-rate now proj limit e ok rate =
    rw (rate, sym (popleft_before-keep (now -ℤ e.window) e.call_timestamps ok)) (ground arith)

All-append : (P : ℤ → Type 0) (ts : List ℤ) (u : ℤ) → All P ts → P u → All P (ts ++ (u ∷ []))
All-append P [] u all h = (h, tt)
All-append P (t ∷ ts) u (first, all) h = (first, All-append P ts u all h)

Ascends-append :
    (now : ℤ) (ts : List ℤ) → All (λ t. t ≤ℤ now) ts → Ascends ts → Ascends (ts ++ (now ∷ []))
Ascends-append now [] all ok = (tt, tt)
Ascends-append now (t ∷ ts) (first, all) (later, ok) =
    (All-append (λ u. t ≤ℤ u) ts now later first, Ascends-append now ts all ok)

-- What a filter keeps satisfies what all did, in the same order.
keep-All : (P : ℤ → Type 0) (p : ℤ → Bool) (ts : List ℤ) → All P ts → All P (keep p ts)
keep-All P p [] all = tt
keep-All P p (t ∷ ts) (first, all) =
    if_cases (All P) (p t) (λ _. (first, keep-All P p ts all)) (λ _. keep-All P p ts all)

keep-Ascends : (p : ℤ → Bool) (ts : List ℤ) → Ascends ts → Ascends (keep p ts)
keep-Ascends p [] ok = tt
keep-Ascends p (t ∷ ts) (later, ok) =
    if_cases Ascends (p t) (λ _. (keep-All (λ u. t ≤ℤ u) p ts later, keep-Ascends p ts ok))
      (λ _. keep-Ascends p ts ok)

release-timestamps :
    (released : ℤ) (e : Enforcement)
    → (release_projection released e).call_timestamps ≡ e.call_timestamps
unfolding release_projection
release-timestamps released e = ground arith

-- A call recorded at a moment not before the recorded ones is appended to the calls of the window
-- that are still recent, and the timestamps stay in ascending order.
pub record_call-window :
    (now : ℤ) (cost : Option ℤ) (enforce : Bool) (released : ℤ) (e : Enforcement)
    → Ascends e.call_timestamps
    → All (λ t. t ≤ℤ now) e.call_timestamps
    → ((record_call now cost enforce released e).0.call_timestamps
        ≡ keep (is_recent (now -ℤ e.window)) e.call_timestamps ++ (now ∷ []))
      × Ascends (record_call now cost enforce released e).0.call_timestamps
unfolding record_call
record_call-window now cost enforce released e ok past =
    let kept = popleft_before-keep (now -ℤ e.window) e.call_timestamps ok in
    let same =
      release-timestamps released
        (record (prune now e) { call_timestamps = (prune now e).call_timestamps ++ (now ∷ []) })
      ∙ ap (λ k. k ++ (now ∷ [])) kept in
    (
      same,
      subst Ascends (sym same) (
          Ascends-append now (keep (is_recent (now -ℤ e.window)) e.call_timestamps)
            (keep-All (λ t. t ≤ℤ now) (is_recent (now -ℤ e.window)) e.call_timestamps past)
            (keep-Ascends (is_recent (now -ℤ e.window)) e.call_timestamps ok)),
    )
