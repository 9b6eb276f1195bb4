-- ===== src/OrgPolicy/Sent.antt =====
-- Where the setting that kazenai/spine/org_policy.py acts on comes from, also when files cannot be written.
use kazenai_core.Base.{
  ◌≡◌, refl, sym, subst, ◌⊎◌, inl, inr, Bool, true, false, not, String, List, [], ◌∷◌, Option, none,
  some, if_cases, if◌then◌else◌, Bool-cases, All, All-map,
}
use kazenai_core.Base.Text.{or_text}
use kazenai_core.OrgPolicy.{
  FailPolicy, fail_open, fail_closed, Hash, Key, key_eq, is_usable, path_of,
  policy_from_capabilities, reported_org, Entry, is_entry, is_policy, Cache, keep_entry,
  remember_policy, remember, lookup_in, lookup, is_open, allows_fail_open, Step, remembers, looks,
  restarts, step, run, empty,
}
use kazenai_core.OrgPolicy.Keeping.{
  key_eq_sound, key_eq_refl, str_eq_refl, file_policy, entry_policy, IsApart, IsKept,
  remember_other, lookup-IsKept, read_file-policy,
}
use kazenai_core.OrgPolicy.Newest.{policy_word_named}

-- A document for a key said a policy.
abbrev pub IsSent : Key → FailPolicy → List Step → Type 0
IsSent k policy [] = ⊥
IsSent k policy (remembers key block writes ∷ xs) =
    ((key ≡ k) × (policy_from_capabilities block ≡ some policy)) ⊎ IsSent k policy xs
IsSent k policy (looks key ∷ xs) = IsSent k policy xs
IsSent k policy (restarts ∷ xs) = IsSent k policy xs

-- No other key has the file of this one.
abbrev pub HasOwnFile : Hash → Key → Step → Type 0
HasOwnFile sha k (remembers key block writes) = IsApart sha k key
HasOwnFile sha k (looks key) = Unit
HasOwnFile sha k restarts = Unit

abbrev OnSome : (FailPolicy → Type 0) → Option FailPolicy → Type 0
OnSome P none = Unit
OnSome P (some policy) = P policy

only_open : (p : FailPolicy) → is_policy p fail_open ≡ true → p ≡ fail_open
only_open fail_open h = refl
only_open fail_closed h = absurd (cc)

abbrev Fits : Key → (FailPolicy → Type 0) → Step → Type 0
Fits k P (remembers key block writes) =
    (policy : FailPolicy) → key ≡ k → policy_from_capabilities block ≡ some policy → P policy
Fits k P (looks key) = Unit
Fits k P restarts = Unit

module _ (sha : Hash) (k : Key) (P : FailPolicy → Type 0) where
  abbrev IsKnown : Cache → Type 0
  IsKnown s = IsKept sha k (OnSome P) (OnSome P) s

  keep-IsKnown :
      (writes : Bool) (entry : Entry) (s : Cache)
      → P entry.policy
      → IsKnown s
      → IsKnown (keep_entry sha writes k entry s)
  unfolding keep_entry
  keep-IsKnown true entry s p known = record {
    file = rw (str_eq_refl (path_of sha k)) (rw (policy_word_named entry.policy) p);
    memory = rw (key_eq_refl k) p;
  }
  keep-IsKnown false entry s p known = record { file = known.file; memory = rw (key_eq_refl k) p }

  remember_same-IsKnown :
      (writes : Bool) (policy : Option FailPolicy) (reported : String) (s : Cache)
      → OnSome P policy
      → IsKnown s
      → IsKnown (remember_policy sha writes k policy reported s)
  unfolding remember_policy
  remember_same-IsKnown writes none reported s p known = known
  remember_same-IsKnown writes (some policy) reported s p known =
      if_cases IsKnown (not (is_usable k)) (λ _. known)
        (λ _.
          if_cases IsKnown
            (is_entry (s.memory k) (record { policy = policy; org = or_text reported k.org }))
            (λ _. known) (λ _. keep-IsKnown writes _ s p known))

  on_some :
      (o : Option FailPolicy) → ((policy : FailPolicy) → o ≡ some policy → P policy) → OnSome P o
  on_some none h = tt
  on_some (some policy) h = h policy refl

  step-IsKnown :
      (x : Step) (s : Cache) → HasOwnFile sha k x → Fits k P x → IsKnown s → IsKnown (step sha s x)
  unfolding step remember
  step-IsKnown (remembers key block writes) s own fits known = elim (Bool-cases (key_eq key k)) [
    | inl same ↦
        subst
          (λ (q : Key).
            IsKnown (
              remember_policy sha writes q (policy_from_capabilities block) (reported_org block) s))
          (sym (key_eq_sound key k same))
          (remember_same-IsKnown writes (policy_from_capabilities block) (reported_org block) s
            (on_some _ (λ policy. fits policy (key_eq_sound key k same))) known)
    | inr other ↦
        remember_other sha k (OnSome P) (OnSome P) writes key (policy_from_capabilities block)
          (reported_org block) s own other known
  ]
  step-IsKnown (looks key) s own fits known =
      lookup-IsKept sha k (OnSome P) (OnSome P) key s (λ p h. h) known
  step-IsKnown restarts s own fits known = record { file = known.file; memory = tt }

  run-IsKnown :
      (xs : List Step) (s : Cache)
      → All (HasOwnFile sha k) xs
      → All (Fits k P) xs
      → IsKnown s
      → IsKnown (run sha s xs)
  unfolding run
  run-IsKnown [] s own fits known = known
  run-IsKnown (x ∷ xs) s own fits known =
      run-IsKnown xs (step sha s x) own.1 fits.1 (step-IsKnown x s own.0 fits.0 known)

  opened : (e : Option Entry) → is_open e ≡ true → OnSome P (entry_policy e) → P fail_open
  opened none h p = absurd (cc)
  opened (some entry) h p = subst P (only_open entry.policy h) p

  looked-up :
      (entry : Option Entry) (s : Cache)
      → OnSome P (file_policy (s.files (path_of sha k)))
      → OnSome P (entry_policy entry)
      → OnSome P (entry_policy (lookup_in sha k entry s).1)
  unfolding lookup_in
  looked-up none s file memory =
      subst (OnSome P)
        (sym (read_file-policy sha k (λ _. Unit) (λ _. Unit) k (s.files (path_of sha k)))) file
  looked-up (some entry) s file memory = memory

  result-IsKnown :
      (usable : Bool) (s : Cache)
      → is_open (if usable then lookup_in sha k (s.memory k) s else (s, none)).1 ≡ true
      → IsKnown s
      → P fail_open
  result-IsKnown true s h known =
      opened (lookup_in sha k (s.memory k) s).1 h (looked-up (s.memory k) s known.file known.memory)
  result-IsKnown false s h known = absurd (cc)

  allows-IsKnown : (s : Cache) → allows_fail_open sha k s ≡ true → IsKnown s → P fail_open
  unfolding allows_fail_open lookup
  allows-IsKnown s h known = result-IsKnown (is_usable k) s h known

later-IsSent :
    (k : Key) (policy : FailPolicy) (x : Step) (xs : List Step)
    → IsSent k policy xs
    → IsSent k policy (x ∷ xs)
later-IsSent k policy (remembers key block writes) xs sent = inr sent
later-IsSent k policy (looks key) xs sent = sent
later-IsSent k policy restarts xs sent = sent

first-Fits : (k : Key) (x : Step) (xs : List Step) → Fits k (λ policy. IsSent k policy (x ∷ xs)) x
first-Fits k (remembers key block writes) xs = λ policy same said. inl (same, said)
first-Fits k (looks key) xs = tt
first-Fits k restarts xs = tt

later-Fits :
    (k : Key) (P Q : FailPolicy → Type 0) (x : Step)
    → ((policy : FailPolicy) → P policy → Q policy)
    → Fits k P x
    → Fits k Q x
later-Fits k P Q (remembers key block writes) f fits =
    λ policy same said. f policy (fits policy same said)
later-Fits k P Q (looks key) f fits = tt
later-Fits k P Q restarts f fits = tt

IsSent-Fits : (k : Key) (xs : List Step) → All (Fits k (λ policy. IsSent k policy xs)) xs
IsSent-Fits k [] = tt
IsSent-Fits k (x ∷ xs) = (
  first-Fits k x xs,
  All-map (Fits k (λ policy. IsSent k policy xs)) (Fits k (λ policy. IsSent k policy (x ∷ xs))) xs
      (λ y.
        later-Fits k (λ policy. IsSent k policy xs) (λ policy. IsSent k policy (x ∷ xs)) y
          (λ policy. later-IsSent k policy x xs))
      (IsSent-Fits k xs),
)

-- A call is let through only where some document for just its service, organization and key said fail_open,
-- whether or not files could be written, and whatever came for other keys, was read or was lost, as long
-- as no other key in the history has the file of this one.
pub run-IsSent :
    (sha : Hash) (k : Key) (steps : List Step)
    → All (HasOwnFile sha k) steps
    → allows_fail_open sha k (run sha empty steps) ≡ true
    → IsSent k fail_open steps
run-IsSent sha k steps own allows =
    let P : FailPolicy → Type 0 = λ policy. IsSent k policy steps in
    allows-IsKnown sha k P (run sha empty steps) allows (
      run-IsKnown sha k P steps empty own (IsSent-Fits k steps) (record { file = tt; memory = tt }))
