-- ===== src/OrgPolicy/Newest.antt =====
-- What kazenai/spine/org_policy.py allows after any history of documents, readings and restarts.
use kazenai_core.Base.{
  ◌≡◌, refl, sym, ap, subst, ◌∙◌, inl, inr, Bool, true, false, not, String, List, [], ◌∷◌, Option,
  none, some, if_cases, if◌then◌else◌, Bool-cases, All, arith,
}
use kazenai_core.Base.Text.{or_text}
use kazenai_core.OrgPolicy.{
  FailPolicy, fail_open, fail_closed, Hash, Key, key_eq, is_usable, path_of, Block, policy_named,
  policy_from_capabilities, reported_org, Entry, is_entry, is_policy, Cache, policy_word,
  keep_entry, remember_policy, remember, lookup_in, lookup, is_open, allows_fail_open, Step,
  remembers, looks, restarts, step, run, empty,
}
use kazenai_core.OrgPolicy.Keeping.{
  key_eq_sound, key_eq_refl, str_eq_refl, file_policy, entry_policy, IsApart, IsKept,
  remember_other, lookup-IsKept, read_file-policy,
}

abbrev pub or_policy : Option FailPolicy → Option FailPolicy → Option FailPolicy
or_policy none last = last
or_policy (some policy) last = some policy

-- The newest policy that documents for a key said, the given one where none did.
abbrev pub said : Key → Step → Option FailPolicy → Option FailPolicy
said k (remembers key block writes) last =
    if key_eq key k then or_policy (policy_from_capabilities block) last else last
said k (looks key) last = last
said k restarts last = last

abbrev pub newest : Key → Option FailPolicy → List Step → Option FailPolicy
newest k last [] = last
newest k last (x ∷ xs) = newest k (said k x last) xs

abbrev pub is_open_policy : Option FailPolicy → Bool
is_open_policy none = false
is_open_policy (some policy) = is_policy policy fail_open

-- A document is for another file or this key, and its file can be written.
abbrev pub IsSaved : Hash → Key → Step → Type 0
IsSaved sha k (remembers key block writes) = IsApart sha k key × (writes ≡ true)
IsSaved sha k (looks key) = Unit
IsSaved sha k restarts = Unit

-- Memory, where it has an entry, agrees with the newest policy.
abbrev Agrees : Option FailPolicy → Option FailPolicy → Type 0
Agrees last none = Unit
Agrees last (some policy) = some policy ≡ last

pub policy_word_named : (p : FailPolicy) → policy_named (policy_word p) ≡ some p
unfolding policy_named
policy_word_named fail_open = refl
policy_word_named fail_closed = refl

same_policy : (p q : FailPolicy) → is_policy p q ≡ true → p ≡ q
same_policy fail_open fail_open h = refl
same_policy fail_closed fail_closed h = refl
same_policy fail_open fail_closed h = absurd (cc)
same_policy fail_closed fail_open h = absurd (cc)

module _ (sha : Hash) (k : Key) (usable : is_usable k ≡ true) where
  -- The file says the newest policy, and memory nothing else.
  abbrev Shows : Option FailPolicy → Cache → Type 0
  Shows last s = IsKept sha k (λ p. p ≡ last) (Agrees last) s

  known_policy :
      (old : Option Entry) (entry : Entry) (last : Option FailPolicy)
      → is_entry old entry ≡ true
      → Agrees last (entry_policy old)
      → last ≡ some entry.policy
  known_policy none entry last h agrees = absurd (cc)
  known_policy (some old) entry last h agrees =
      sym agrees ∙ ap some (same_policy old.policy entry.policy (ground arith))

  keep_same :
      (entry : Entry) (s : Cache) → Shows (some entry.policy) (keep_entry sha true k entry s)
  unfolding keep_entry
  keep_same entry s = record {
    file = rw (str_eq_refl (path_of sha k)) (policy_word_named entry.policy);
    memory = rw (key_eq_refl k) refl;
  }

  remember_same :
      (policy : Option FailPolicy) (reported : String) (last : Option FailPolicy) (s : Cache)
      → Shows last s
      → Shows (or_policy policy last) (remember_policy sha true k policy reported s)
  unfolding remember_policy
  remember_same none reported last s shows = shows
  remember_same (some policy) reported last s shows =
      if_cases (Shows (some policy)) (not (is_usable k)) (λ no. absurd (ground arith))
        (λ _.
          if_cases (Shows (some policy))
            (is_entry (s.memory k) (record { policy = policy; org = or_text reported k.org }))
            (λ known.
              subst (λ l. Shows l s) (known_policy (s.memory k) _ last known shows.memory) shows)
            (λ _. keep_same _ s))

  remember-Shows :
      (key : Key) (block : Option Block) (last : Option FailPolicy) (s : Cache)
      → IsApart sha k key
      → Shows last s
      → Shows (said k (remembers key block true) last) (remember sha true key block s)
  unfolding remember
  remember-Shows key block last s apart shows = elim (Bool-cases (key_eq key k)) [
    | inl same ↦ rw (same) (
        subst
          (λ (q : Key).
            Shows (or_policy (policy_from_capabilities block) last)
              (remember_policy sha true q (policy_from_capabilities block) (reported_org block) s))
          (sym (key_eq_sound key k same))
          (remember_same (policy_from_capabilities block) (reported_org block) last s shows))
    | inr other ↦ rw (other) (
        remember_other sha k (λ p. p ≡ last) (Agrees last) true key (policy_from_capabilities block)
          (reported_org block) s apart other shows)
  ]

  Agrees-of : (last p : Option FailPolicy) → p ≡ last → Agrees last p
  Agrees-of last none h = tt
  Agrees-of last (some p) h = h

  step-Shows :
      (x : Step) (last : Option FailPolicy) (s : Cache)
      → IsSaved sha k x
      → Shows last s
      → Shows (said k x last) (step sha s x)
  unfolding step
  step-Shows (remembers key block writes) last s saved shows =
      rw (saved.1) (remember-Shows key block last s saved.0 shows)
  step-Shows (looks key) last s saved shows =
      lookup-IsKept sha k (λ p. p ≡ last) (Agrees last) key s (Agrees-of last) shows
  step-Shows restarts last s saved shows = record { file = shows.file; memory = tt }

  run-Shows :
      (xs : List Step) (last : Option FailPolicy) (s : Cache)
      → All (IsSaved sha k) xs
      → Shows last s
      → Shows (newest k last xs) (run sha s xs)
  unfolding run
  run-Shows [] last s saved shows = shows
  run-Shows (x ∷ xs) last s saved shows =
      run-Shows xs (said k x last) (step sha s x) saved.1 (step-Shows x last s saved.0 shows)

  looked_up :
      (entry : Option Entry) (last : Option FailPolicy) (s : Cache)
      → file_policy (s.files (path_of sha k)) ≡ last
      → Agrees last (entry_policy entry)
      → entry_policy (lookup_in sha k entry s).1 ≡ last
  unfolding lookup_in
  looked_up none last s file agrees =
      read_file-policy sha k (λ _. Unit) (λ _. Unit) k (s.files (path_of sha k)) ∙ file
  looked_up (some entry) last s file agrees = agrees

  open_entry : (e : Option Entry) → is_open e ≡ is_open_policy (entry_policy e)
  open_entry none = refl
  open_entry (some entry) = refl

  Shows-allows :
      (last : Option FailPolicy) (s : Cache)
      → Shows last s
      → allows_fail_open sha k s ≡ is_open_policy last
  unfolding allows_fail_open lookup
  Shows-allows last s shows = rw (usable) (
      open_entry (lookup_in sha k (s.memory k) s).1
      ∙ ap is_open_policy (looked_up (s.memory k) last s shows.file shows.memory))

-- Of a service and an organization that are not empty, a call is let through exactly when the newest
-- document for its service, organization and key said fail_open, whatever came for other keys, was
-- read, or was lost with a process; before any document, never. That is where files can be written, no
-- other key in the history has the file of this one, and one process runs at a time: a later one
-- starts when the earlier one has ended, with nothing in memory.
pub run-allows_fail_open :
    (sha : Hash) (k : Key) (steps : List Step)
    → is_usable k ≡ true
    → All (IsSaved sha k) steps
    → allows_fail_open sha k (run sha empty steps) ≡ is_open_policy (newest k none steps)
run-allows_fail_open sha k steps usable saved =
    Shows-allows sha k usable (newest k none steps) (run sha empty steps)
      (run-Shows sha k usable steps none empty saved (record { file = refl; memory = tt }))
