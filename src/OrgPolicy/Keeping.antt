-- ===== src/OrgPolicy/Keeping.antt =====
-- What the cache of kazenai/spine/org_policy.py holds for one key, whatever happens to other keys.
use kazenai_core.Base.{
  ◌≡◌, refl, sym, subst, Bool, true, false, not, String, str_eq, eq_iff, Option, none, some,
  if_cases, arith,
}
use kazenai_core.Base.Text.{or_text}
use kazenai_core.OrgPolicy.{
  FailPolicy, Hash, Key, key_eq, is_usable, path_of, policy_named, Entry, is_entry, Stored, Cache,
  keep_entry, remember_policy, read_policy, read_file, set_default, lookup_in, lookup,
}

pub key_eq_sound : (a b : Key) → key_eq a b ≡ true → a ≡ b
key_eq_sound a b h =
    let base : a.base ≡ b.base = (eq_iff a.base b.base).0 (ground arith) in
    let org : a.org ≡ b.org = (eq_iff a.org b.org).0 (ground arith) in
    let fingerprint : a.fingerprint ≡ b.fingerprint =
      (eq_iff a.fingerprint b.fingerprint).0 (ground arith) in
    rw (base, org, fingerprint) refl

pub str_eq_refl : (a : String) → str_eq a a ≡ true
str_eq_refl a = (eq_iff a a).1 refl

pub key_eq_refl : (k : Key) → key_eq k k ≡ true
key_eq_refl k = rw (str_eq_refl k.base, str_eq_refl k.org, str_eq_refl k.fingerprint) refl

-- The policy of a file and of an entry.
abbrev pub file_policy : Option Stored → Option FailPolicy
file_policy none = none
file_policy (some stored) = policy_named stored.when_unreachable

abbrev pub entry_policy : Option Entry → Option FailPolicy
entry_policy none = none
entry_policy (some entry) = some entry.policy

-- The files of two keys are two, unless the keys are one.
abbrev pub IsApart : Hash → Key → Key → Type 0
IsApart sha k key = key_eq key k ≡ false → str_eq (path_of sha key) (path_of sha k) ≡ false

module _ (sha : Hash) (k : Key) (F M : Option FailPolicy → Type 0) where
  -- The file of the key satisfies F, and its entry in memory M.
  pub record IsKept (s : Cache) : Type 0 where
    pub file : F (file_policy (s.files (path_of sha k)))
    pub memory : M (entry_policy (s.memory k))

  keep_other :
      (writes : Bool) (key : Key) (entry : Entry) (s : Cache)
      → key_eq key k ≡ false
      → str_eq (path_of sha key) (path_of sha k) ≡ false
      → IsKept s
      → IsKept (keep_entry sha writes key entry s)
  unfolding keep_entry
  keep_other true key entry s other apart kept = record {
    file = rw (apart) kept.file;
    memory = rw (other) kept.memory;
  }
  keep_other false key entry s other apart kept = record {
    file = kept.file;
    memory = rw (other) kept.memory;
  }

  -- A document for another key.
  pub remember_other :
      (writes : Bool) (key : Key) (policy : Option FailPolicy) (reported : String) (s : Cache)
      → IsApart sha k key
      → key_eq key k ≡ false
      → IsKept s
      → IsKept (remember_policy sha writes key policy reported s)
  unfolding remember_policy
  remember_other writes key none reported s apart other kept = kept
  remember_other writes key (some policy) reported s apart other kept =
      if_cases IsKept (not (is_usable key)) (λ _. kept)
        (λ _.
          if_cases IsKept
            (is_entry (s.memory key) (record { policy = policy; org = or_text reported key.org }))
            (λ _. kept) (λ _. keep_other writes key _ s other (apart other) kept))

  set_default-IsKept :
      (key : Key) (read : Option Entry) (s : Cache)
      → (key_eq key k ≡ true → M (entry_policy read))
      → IsKept s
      → IsKept (set_default key read s)
  set_default-IsKept key none s fits kept = kept
  set_default-IsKept key (some entry) s fits kept = record {
    file = kept.file;
    memory =
        if_cases (λ (e : Option Entry). M (entry_policy e)) (key_eq key k) (λ same. fits same)
          (λ _. kept.memory);
  }

  read_policy-entry :
      (key : Key) (stored : Stored) (p : Option FailPolicy)
      → entry_policy (read_policy key stored p) ≡ p
  read_policy-entry key stored none = refl
  read_policy-entry key stored (some policy) = refl

  pub read_file-policy :
      (key : Key) (f : Option Stored) → entry_policy (read_file key f) ≡ file_policy f
  unfolding read_file
  read_file-policy key none = refl
  read_file-policy key (some stored) = read_policy-entry key stored _

  lookup_in-IsKept :
      (key : Key) (entry : Option Entry) (s : Cache)
      → ((p : Option FailPolicy) → F p → M p)
      → IsKept s
      → IsKept (lookup_in sha key entry s).0
  unfolding lookup_in
  lookup_in-IsKept key (some entry) s fits kept = kept
  lookup_in-IsKept key none s fits kept =
      set_default-IsKept key _ s
        (λ same.
          subst (λ p. M p) (sym (read_file-policy key _))
            (fits _ (
              subst (λ (q : Key). F (file_policy (s.files (path_of sha q))))
                (sym (key_eq_sound key k same)) kept.file)))
        kept

  pub lookup-IsKept :
      (key : Key) (s : Cache)
      → ((p : Option FailPolicy) → F p → M p)
      → IsKept s
      → IsKept (lookup sha key s).0
  unfolding lookup
  lookup-IsKept key s fits kept =
      if_cases (λ (r : Cache × Option Entry). IsKept r.0) (is_usable key)
        (λ _. lookup_in-IsKept key (s.memory key) s fits kept) (λ _. kept)
