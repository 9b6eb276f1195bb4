-- ===== src/OrgPolicy.antt =====
-- kazenai/spine/org_policy.py: what an organization chose for calls made while the service cannot be
-- reached, kept in memory and in a file. SHA-256 is an argument; whether a file could be written is said
-- with the call. The methods run under the lock, and no other process writes the file of a key.
use kazenai_core.Base.{
  ℕ, Bool, true, false, ◌&&◌, not, String, str_eq, List, [], ◌∷◌, Option, none, some, if◌then◌else◌,
  is_some,
}
use kazenai_core.Base.Text.{strip, rstrip_slash, or_text, is_empty, take_chars, concat}
pub mod Keeping
pub mod Newest
pub mod Sent
pub mod Warning
mod Tests

pub data FailPolicy : Type 0 where
  fail_open fail_closed : FailPolicy

abbrev pub Hash : Type 0
Hash = String → String

pub record Key : Type 0 where
  pub base : String
  pub org : String
  pub fingerprint : String

-- `_key`.
unfoldable pub key_of : Hash → String → String → String → Key
key_of sha base org api_key =
    let secret = strip api_key in
    record {
      base = rstrip_slash base;
      org = strip org;
      fingerprint = if is_empty secret then "" else take_chars 32 (sha secret);
    }

abbrev pub key_eq : Key → Key → Bool
key_eq a b = str_eq a.base b.base && str_eq a.org b.org && str_eq a.fingerprint b.fingerprint

-- `_usable`.
abbrev pub is_usable : Key → Bool
is_usable key = not (is_empty key.base) && not (is_empty key.org)

-- The name of the file of `_path`.
unfoldable pub path_of : Hash → Key → String
path_of sha key =
    take_chars 40 (sha (concat key.base (concat "|" (concat key.org (concat "|" key.fingerprint)))))

-- The block `org_policy` of a capabilities document.
pub record Block : Type 0 where
  pub when_unreachable : String
  pub org_id : String

-- `value if value in _POLICIES else None`.
unfoldable pub policy_named : String → Option FailPolicy
policy_named value =
    if str_eq value "fail_open"
    then some fail_open
    else if str_eq value "fail_closed"
    then some fail_closed
    else none

-- `policy_from_capabilities`.
unfoldable pub policy_from_capabilities : Option Block → Option FailPolicy
policy_from_capabilities none = none
policy_from_capabilities (some block) = policy_named block.when_unreachable

-- `_reported_org`.
unfoldable pub reported_org : Option Block → String
reported_org none = ""
reported_org (some block) = take_chars 200 (strip block.org_id)

pub record Entry : Type 0 where
  pub policy : FailPolicy
  pub org : String

abbrev pub is_policy : FailPolicy → FailPolicy → Bool
is_policy fail_open fail_open = true
is_policy fail_closed fail_closed = true
is_policy _ _ = false

abbrev pub is_entry : Option Entry → Entry → Bool
is_entry none entry = false
is_entry (some old) entry = is_policy old.policy entry.policy && str_eq old.org entry.org

-- What a file holds.
pub record Stored : Type 0 where
  pub when_unreachable : String
  pub org_id : String

pub record Cache : Type 0 where
  pub memory : Key → Option Entry
  pub files : String → Option Stored

abbrev pub put_memory : Key → Entry → (Key → Option Entry) → Key → Option Entry
put_memory key entry memory other = if key_eq key other then some entry else memory other

abbrev pub put_file : String → Stored → (String → Option Stored) → String → Option Stored
put_file path stored files other = if str_eq path other then some stored else files other

abbrev pub policy_word : FailPolicy → String
policy_word fail_open = "fail_open"
policy_word fail_closed = "fail_closed"

abbrev pub stored_of : Entry → Stored
stored_of entry = record { when_unreachable = policy_word entry.policy; org_id = entry.org }

-- The entry goes into memory, and into the file where it can be written.
unfoldable pub keep_entry : Hash → Bool → Key → Entry → Cache → Cache
keep_entry sha writes key entry s = record {
  memory = put_memory key entry s.memory;
  files = if writes then put_file (path_of sha key) (stored_of entry) s.files else s.files;
}

-- `remember`. A setting that memory has already is not written again.
unfoldable pub remember_policy : Hash → Bool → Key → Option FailPolicy → String → Cache → Cache
remember_policy sha writes key none reported s = s
remember_policy sha writes key (some policy) reported s =
    let entry : Entry = record { policy = policy; org = or_text reported key.org } in
    if not (is_usable key)
    then s
    else if is_entry (s.memory key) entry
    then s
    else keep_entry sha writes key entry s

unfoldable pub remember : Hash → Bool → Key → Option Block → Cache → Cache
remember sha writes key capabilities s =
    remember_policy sha writes key (policy_from_capabilities capabilities)
      (reported_org capabilities) s

abbrev pub read_policy : Key → Stored → Option FailPolicy → Option Entry
read_policy key stored none = none
read_policy key stored (some policy) =
    some (record { policy = policy; org = or_text (take_chars 200 (strip stored.org_id)) key.org })

-- The entry of a file.
unfoldable pub read_file : Key → Option Stored → Option Entry
read_file key none = none
read_file key (some stored) = read_policy key stored (policy_named stored.when_unreachable)

abbrev pub set_default : Key → Option Entry → Cache → Cache
set_default key none s = s
set_default key (some entry) s = record s { memory = put_memory key entry s.memory }

-- Where memory has no entry, that of the file is read and kept.
unfoldable pub lookup_in : Hash → Key → Option Entry → Cache → Cache × Option Entry
lookup_in sha key (some entry) s = (s, some entry)
lookup_in sha key none s =
    let read = read_file key (s.files (path_of sha key)) in (set_default key read s, read)

-- `_lookup`.
unfoldable pub lookup : Hash → Key → Cache → Cache × Option Entry
lookup sha key s = if is_usable key then lookup_in sha key (s.memory key) s else (s, none)

abbrev pub is_open : Option Entry → Bool
is_open none = false
is_open (some entry) = is_policy entry.policy fail_open

-- `allows_fail_open`.
unfoldable pub allows_fail_open : Hash → Key → Cache → Bool
allows_fail_open sha key s = is_open (lookup sha key s).1

-- `reported_org_id`.
unfoldable pub reported_org_id : Hash → Key → Cache → String
reported_org_id sha key s = elim (lookup sha key s).1 [ none ↦ key.org | some entry ↦ entry.org ]

-- What happens to the cache of a process and its successors: a document arrives, whose file can be written
-- or not; the setting is read; the process starts again.
pub data Step : Type 0 where
  remembers : Key → Option Block → Bool → Step
  looks : Key → Step
  restarts : Step

unfoldable pub step : Hash → Cache → Step → Cache
step sha s (remembers key block writes) = remember sha writes key block s
step sha s (looks key) = (lookup sha key s).0
step sha s restarts = record s { memory = λ _. none }

unfoldable pub run : Hash → Cache → List Step → Cache
run sha s [] = s
run sha s (x ∷ xs) = run sha (step sha s x) xs

abbrev pub empty : Cache
empty = record { memory = λ _. none; files = λ _. none }
