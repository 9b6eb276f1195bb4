-- ===== src/Settlement/Listing.antt =====
-- A whole flush with its listing: kazenai/spine/settle_queue.py, `list_pending` and
-- `_flush_locked`.
use kazenai_core.Base.{
  ◌≡◌, refl, ap, subst, ◌∙◌, inl, inr, false, some, [], ◌∷◌, String, arith, str_eq, eq_iff,
  Bool-cases, All,
}
use kazenai_core.Base.Text.{is_empty, take_chars}
use kazenai_core.Base.Dir.{Dir, read}
use kazenai_core.SettleQueue.Intent.{record_name}
use kazenai_core.SettleQueue.Claims.{File, journaled, unreadable, malformed, Record, Queue, Setup}
use kazenai_core.SettleQueue.Bindings.{IsBound}
use kazenai_core.SettleQueue.Files.{read-quarantine}
use kazenai_core.SettleQueue.{quarantine, list_files, list_pending}
use kazenai_core.Settlement.{Outside, flush_items, flush_locked}
use kazenai_core.Settlement.Redelivery.{After, Pending, apart-sym, flush_items-After}

-- A directory whose files have different names.
abbrev pub IsDistinct : Dir File → Type 0
IsDistinct [] = Unit
IsDistinct ((name, file) ∷ d) =
    All (λ (entry : String × File). str_eq name entry.0 ≡ false) d × IsDistinct d

-- Files that stand in the pending directory, with a name and, for a record, a fingerprint.
unfoldable Stands : Dir File → Queue → Type 0
Stands [] q = Unit
Stands ((name, file) ∷ d) q =
    (read name q.pending ≡ some file)
    × ((r : Record)
        → file ≡ journaled r
        → (is_empty name ≡ false) × (is_empty r.fingerprint ≡ false))
    × Stands d q

-- The names of the records of a listing are names of its files.
list_files-All :
    (P : String → Type 0) (files : Dir File) (q : Queue)
    → All (λ (entry : String × File). P entry.0) files
    → All (λ (item : String × Record). P item.0) (list_files files q).1
unfolding list_files
list_files-All P [] q all = tt
list_files-All P ((name, journaled r) ∷ files) q (first, all) =
    (first, list_files-All P files q all)
list_files-All P ((name, unreadable) ∷ files) q (first, all) =
    list_files-All P files (quarantine q name "unreadable") all
list_files-All P ((name, malformed) ∷ files) q (first, all) =
    list_files-All P files (quarantine q name "malformed record") all

-- A listing leaves the files of other names as they are.
quarantine-apart :
    (q : Queue) (name reason other : String)
    → str_eq name other ≡ false
    → read other (quarantine q name reason).pending ≡ read other q.pending
quarantine-apart q name reason other apart = read-quarantine q name reason other ∙ rw apart refl

read-list_files :
    (name : String) (files : Dir File) (q : Queue)
    → All (λ (entry : String × File). str_eq name entry.0 ≡ false) files
    → read name (list_files files q).0.pending ≡ read name q.pending
unfolding list_files
read-list_files name [] q apart = refl
read-list_files name ((other, journaled r) ∷ files) q (first, apart) =
    read-list_files name files q apart
read-list_files name ((other, unreadable) ∷ files) q (first, apart) =
    read-list_files name files (quarantine q other "unreadable") apart
    ∙ quarantine-apart q other "unreadable" name (apart-sym name other first)
read-list_files name ((other, malformed) ∷ files) q (first, apart) =
    read-list_files name files (quarantine q other "malformed record") apart
    ∙ quarantine-apart q other "malformed record" name (apart-sym name other first)

Stands-quarantine :
    (name reason : String) (files : Dir File) (q : Queue)
    → All (λ (entry : String × File). str_eq name entry.0 ≡ false) files
    → Stands files q
    → Stands files (quarantine q name reason)
unfolding Stands
Stands-quarantine name reason [] q apart ok = tt
Stands-quarantine name reason ((other, file) ∷ files) q (first, apart) (there, texts, ok) = (
  quarantine-apart q name reason other first ∙ there,
  texts,
  Stands-quarantine name reason files q apart ok,
)

-- The records of a listing are in the journal that the listing leaves.
list_files-Pending :
    (files : Dir File) (q : Queue)
    → IsDistinct files
    → Stands files q
    → Pending (list_files files q).1 (list_files files q).0
unfolding list_files Stands Pending
list_files-Pending [] q distinct ok = tt
list_files-Pending ((name, journaled r) ∷ files) q (apart, distinct) (there, texts, ok) =
    let (named, print) = texts r refl in
    (
      read-list_files name files q apart ∙ there,
      named,
      print,
      list_files-All (λ other. str_eq name other ≡ false) files q apart,
      list_files-Pending files q distinct ok,
    )
list_files-Pending ((name, unreadable) ∷ files) q (apart, distinct) (there, texts, ok) =
    list_files-Pending files (quarantine q name "unreadable") distinct
      (Stands-quarantine name "unreadable" files q apart ok)
list_files-Pending ((name, malformed) ∷ files) q (apart, distinct) (there, texts, ok) =
    list_files-Pending files (quarantine q name "malformed record") distinct
      (Stands-quarantine name "malformed record" files q apart ok)

-- A record of the directory is one of the listing.
listed :
    (P : String × Record → Type 0) (name : String) (r : Record) (files : Dir File) (q : Queue)
    → read name files ≡ some (journaled r)
    → All P (list_files files q).1
    → P (name, r)
unfolding list_files read
listed P name r [] q e all = absurd (ground arith)
listed P name r ((other, journaled s) ∷ files) q e (first, all) =
    elim (Bool-cases (str_eq other name)) [
      | inl h ↦
          let same : s ≡ r = ground arith in
          subst P (ap (λ n. (n, s)) ((eq_iff other name).0 h) ∙ ap (λ k. (name, k)) same) first
      | inr h ↦ listed P name r files q (ground arith) all
    ]
listed P name r ((other, unreadable) ∷ files) q e all =
    listed P name r files (quarantine q other "unreadable") (ground arith) all
listed P name r ((other, malformed) ∷ files) q e all =
    listed P name r files (quarantine q other "malformed record") (ground arith) all

-- The name of a record is not empty where its fingerprint is not.
record_name-text : (fp : String) → is_empty fp ≡ false → is_empty (record_name fp) ≡ false
unfolding record_name take_chars is_empty
record_name-text String.[] e = e
record_name-text (String.◌∷◌ c s) e = refl

apart_of_read :
    (name other : String) (file : File) (files : Dir File)
    → All (λ (entry : String × File). str_eq name entry.0 ≡ false) files
    → read other files ≡ some file
    → str_eq name other ≡ false
unfolding read
apart_of_read name other file [] apart e = absurd (ground arith)
apart_of_read name other file ((n, f) ∷ files) (first, apart) e =
    elim (Bool-cases (str_eq n other)) [
      | inl h ↦ subst (λ k. str_eq name k ≡ false) ((eq_iff n other).0 h) first
      | inr h ↦ apart_of_read name other file files apart (ground arith)
    ]

Stands-bound :
    (setup : Setup) (q : Queue) (files : Dir File)
    → IsBound setup q
    → IsDistinct files
    → ((name : String) (file : File)
        → read name files ≡ some file
        → read name q.pending ≡ some file)
    → Stands files q
unfolding Stands read
Stands-bound setup q [] b distinct sub = tt
Stands-bound setup q ((name, file) ∷ files) b (apart, distinct) sub =
    let there : read name q.pending ≡ some file =
      sub name file (rw ((eq_iff name name).1 refl) refl) in
    (
      there,
      λ r e.
          let (named, print, claimed) = b name r (there ∙ ap some e) in
          (rw⁻¹ named (record_name-text r.fingerprint print), print),
      Stands-bound setup q files b distinct
          (λ other f e. sub other f (rw (apart_of_read name other f files apart e) e)),
    )

-- A flush of the whole journal, with the listing that begins it, loses no record of a journal whose
-- files have different names and whose records hold their claims: each record waits for its time as
-- it was, was acknowledged by the server and is gone, is kept with one more attempt, or is set
-- aside with a reason.
pub flush_locked-After :
    (setup : Setup) (out : Outside) (base : String) (q : Queue) (name : String) (r : Record)
    → IsBound setup q
    → IsDistinct q.pending
    → read name q.pending ≡ some (journaled r)
    → After out name r (flush_locked setup out base q).0
unfolding flush_locked list_pending
flush_locked-After setup out base q name r b distinct e =
    let ok =
      list_files-Pending q.pending q distinct
        (Stands-bound setup q q.pending b distinct (λ n f h. h)) in
    let all =
      flush_items-After setup out base (list_files q.pending q).1 (list_files q.pending q).0
        (record { applied = 0; failed = 0; rejected = 0 }) ok in
    listed
      (λ (item : String × Record).
        After out item.0 item.1
          (flush_items setup out base (list_files q.pending q).1
            ((list_files q.pending q).0, record { applied = 0; failed = 0; rejected = 0 })).0)
      name r q.pending q e all
