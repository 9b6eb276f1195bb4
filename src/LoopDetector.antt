-- ===== src/LoopDetector.antt =====
-- kazenai/loop_detector.py: the histories of a detector, kept per customer. Tokens and fingerprints
-- of a request are arguments; a similarity is the pair of an intersection's and a union's size.
pub mod Window
pub mod Subjects
mod Tests
use kazenai_core.Base.{
  ℕ, zero, suc, ◌+◌, ◌-◌, ◌*◌, Bool, true, false, not, ◌&&◌, ◌||◌, Option, none, some, List, [],
  ◌∷◌, ◌++◌, String, if◌then◌else◌, str_eq, any, ◌==◌, leb, ltb, length, count, keep, max,
}
use kazenai_core.Base.Text.{is_empty, strip}
use kazenai_core.Base.Dir.{Dir, read, write, delete, exists}

-- `_History`: deques of inputs and tool fingerprints, the oldest first, and the counts of the
-- second.
pub record History : Type 0 where
  pub inputs : List (List String)
  pub tool_fps : List String
  pub tool_counts : String → ℕ

abbrev pub new_history : History
new_history = record { inputs = []; tool_fps = []; tool_counts = λ fp. 0 }

-- `deque.append` with a `maxlen`.
unfoldable pub push_bounded {ℓ} : {A : Type ℓ} → ℕ → List A → A → List A
push_bounded maxlen [] x = if maxlen == 0 then [] else x ∷ []
push_bounded maxlen (y ∷ ys) x =
    if maxlen == 0
    then []
    else if leb maxlen (length (y ∷ ys))
    then ys ++ (x ∷ [])
    else (y ∷ ys) ++ (x ∷ [])

-- `_jaccard` of two sets, as sizes of the intersection and of the union.
unfoldable pub jaccard : List String → List String → ℕ × ℕ
jaccard [] [] = (1, 1)
jaccard [] (y ∷ ys) = (0, 1)
jaccard (x ∷ xs) [] = (0, 1)
jaccard (x ∷ xs) (y ∷ ys) =
    let inter = count (λ t. any (str_eq t) (y ∷ ys)) (x ∷ xs) in
    (inter, length (x ∷ xs) + length (y ∷ ys) - inter)

-- Whether a similarity is over another.
unfoldable pub is_more : ℕ × ℕ → ℕ × ℕ → Bool
is_more (a, b) (c, d) = ltb (c * b) (a * d)

-- The loop over the earlier inputs, which stops at a similarity of 0.999.
unfoldable pub closest : List String → List (List String) → ℕ × ℕ → ℕ × ℕ
unfolding jaccard is_more
closest tokens [] best = best
closest tokens (prev ∷ inputs) best =
    let sim = jaccard tokens prev in
    let rest = closest tokens inputs sim in
    let skipped = closest tokens inputs best in
    if is_more sim best then (if leb (999 * sim.1) (1000 * sim.0) then sim else rest) else skipped

abbrev pub bump : (ℕ → ℕ) → String → (String → ℕ) → String → ℕ
bump change fp counts other = if str_eq fp other then change (counts other) else counts other

-- The counts when a fingerprint enters: the oldest leaves a full window first. A count of 0 is an
-- absent key.
unfoldable pub push_count : ℕ → String → List String → (String → ℕ) → String → ℕ
push_count tool_history fp [] counts = bump (λ n. n + 1) fp counts
push_count tool_history fp (old ∷ fps) counts =
    bump (λ n. n + 1) fp
      (if length (old ∷ fps) == tool_history then bump (λ n. n - 1) old counts else counts)

pub push_tool : ℕ → String → History → History
unfolding push_count push_bounded
push_tool tool_history fp h = record h {
  tool_fps = push_bounded tool_history h.tool_fps fp;
  tool_counts = push_count tool_history fp h.tool_fps h.tool_counts;
}

-- `LoopScores`: the similarity, and how often the tools' fingerprint stands in the window, none
-- when no tools are named.
pub record LoopScores : Type 0 where
  pub h1_jaccard : ℕ × ℕ
  pub tool_count : Option ℕ

-- `LoopDetector(max_history=…, tool_history=…, h1_threshold=…, max_subjects=…)`: the histories of
-- the customers are in the order of their last use, the oldest first.
pub record LoopDetector : Type 0 where
  pub max_history : ℕ
  pub tool_history : ℕ
  pub h1_threshold : ℕ × ℕ
  pub max_subjects : ℕ
  pub shared : History
  pub subjects : Dir History

-- Where a history is kept: with the calls that name no customer, or under a customer's key.
pub data Place : Type 0 where
  in_shared : Place
  under : String → Place

-- `popitem(last=False)` until no more than the limit are left.
unfoldable pub pop_oldest : ℕ → Dir History → Dir History
pop_oldest limit [] = []
pop_oldest limit (entry ∷ entries) =
    let rest = pop_oldest limit entries in
    if ltb limit (length (entry ∷ entries)) then rest else entry ∷ entries

-- `move_to_end`, or a new entry at the end.
unfoldable pub touch : String → Dir History → Dir History
touch key entries = elim (read key entries) [
  | none ↦ entries ++ ((key, new_history) ∷ [])
  | some h ↦ delete key entries ++ ((key, h) ∷ [])
]

-- `subject.strip()`, none for no key.
abbrev pub place_of : LoopDetector → Option String → Place
place_of d none = in_shared
place_of d (some subject) =
    if is_empty (strip subject) || d.max_subjects == 0 then in_shared else under (strip subject)

-- The histories after `_history_for`: a history that is new is the last to be dropped.
unfoldable pub history_for : Place → LoopDetector → LoopDetector
unfolding pop_oldest touch
history_for in_shared d = d
history_for (under key) d = record d {
  subjects =
      if exists key d.subjects
      then touch key d.subjects
      else pop_oldest d.max_subjects (touch key d.subjects);
}

unfoldable pub read_history : Place → LoopDetector → History
read_history in_shared d = d.shared
read_history (under key) d = elim (read key d.subjects) [ none ↦ new_history | some h ↦ h ]

unfoldable pub write_history : Place → History → LoopDetector → LoopDetector
write_history in_shared h d = record d { shared = h }
write_history (under key) h d = record d { subjects = write key h d.subjects }

-- The part of `score` on the history: its scores, and what it remembers.
pub score_history : LoopDetector → List String → Option String → History → History × LoopScores
unfolding closest push_tool push_bounded
score_history d tokens none h = (
  record h { inputs = push_bounded d.max_history h.inputs tokens },
  record { h1_jaccard = closest tokens h.inputs (0, 1); tool_count = none },
)
score_history d tokens (some fp) h =
    let after =
      push_tool d.tool_history fp
        (record h { inputs = push_bounded d.max_history h.inputs tokens }) in
    (
      after,
      record {
        h1_jaccard = closest tokens h.inputs (0, 1);
        tool_count = some (after.tool_counts fp);
      },
    )

-- `score(input_text=…, tool_names=…, subject=…)`.
pub score : LoopDetector → List String → Option String → Option String → LoopDetector × LoopScores
unfolding history_for read_history write_history
score d tokens fp subject =
    let place = place_of d subject in
    let found = history_for place d in
    let (h, scores) = score_history d tokens fp (read_history place found) in
    (write_history place h found, scores)

-- `is_loop`: a similarity over the threshold, or a fingerprint that stands three times in the
-- window.
pub is_loop : LoopDetector → LoopScores → Bool
unfolding is_more
is_loop d s =
    is_more s.h1_jaccard d.h1_threshold || elim s.tool_count [ none ↦ false | some n ↦ leb 3 n ]
