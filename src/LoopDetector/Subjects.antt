-- ===== src/LoopDetector/Subjects.antt =====
-- The histories of the customers of kazenai/loop_detector.py.
use kazenai_core.Base.{
  ℕ, suc, ◌≤◌, ◌≡◌, refl, inl, inr, ◌⊎◌, true, Option, none, some, List, [], ◌∷◌, ◌++◌, String,
  eq_iff, ltb, length, length-append, arith, Option-cases, if_cases,
}
use kazenai_core.Base.Dir.{Dir, read, write, delete, exists}
use kazenai_core.LoopDetector.{
  History, new_history, LoopDetector, Place, in_shared, under, pop_oldest, touch, place_of,
  history_for, write_history, score, score_history, read_history,
}

length-pop_oldest : (limit : ℕ) (entries : Dir History) → length (pop_oldest limit entries) ≤ limit
unfolding pop_oldest
length-pop_oldest limit [] = omega arith
length-pop_oldest limit (entry ∷ entries) = ground (arith, length-pop_oldest limit entries)

exists-last :
    (key : String) (h : History) (entries : Dir History)
    → exists key (entries ++ ((key, h) ∷ [])) ≡ true
unfolding read
exists-last key h [] = let same = (eq_iff key key).1 refl in ground arith
exists-last key h ((k, g) ∷ entries) = let rest = exists-last key h entries in ground arith

-- The newest entry is not popped, where there is room for one.
exists-pop_oldest :
    (limit : ℕ) (key : String) (h : History) (entries : Dir History)
    → 1 ≤ limit
    → exists key (pop_oldest limit (entries ++ ((key, h) ∷ []))) ≡ true
unfolding pop_oldest read
exists-pop_oldest limit key h [] room = let same = (eq_iff key key).1 refl in ground arith
exists-pop_oldest limit key h ((k, g) ∷ entries) room =
    if_cases (λ (d : Dir History). exists key d ≡ true)
      (ltb limit (length ((k, g) ∷ (entries ++ ((key, h) ∷ [])))))
      (λ _. exists-pop_oldest limit key h entries room) (λ _. exists-last key h ((k, g) ∷ entries))

length-write :
    (key : String) (h : History) (d : Dir History)
    → exists key d ≡ true
    → length (write key h d) ≡ length d
unfolding read write
length-write key h [] e = absurd (ground arith)
length-write key h ((k, g) ∷ d) e = ground (arith, length-write key h d)

length-delete-le : (key : String) (d : Dir History) → length (delete key d) ≤ length d
unfolding delete
length-delete-le key [] = omega arith
length-delete-le key ((k, g) ∷ d) = ground (arith, length-delete-le key d)

length-delete :
    (key : String) (d : Dir History) → exists key d ≡ true → suc (length (delete key d)) ≤ length d
unfolding read delete
length-delete key [] e = absurd (ground arith)
length-delete key ((k, g) ∷ d) e = ground (arith, length-delete key d, length-delete-le key d)

exists-touch : (key : String) (d : Dir History) → exists key (touch key d) ≡ true
unfolding touch
exists-touch key d = elim (Option-cases (read key d)) [
  | inl e ↦ rw (e, touch) (exists-last key new_history d)
  | inr (h, e) ↦ rw (e, touch) (exists-last key h (delete key d))
]

exists-pop-touch :
    (limit : ℕ) (key : String) (d : Dir History)
    → 1 ≤ limit
    → exists key (pop_oldest limit (touch key d)) ≡ true
unfolding touch
exists-pop-touch limit key d room = elim (Option-cases (read key d)) [
  | inl e ↦ rw (e, touch) (exists-pop_oldest limit key new_history d room)
  | inr (h, e) ↦ rw (e, touch) (exists-pop_oldest limit key h (delete key d) room)
]

length-touch :
    (key : String) (d : Dir History) → exists key d ≡ true → length (touch key d) ≤ length d
unfolding touch
length-touch key d there = elim (Option-cases (read key d)) [
  | inl e ↦ absurd (ground arith)
  | inr (h, e) ↦
      rw (e, touch)
        (let shorter = length-delete key d there in
          let longer = length-append (delete key d) ((key, h) ∷ []) in omega arith)
]

-- After `_history_for` a customer's history is there, and there are no more than the limit.
abbrev Present : String → ℕ → Dir History → Type 0
Present key limit d = (exists key d ≡ true) × (length d ≤ limit)

history_for-Present :
    (key : String) (d : LoopDetector)
    → 1 ≤ d.max_subjects
    → length d.subjects ≤ d.max_subjects
    → Present key d.max_subjects (history_for (under key) d).subjects
unfolding history_for
history_for-Present key d room small =
    if_cases (Present key d.max_subjects) (exists key d.subjects)
      (λ e. let less = length-touch key d.subjects e in (exists-touch key d.subjects, omega arith))
      (λ e. (
        exists-pop-touch d.max_subjects key d.subjects room,
        length-pop_oldest d.max_subjects (touch key d.subjects),
      ))

score-under :
    (key : String) (h : History) (d : LoopDetector)
    → 1 ≤ d.max_subjects
    → length d.subjects ≤ d.max_subjects
    → length (write_history (under key) h (history_for (under key) d)).subjects ≤ d.max_subjects
unfolding write_history
score-under key h d room small =
    let (there, fits) = history_for-Present key d room small in
    let same = length-write key h (history_for (under key) d).subjects there in omega arith

score-at :
    (place : Place) (h : History) (d : LoopDetector)
    → (place ≡ in_shared) ⊎ (1 ≤ d.max_subjects)
    → length d.subjects ≤ d.max_subjects
    → length (write_history place h (history_for place d)).subjects ≤ d.max_subjects
unfolding history_for write_history
score-at in_shared h d room small = small
score-at (under key) h d room small = score-under key h d (ground arith) small

place-room :
    (d : LoopDetector) (subject : Option String)
    → (place_of d subject ≡ in_shared) ⊎ (1 ≤ d.max_subjects)
place-room d none = inl refl
place-room d (some subject) = ground arith

-- A detector never keeps the histories of more customers than its limit.
pub score-bounded :
    (d : LoopDetector) (tokens : List String) (fp subject : Option String)
    → length d.subjects ≤ d.max_subjects
    → length (score d tokens fp subject).0.subjects ≤ d.max_subjects
unfolding score
score-bounded d tokens fp subject small =
    score-at (place_of d subject)
      (score_history d tokens fp
        (read_history (place_of d subject) (history_for (place_of d subject) d))).0
      d (place-room d subject) small
