-- ===== src/LoopDetector/Window.antt =====
-- The window of tool fingerprints of kazenai/loop_detector.py.
use kazenai_core.Base.{
  ℕ, ◌≤◌, ◌≡◌, List, [], ◌∷◌, String, str_eq, length, count, count-append, length-append, arith,
}
use kazenai_core.LoopDetector.{History, push_bounded, push_count, push_tool}

-- The counts are those of the window.
pub record IsCounted (size : ℕ) (h : History) : Type 0 where
  pub counts : (fp : String) → h.tool_counts fp ≡ count (λ k. str_eq k fp) h.tool_fps
  pub bounded : length h.tool_fps ≤ size

count-push :
    (size : ℕ) (fp other : String) (fps : List String) (counts : String → ℕ)
    → 1 ≤ size
    → length fps ≤ size
    → ((k : String) → counts k ≡ count (λ x. str_eq x k) fps)
    → push_count size fp fps counts other ≡ count (λ x. str_eq x other) (push_bounded size fps fp)
unfolding push_count push_bounded
count-push size fp other [] counts some_room small same = let now = same other in ground arith
count-push size fp other (old ∷ fps) counts some_room small same =
    let now = same other in
    let long = count-append (λ x. str_eq x other) (old ∷ fps) (fp ∷ []) in
    let short = count-append (λ x. str_eq x other) fps (fp ∷ []) in ground arith

length-push :
    (size : ℕ) (fp : String) (fps : List String)
    → 1 ≤ size
    → length fps ≤ size
    → length (push_bounded size fps fp) ≤ size
unfolding push_bounded
length-push size fp [] some_room small = ground arith
length-push size fp (old ∷ fps) some_room small =
    let long = length-append (old ∷ fps) (fp ∷ []) in
    let short = length-append fps (fp ∷ []) in ground arith

-- In a window of at least one fingerprint, the counts stay those of the fingerprints in the window,
-- and the window stays within its size.
pub push_tool-IsCounted :
    (size : ℕ) (fp : String) (h : History)
    → 1 ≤ size
    → IsCounted size h
    → IsCounted size (push_tool size fp h)
unfolding push_tool push_bounded
push_tool-IsCounted size fp h some_room ok = record {
  counts =
      λ other. count-push size fp other h.tool_fps h.tool_counts some_room ok.bounded ok.counts;
  bounded = length-push size fp h.tool_fps some_room ok.bounded;
}
