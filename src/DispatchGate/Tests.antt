-- ===== src/DispatchGate/Tests.antt =====
-- Runs of kazenai/_dispatch_gate.py.
use kazenai_core.Base.{◌≡◌, ◌↔◌, ◌⊎◌, refl, true, String}
use kazenai_core.Base.Text.{concat, rstrip_slash, or_text, is_empty, take_chars}
use kazenai_core.DispatchGate.Paths.{split_slash, has_char, cut_at, starts_with, chars}
use kazenai_core.DispatchGate.Passing.{Fits, prefix_match_iff, matches-Fits}
use kazenai_core.DispatchGate.{normalize_path, matches, prefix_match}

prefix_match_iff_example : (prefix_match "/filesystem" "/files" ≡ true) ↔ (
    (◌≡◌ {A = String} "/filesystem" (normalize_path "/files"))
    ⊎ ((rest : String) × (◌≡◌ {A = String} "/filesystem"
          (concat (normalize_path "/files") (concat "/" rest)))))
prefix_match_iff_example = prefix_match_iff "/filesystem" "/files"

starred : has_char b'*' (normalize_path "/batches/*/cancel") ≡ true
unfolding normalize_path has_char cut_at starts_with chars rstrip_slash or_text is_empty concat
    take_chars
starred = refl

matches-Fits_example :
    (matches "/batches/b7/cancel" "/batches/*/cancel" ≡ true)
    ↔ Fits (split_slash "/batches/b7/cancel") (split_slash (normalize_path "/batches/*/cancel"))
matches-Fits_example = matches-Fits "/batches/b7/cancel" "/batches/*/cancel" starred
