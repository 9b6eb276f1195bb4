-- ===== src/Validation/Tests.antt =====
-- Runs of kazenai/validation/bounds.py under a depth of 2.
use kazenai_core.Base.{◌≡◌, ◌↔◌, ◌≤◌, refl, ℕ, Option, some}
use kazenai_core.Base.Results.{ok, refused}
use kazenai_core.Validation.{
  Json, scalar, container, no_more, and_more, json_depth, largest_depth, too_deep,
  enforce_json_bounds,
}
use kazenai_core.Validation.Depth.{height, enforce_json_bounds-height}

-- `[1, [2]]`
abbrev nested : Json
nested = container (and_more scalar (and_more (container (and_more scalar no_more)) no_more))

abbrev size : Json → Option ℕ
size value = some 8

accepted : enforce_json_bounds size 100 2 nested ≡ ok nested
unfolding enforce_json_bounds json_depth largest_depth
accepted = refl

deeper : enforce_json_bounds size 100 2 (container (and_more nested no_more)) ≡ refused too_deep
unfolding enforce_json_bounds json_depth largest_depth
deeper = refl

enforce_json_bounds-height_example :
    (enforce_json_bounds size 100 2 nested ≡ ok nested)
    ↔ ((nested ≡ nested) × ((n : ℕ) × (some 8 ≡ some n) × (n ≤ 100)) × (height nested ≤ 2))
enforce_json_bounds-height_example = enforce_json_bounds-height size 100 2 nested nested
