-- ===== src/Validation.antt =====
-- kazenai/validation/bounds.py: the bounds on a JSON value. The size of its text is an argument. What holds no
-- value has no depth to the code: an empty container counts as a scalar does.
use kazenai_core.Base.{
  ℕ, zero, suc, ◌+◌, ltb, Bool, true, false, if◌then◌else◌, max, Option, none, some,
}
use kazenai_core.Base.Results.{Result, ok, refused, ◌>>=◌, ◌>>◌, refuse_if}
pub mod Depth
mod Tests

-- A value that holds no other, or the values of a dict, a list or a tuple.
mutual
  pub data Json : Type 0 where
    scalar : Json
    container : Values → Json

  pub data Values : Type 0 where
    no_more : Values
    and_more : Json → Values → Values

-- `json_depth`, and the largest of several, from a value on.
unfoldable mutual
  pub json_depth : ℕ → ℕ → Json → ℕ
  json_depth limit depth scalar = depth
  json_depth limit depth (container no_more) = depth
  json_depth limit depth (container (and_more v vs)) =
      let first = json_depth limit (suc depth) v in
      let deepest = largest_depth limit (suc depth) first vs in
      if ltb limit depth then depth else deepest

  pub largest_depth : ℕ → ℕ → ℕ → Values → ℕ
  largest_depth limit depth found no_more = found
  largest_depth limit depth found (and_more v vs) =
      let here = json_depth limit depth v in largest_depth limit depth (max found here) vs

pub data BoundError : Type 0 where
  not_serializable too_large too_deep : BoundError

-- `json_size_bytes`: none where the value cannot be written as JSON.
abbrev pub or_unserializable : Option ℕ → Result BoundError ℕ
or_unserializable none = refused not_serializable
or_unserializable (some n) = ok n

-- `enforce_json_bounds`.
unfoldable pub enforce_json_bounds : (Json → Option ℕ) → ℕ → ℕ → Json → Result BoundError Json
enforce_json_bounds size max_bytes max_depth value = do
  n ← or_unserializable (size value)
  refuse_if (ltb max_bytes n) too_large
  refuse_if (ltb max_depth (json_depth max_depth 0 value)) too_deep
  ok value
