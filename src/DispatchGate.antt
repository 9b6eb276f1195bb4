-- ===== src/DispatchGate.antt =====
-- kazenai/_dispatch_gate.py: the gate that every request of a monitored client passes, by its
-- method and path. A capability is a number; the gates whose wrappers are dispatching are a list.
pub mod Paths
pub mod Passing
mod Tests
use kazenai_core.Base.{
  ℕ, suc, Bool, true, false, not, ◌&&◌, ◌||◌, Option, none, some, List, [], ◌∷◌, String,
  if◌then◌else◌, str_eq, any, ◌==◌,
}
use kazenai_core.Base.Text.{is_empty, concat, rstrip_slash, or_text, lower_codes, codes_eq}
use Paths.{cut_at, starts_with, drop_prefix, split_slash, has_char}

-- `_normalize_path`.
unfoldable pub normalize_path : String → String
normalize_path path =
    let text = cut_at b'#' (cut_at b'?' path) in
    or_text (rstrip_slash (if starts_with "/" text then text else concat "/" text)) "/"

-- `all(w == "*" or w == h for h, w in zip(have, want))`, with the test of the lengths.
unfoldable pub segments_match : List String → List String → Bool
segments_match [] [] = true
segments_match [] (w ∷ want) = false
segments_match (h ∷ have) [] = false
segments_match (h ∷ have) (w ∷ want) = (str_eq w "*" || str_eq w h) && segments_match have want

-- `_matches(path, pattern)`.
unfoldable pub matches : String → String → Bool
unfolding segments_match normalize_path
matches path pattern =
    let want = normalize_path pattern in
    if not (has_char b'*' want)
    then str_eq path want
    else segments_match (split_slash path) (split_slash want)

-- `path == prefix or path.startswith(prefix + "/")`.
unfoldable pub is_under : String → String → Bool
is_under path prefix = str_eq path prefix || starts_with (concat prefix "/") path

-- `_prefix_match(path, prefix)`.
unfoldable pub prefix_match : String → String → Bool
unfolding is_under normalize_path
prefix_match path prefix = is_under path (normalize_path prefix)

-- `_SAFE_METHODS`, of a method in any case.
unfoldable pub is_safe_method : String → Bool
is_safe_method method =
    let codes = lower_codes method in
    codes_eq codes (lower_codes "get")
    || codes_eq codes (lower_codes "head")
    || codes_eq codes (lower_codes "options")
    || codes_eq codes (lower_codes "delete")

-- `_FREE_POSTS`.
abbrev pub free_posts : List String
free_posts =
    "/files" ∷ "/uploads" ∷ "/uploads/*/parts" ∷ "/uploads/*/complete" ∷ "/uploads/*/cancel"
    ∷ "/moderations" ∷ "/responses/input_tokens" ∷ "/responses/*/cancel" ∷ "/batches/*/cancel"
    ∷ "/fine_tuning/jobs/*/cancel" ∷ "/messages/count_tokens" ∷ "/files"
    ∷ "/messages/batches/*/cancel" ∷ []

pub record DispatchGate : Type 0 where
  pub capability : ℕ
  pub base_path : String
  pub allow_unmetered : List String

-- `DispatchGate(base_path=…, allow_unmetered=…)` with a fresh capability.
abbrev pub new_gate : ℕ → String → List String → DispatchGate
new_gate capability base_path allow_unmetered = record {
  capability = capability;
  base_path = normalize_path base_path;
  allow_unmetered = allow_unmetered;
}

-- `endpoint(url_path)`.
pub endpoint : DispatchGate → String → String
unfolding is_under normalize_path
endpoint gate url_path =
    let path = normalize_path url_path in
    let inner =
      if not (str_eq gate.base_path "/") && is_under path gate.base_path
      then normalize_path (drop_prefix gate.base_path path)
      else path in
    if is_under inner "/v1" then normalize_path (drop_prefix "/v1" inner) else inner

abbrev pub is_authorized : DispatchGate → List ℕ → Bool
is_authorized gate authorized = any (λ c. c == gate.capability) authorized

-- `authorized()`: the block runs with the capability, and the token restores what was there.
abbrev pub authorize : DispatchGate → List ℕ → List ℕ
authorize gate authorized = gate.capability ∷ authorized

-- `check(method, url_path)`: true where it returns, false where it raises UnsupportedModeError.
pub check : DispatchGate → List ℕ → String → String → Bool
unfolding is_safe_method endpoint matches prefix_match
check gate authorized method url_path =
    if is_authorized gate authorized
    then true
    else if is_safe_method method
    then true
    else if any (matches (endpoint gate url_path)) free_posts
    then true
    else any (prefix_match (endpoint gate url_path)) gate.allow_unmetered
