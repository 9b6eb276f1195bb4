-- ===== src/Pricing/Usage.antt =====
-- `usage_components` and `reported_service_tier` of kazenai/request_pricing.py: the kinds of tokens
-- that a provider's usage report names.
use kazenai_core.Base.{
  zero, Bool, true, false, not, ◌&&◌, ◌||◌, String, str_eq, List, [], ◌∷◌, Option, none, some,
  if◌then◌else◌,
}
use kazenai_core.Base.Text.{is_empty}
use kazenai_core.Base.Amount.{ℤ, pos, ◌-ℤ◌, ltb_ℤ, floor_zero}
use kazenai_core.Pricing.Rates.{Tokens}

-- A Python value in a usage report: None, a number, text that `int` refuses, a Mapping, or an object
-- with attributes.
mutual
  pub data Node : Type 0 where
    null : Node
    number : ℤ → Node
    text : String → Node
    mapping : Fields → Node
    attributes : Fields → Node

  pub data Fields : Type 0 where
    no_fields : Fields
    field : String → Node → Fields → Fields

unfoldable pub get : String → Fields → Node
get name no_fields = null
get name (field n v rest) = if str_eq name n then v else get name rest

unfoldable pub has_key : String → Fields → Bool
has_key name no_fields = false
has_key name (field n v rest) = str_eq name n || has_key name rest

-- `usage.get(name)` on a Mapping, `getattr(usage, name, None)` on anything else.
unfoldable pub read : Node → String → Node
unfolding get
read (mapping fields) name = get name fields
read (attributes fields) name = get name fields
read _ name = null

abbrev pub is_none : Node → Bool
is_none null = true
is_none _ = false

abbrev pub int_of : Node → ℤ
int_of (number n) = n
int_of _ = pos 0

unfoldable pub usage_field : Node → List String → ℤ
usage_field usage [] = pos 0
usage_field usage (name ∷ names) =
    if is_none (read usage name) then usage_field usage names else int_of (read usage name)

-- `_nested`.
unfoldable pub nested : Node → List String → ℤ
unfolding read
nested current [] = int_of current
nested null (part ∷ path) = pos 0
nested current (part ∷ path) = nested (read current part) path

abbrev pub is_zero : ℤ → Bool
is_zero (pos zero) = true
is_zero _ = false

abbrev first_nonzero : ℤ → ℤ → ℤ
first_nonzero a b = if is_zero a then b else a

-- `name in usage` on a Mapping, `getattr(usage, name, None) is not None` on an object.
abbrev names : Node → String → Bool
names (mapping fields) name = has_key name fields
names usage name = not (is_none (read usage name))

-- The figures that `usage_components` reads off the report.
pub record Figures : Type 0 where
  pub prompt : ℤ
  pub output : ℤ
  pub cached : ℤ
  pub audio : ℤ
  pub write_5m : ℤ
  pub write_1h : ℤ
  pub cache_read : ℤ
  pub creation : ℤ
  pub has_prompt : Bool
  pub normalized : Bool

abbrev pub min_ℤ : ℤ → ℤ → ℤ
min_ℤ a b = if ltb_ℤ b a then b else a

abbrev write_details : List String
write_details = "prompt_tokens_details" ∷ "cache_creation_token_details" ∷ []

-- The two cache-write figures, from the provider's split, else LiteLLM's, else the plain total.
unfoldable pub cache_writes : Node → ℤ → ℤ × ℤ
unfolding nested
cache_writes usage creation =
    let own_5m = nested usage ("cache_creation" ∷ "ephemeral_5m_input_tokens" ∷ []) in
    let own_1h = nested usage ("cache_creation" ∷ "ephemeral_1h_input_tokens" ∷ []) in
    let no_own = is_zero own_5m && is_zero own_1h in
    let write_5m =
      if no_own
      then nested usage (
          "prompt_tokens_details" ∷ "cache_creation_token_details" ∷ "ephemeral_5m_input_tokens"
          ∷ [])
      else own_5m in
    let write_1h =
      if no_own
      then nested usage (
          "prompt_tokens_details" ∷ "cache_creation_token_details" ∷ "ephemeral_1h_input_tokens"
          ∷ [])
      else own_1h in
    if is_zero write_5m && is_zero write_1h && not (is_zero creation)
    then (creation, write_1h)
    else (write_5m, write_1h)

unfoldable pub figures : Node → Figures
unfolding usage_field nested cache_writes
figures usage =
    let cache_read = usage_field usage ("cache_read_input_tokens" ∷ []) in
    let creation = usage_field usage ("cache_creation_input_tokens" ∷ []) in
    record {
      prompt = usage_field usage ("prompt_tokens" ∷ "input_tokens" ∷ []);
      output = usage_field usage ("completion_tokens" ∷ "output_tokens" ∷ []);
      cached =
          first_nonzero (nested usage ("prompt_tokens_details" ∷ "cached_tokens" ∷ [])) (
            first_nonzero (nested usage ("input_tokens_details" ∷ "cached_tokens" ∷ []))
              cache_read);
      audio =
          first_nonzero (nested usage ("prompt_tokens_details" ∷ "audio_tokens" ∷ []))
            (nested usage ("input_tokens_details" ∷ "audio_tokens" ∷ []));
      write_5m = (cache_writes usage creation).0;
      write_1h = (cache_writes usage creation).1;
      cache_read = cache_read;
      creation = creation;
      has_prompt =
          names usage "prompt_tokens"
          || names usage "input_tokens_details"
          || names usage "prompt_tokens_details";
      normalized = names usage "prompt_tokens";
    }

-- The uncached and the cached part, before the writes are taken off.
unfoldable pub uncached_of : Figures → ℤ
uncached_of f =
    if f.has_prompt && not (is_zero f.cached) then floor_zero (f.prompt -ℤ f.cached) else f.prompt

unfoldable pub cached_of : Figures → ℤ
cached_of f =
    if f.has_prompt && not (is_zero f.cached)
    then f.cached
    else if not (is_zero f.cache_read)
        || not (is_zero f.creation)
        || not (is_zero f.write_5m)
        || not (is_zero f.write_1h)
    then f.cached
    else pos 0

unfoldable pub billed_of : Figures → ℤ
billed_of f =
    if f.normalized then floor_zero (uncached_of f -ℤ f.write_5m -ℤ f.write_1h) else uncached_of f

unfoldable pub audio_of : Figures → ℤ
audio_of f = min_ℤ (floor_zero f.audio) (billed_of f)

unfoldable pub components_of : Figures → Tokens
components_of f = record {
  input_tokens = billed_of f -ℤ audio_of f;
  cached_input_tokens = cached_of f;
  cache_write_5m_tokens = f.write_5m;
  cache_write_1h_tokens = f.write_1h;
  output_tokens = f.output;
  image_tokens = pos 0;
  tool_calls = pos 0;
  audio_input_tokens = audio_of f;
  audio_cached_input_tokens = pos 0;
}

unfoldable pub usage_components : Node → Tokens
usage_components usage = components_of (figures usage)

-- Whether Python counts a value as true.
abbrev is_true : Node → Bool
is_true null = false
is_true (number n) = not (is_zero n)
is_true (text t) = not (is_empty t)
is_true (mapping no_fields) = false
is_true (mapping (field _ _ _)) = true
is_true (attributes _) = true

-- `reported_service_tier(usage)`, where `str_of` is Python's `str`.
unfoldable pub reported_service_tier : (Node → String) → Node → Option String
unfolding read
reported_service_tier str_of usage =
    if is_true (read usage "service_tier") then some (str_of (read usage "service_tier")) else none
