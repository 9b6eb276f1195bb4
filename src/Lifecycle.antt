-- ===== src/Lifecycle.antt =====
-- The environment that kazenai/deployment.py and kazenai/lifecycle_config.py read, and what they raise. A
-- variable that is not set reads as an empty text, as `env.get(key) or ""` does. A value is the list
-- of its code points, stripped and in lower case; capital letters are those of ASCII.
use kazenai_core.Base.{◌≡◌, refl, ap, ℕ, Bool, true, false, String, List, [], ◌∷◌, any}
use kazenai_core.Base.Text.{strip, lower_codes, codes, codes_eq}
pub mod Deployment
pub mod Modes
pub mod Strict
pub mod Config
pub mod Branches
pub mod Resolve
pub mod Policy
pub mod Precedence
pub mod Opening
pub mod Runtime
pub mod Starting
pub mod Server
pub mod Served
mod Tests

pub data Var : Type 0 where
  deployment_mode kazenai_env finops_env agentlens_env : Var
  finops_control_profile control_profile kazenai_profile strict_budget allow_ambiguous : Var
  finops_url finops_ingest_url : Var
  enforcement_mode finops_enforcement_mode reservation_mode default_org_id : Var

abbrev pub Env : Type 0
Env = Var → String

-- `(value or "").strip().lower()`.
unfoldable pub norm : String → List ℕ
norm value = lower_codes (strip value)

abbrev pub is_set : List ℕ → Bool
is_set [] = false
is_set (c ∷ cs) = true

unfoldable pub is_word : String → List ℕ → Bool
is_word word raw = codes_eq raw (codes word)

-- `raw in {…}`.
unfoldable pub is_in : List String → List ℕ → Bool
is_in words raw = any (λ word. is_word word raw) words

pub data Mode : Type 0 where
  development test staging production : Mode

-- A variable whose value is not a mode, or the modes that the variables name.
pub data ModeConflict : Type 0 where
  not_a_mode : Var → List ℕ → ModeConflict
  disagree : List (Var × Mode) → ModeConflict

pub data LifecycleError : Type 0 where
  deployment_mode_conflict : ModeConflict → LifecycleError
  invalid_profile_value invalid_strict_value invalid_owner : List ℕ → LifecycleError
  profile_conflict failure_policy_conflict : LifecycleError
