-- ===== src/Lifecycle/Deployment.antt =====
-- kazenai/deployment.py: the deployment mode of an environment.
use kazenai_core.Base.{
  ℕ, ltb, ◌==◌, Bool, true, false, not, ◌&&◌, List, [], ◌∷◌, any, Option, none, some, if◌then◌else◌,
}
use kazenai_core.Lifecycle.{
  Var, deployment_mode, kazenai_env, finops_env, agentlens_env, Env, norm, is_set, is_in, is_word,
  Mode, development, test, staging, production, ModeConflict, not_a_mode, disagree,
}
use kazenai_core.Base.Results.{Result, ok, refused, ◌>>=◌}

abbrev pub mode_vars : List Var
mode_vars = deployment_mode ∷ kazenai_env ∷ finops_env ∷ agentlens_env ∷ []

-- `_MODE_ALIASES.get`.
unfoldable pub mode_of : List ℕ → Option Mode
mode_of raw =
    if is_in ("development" ∷ "dev" ∷ "local" ∷ []) raw
    then some development
    else if is_in ("test" ∷ "testing" ∷ "ci" ∷ []) raw
    then some test
    else if is_in ("staging" ∷ "stage" ∷ []) raw
    then some staging
    else if is_in ("production" ∷ "prod" ∷ "saas" ∷ []) raw
    then some production
    else none

abbrev pub restrictiveness : Mode → ℕ
restrictiveness development = 0
restrictiveness test = 1
restrictiveness staging = 2
restrictiveness production = 3

-- `mode in PRODUCTION_LIKE_MODES`.
abbrev pub is_production_like : Mode → Bool
is_production_like staging = true
is_production_like production = true
is_production_like _ = false

-- `deployment_mode_signals`, of the variables of a list.
unfoldable pub signals : Env → List Var → List (Var × List ℕ)
signals env [] = []
signals env (v ∷ vs) =
    let rest = signals env vs in if is_set (norm (env v)) then (v, norm (env v)) ∷ rest else rest

-- The mode of one value. An unknown value raises under `strict`, and otherwise fails safe.
abbrev pub canonical_mode : Bool → Var → List ℕ → Option Mode → Result ModeConflict Mode
canonical_mode strict v raw (some mode) = ok mode
canonical_mode true v raw none = refused (not_a_mode v raw)
canonical_mode false v raw none = ok production

unfoldable pub canonical : Bool → List (Var × List ℕ) → Result ModeConflict (List (Var × Mode))
canonical strict [] = ok []
canonical strict ((v, raw) ∷ rest) =
    let later = canonical strict rest in
    do mode ← canonical_mode strict v raw (mode_of raw); modes ← later; ok ((v, mode) ∷ modes)

abbrev pub is_mode : Mode → Mode → Bool
is_mode a b = restrictiveness a == restrictiveness b

-- `max(distinct, key=…)`, from a first mode on.
unfoldable pub most_restrictive : Mode → List (Var × Mode) → Mode
most_restrictive mode [] = mode
most_restrictive mode (signal ∷ rest) =
    most_restrictive
      (if ltb (restrictiveness mode) (restrictiveness signal.1) then signal.1 else mode) rest

-- The mode of what the variables name.
unfoldable pub agree_on : Bool → List (Var × Mode) → Result ModeConflict Mode
agree_on strict [] = ok development
agree_on strict (signal ∷ rest) =
    if any (λ other. not (is_mode signal.1 other.1)) rest && strict
    then refused (disagree (signal ∷ rest))
    else ok (most_restrictive signal.1 rest)

-- `resolve_deployment_mode`, over the values that are set.
unfoldable pub resolve_signals : Bool → List (Var × List ℕ) → Result ModeConflict Mode
resolve_signals strict values = do modes ← canonical strict values; agree_on strict modes

unfoldable pub resolve_deployment_mode : Bool → Env → Result ModeConflict Mode
resolve_deployment_mode strict env = resolve_signals strict (signals env mode_vars)

-- `is_dev_env`.
unfoldable pub is_dev_env : Env → Bool
is_dev_env env = is_word "dev" (norm (env kazenai_env))
