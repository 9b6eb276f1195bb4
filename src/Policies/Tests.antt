-- ===== src/Policies/Tests.antt =====
-- Runs of kazenai/pricing_policy.py and kazenai/circuit_breaker.py.
use kazenai_core.Base.{ℕ, ◌≡◌, refl, some, List, [], ◌∷◌}
use kazenai_core.Base.Text.{strip, lower_codes, codes_eq}
use kazenai_core.Policies.Prices.{Aliases, alias_of, resolve_model_key}

abbrev keys : List (List ℕ)
keys = (b'm' ∷ b'1' ∷ []) ∷ []

abbrev aliases : Aliases
aliases = (b'm' ∷ b'x' ∷ [], b'm' ∷ b'1' ∷ []) ∷ []

resolved : resolve_model_key " MX" keys aliases ≡ some (b'm' ∷ b'1' ∷ [])
unfolding resolve_model_key lower_codes strip codes_eq alias_of
resolved = refl
