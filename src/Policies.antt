-- ===== src/Policies.antt =====
-- Three small policies: kazenai/pricing_policy.py (models without a price),
-- kazenai/circuit_breaker.py (the pause before a budget is spent) and kazenai/provider_errors.py
-- (refusals that cost nothing).
pub mod Prices
pub mod Breaker
pub mod Refusals
mod Tests
