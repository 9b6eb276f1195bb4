-- ===== src/Pricing.antt =====
-- What a provider call costs, kazenai/price_catalog.py, kazenai/request_pricing.py and
-- kazenai/cost_engine.py: exact decimals and their rounding, rate cards, the reserved bound of a
-- call, the tokens that a usage report names, and the amount that is settled for them.
pub mod Decimals
pub mod Rounding
pub mod Rates
pub mod Cost
pub mod Usage
pub mod Components
pub mod Catalog
pub mod Schedule
pub mod Rows
pub mod Decision
pub mod Tiers
pub mod Settling
pub mod Bound
pub mod Holds
pub mod Exposure
pub mod Request
pub mod Prepare
pub mod Guards
pub mod Priced
mod Tests
mod CallTests
