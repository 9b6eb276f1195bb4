-- ===== src/Streaming.antt =====
-- kazenai/streaming/lifecycle.py: the usage that a provider reports over a stream, and the one end
-- of an attempt (`StreamAttempt.finalize` and its async twin). The callbacks are arguments; amounts
-- of money are exact integers of one unit.
pub mod Usage
pub mod Attempt
pub mod Closing
pub mod AsyncClosing
pub mod Merging
pub mod Endings
pub mod Finalize
pub mod Finished
pub mod AsyncSteps
pub mod Twin
pub mod Proxy
pub mod Once
pub mod Ways
pub mod Calls
mod Tests
mod ProxyTests
