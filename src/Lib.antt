-- ===== src/Lib.antt =====
-- A verification library for kazenai: a Python client that holds a budget before each call of a
-- model, settles its cost after it, and keeps what could not be delivered. The library follows the
-- core of that path, from the local cap to the journal of settlements.
--
-- The program's parts and how they interact. A request of a monitored client passes the dispatch
-- gate (kazenai/_dispatch_gate.py), as a rule under a guarded wrapper. The wrapper first prices the
-- call (kazenai/request_pricing.py over kazenai/price_catalog.py), claims the ownership of its
-- enforcement (kazenai/enforcement_owner.py), takes a hold against the local cap
-- (kazenai/enforcement.py, kazenai/budget.py), then the call runs and its usage is priced; a stream
-- is owned by one attempt (kazenai/streaming/lifecycle.py), which at its end decides a cost,
-- settles it, and records it against the cap, with the words of kazenai/lifecycle_transitions.py. A
-- settlement is journaled before it is sent (kazenai/spine/guard.py over
-- kazenai/spine/settle_queue.py), acknowledged or kept, and redelivered by a flush. Events go
-- through another spool (kazenai/retry_queue.py).
--
-- Which file models which part:
--   Base            names that the components share: tests, lists, texts, exact amounts, results,
--                   directories
--   RetryQueue      kazenai/retry_queue.py, class RetryQueue: `enqueue`, `lease`, `ack`, `nack`, `drain`,
--                   over the two tables of RetryQueue/Table; RetryQueue/Steps has the histories
--   SettleQueue     kazenai/spine/settle_queue.py, class DurableSettleQueue: `enqueue`, `ack`, `release`,
--                   `schedule_retry`, `_quarantine`, `list_pending`; SettleQueue/Intent has
--                   `intent_fingerprint` and `claim_identity`, SettleQueue/Claims the claims
--   Settlement      kazenai/spine/guard.py, `_post_settle_sync` and what it calls, with the answers in
--                   Settlement/Answers; and `_flush_locked` of kazenai/spine/settle_queue.py
--   Streaming       kazenai/streaming/lifecycle.py: StreamUsage in Streaming/Usage, StreamAttempt in
--                   Streaming/Attempt, `finalize` in Streaming/Closing, `finalize_async`, which has its
--                   own copy of the steps, in Streaming/AsyncClosing; and
--                   kazenai/streaming/proxy.py, the iterator of a stream, in Streaming/Proxy
--   Transitions     kazenai/lifecycle_transitions.py
--   Enforcement     kazenai/enforcement.py, class Enforcement, and kazenai/budget.py
--   DispatchGate    kazenai/_dispatch_gate.py, class DispatchGate, and its paths
--   LoopDetector    kazenai/loop_detector.py
--   Pricing         kazenai/price_catalog.py (Decimals, Rates, Catalog: amounts, rate cards, the price
--                   table) and kazenai/request_pricing.py (Request and Prepare: `_prepare`; Decision:
--                   `_build`; Usage: `usage_components`; Settling: `settle_usage`; Tiers: the
--                   admission breaker), with `TokenCostEngine`'s overrides of the table
--   Lifecycle       kazenai/deployment.py (Deployment, Runtime) and kazenai/lifecycle_config.py (Config,
--                   Branches and Resolve: `resolve_effective_lifecycle`; Server:
--                   `assert_compatible_with_server`)
--   Ownership       kazenai/enforcement_owner.py and the owners in `reserve_budget` of
--                   kazenai/spine/guard.py, on the path of Control
--   OrgPolicy       kazenai/spine/org_policy.py, the setting for an unreachable service, in memory and in
--                   a file; OrgPolicy/Keeping has what other keys cannot change
--   Principal       kazenai/auth/_principal_impl.py, the organization and workspace of a request
--   Validation      kazenai/validation/bounds.py, `json_depth` and `enforce_json_bounds`
--   Policies        kazenai/pricing_policy.py, kazenai/circuit_breaker.py, kazenai/provider_errors.py
-- A record holds the state of a class, and a method is a function from the state to the state and
-- what it returns; an exception is a constructor of the result. The children named for what they
-- prove hold the lemmas; Tests has runs on concrete input.
--
-- What is outside is an argument: the clock, random draws, the size of a file, the answers of a
-- server, the callbacks of an attempt, fresh ids. SHA-256 is a function of which it is assumed,
-- where it matters, that no hash is
-- empty, or that two keys of OrgPolicy do not share a file; JSON is a pair of functions of which one property
-- assumes that what was written reads back. What other processes do to the journal between two
-- steps of a method is a function on the journal. Times are in milliseconds in the queues.
--
-- Bounds and fuel. The loop of `_acquire_claim` runs 8 rounds, as in the code, and its end without
-- a claim is the code's conflict. The digits of a number are printed on fuel, for which the number
-- itself is enough. Every other loop runs along a list.
--
-- What is not modelled: floats (outside Pricing an amount is an exact integer of one unit, and
-- rounding is left out); the limit of 28 digits on a `Decimal`, of which Pricing's are exact;
-- failures of the file system (except of
-- OrgPolicy's file) and of SQLite; fsync, permissions and the choice of directories;
-- threads, except as sequences of steps under the objects' locks; telemetry and logging; texts
-- whose capital letters are not ASCII, where the code folds case; a claim file whose time does not
-- parse. A body of a settlement is a record of the keys that the queue reads with the rest as text,
-- so a record whose body is empty, which a flush skips, does not occur; a file in the journal that holds
-- an object which is no record counts as one without a fingerprint. The parts of the program
-- that no file above names are not modelled: the literal price rows and token formulas, signed
-- catalogs, the patching of SDK clients, sinks,
-- tokens, integrations.
pub mod Base
pub mod RetryQueue
pub mod SettleQueue
pub mod Settlement
pub mod Enforcement
pub mod Transitions
pub mod Streaming
pub mod DispatchGate
pub mod LoopDetector
pub mod Pricing
pub mod Ownership
pub mod Lifecycle
pub mod OrgPolicy
pub mod Principal
pub mod Validation
pub mod Policies
