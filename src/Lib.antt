-- ===== src/Lib.antt =====
-- The TruthBounty API: how a claim is indexed from the chain, resolved, voted on and disputed.
--
-- The program is a set of services over shared tables. Blocks and their events come in through the
-- event indexing service; it asks the reorg detector whether the chain has changed, has the
-- reconciliation service roll events back, and keeps all of it in the chain state. Claims go
-- through a state machine of three states, driven by the claims service and by the resolution by
-- votes. Governance keeps proposals and votes, and the dispute service the disputes about claims.
-- The aggregation weighs the verifications of a claim, and the weighted vote resolution its votes by
-- the reputation of the voters. Stakes follow the events of the staking contract.
-- Webhooks are told of events by jobs of a delivery queue. A wallet signs in with a signed challenge
-- and goes on with pairs of access and refresh tokens. Configuration values and feature flags are
-- read through a cache in Redis.
-- Calls of the chain's providers are retried with backoff and fail over behind circuit breakers.
--
-- The files, each with the code it is about:
-- Prelude: numbers, tests, lists, exceptions as results, maps in insertion order,
--   tables with a key in an environment, caches.
-- Blockchain/Types: src/blockchain/types.ts.
-- Blockchain/State: src/blockchain/state.service.ts, one function for each method; its children hold
--   eviction, the counts, and sweeps over all events.
-- Blockchain/Reorg: src/blockchain/reorg-detector.service.ts.
-- Blockchain/Reconcile: src/blockchain/reconciliation.service.ts.
-- Blockchain/Indexing: src/blockchain/event-indexing.service.ts.
-- Aggregation: src/aggregation/aggregation.service.ts and aggregation.types.ts.
-- Auth/Tokens: src/auth/services/token.service.ts, over get and set of src/redis/redis.service.ts,
--   which are in Prelude/Redis.
-- Auth/Login: src/auth/auth.service.ts, with the messages of src/auth/services/siwe.service.ts.
-- Claims/Entity: src/claims/entities/claim.entity.ts.
-- Claims/Service: src/claims/claims.service.ts and src/cache/claims.cache.ts.
-- Claims/Resolution: src/claims/claim-resolution.service.ts.
-- FeatureFlags/Configuration: src/feature-flags/configuration.service.ts and its entities.
-- FeatureFlags/Flags: src/feature-flags/feature-flags.service.ts, its hash, operations, evaluation.
-- Governance: src/governance/governance.service.ts, governance.cache.ts and the entities.
-- Dispute: src/dispute/dispute.service.ts and its entity.
-- Staking: src/staking, the service, its entities, the event names.
-- WeightedVotes: src/blockchain/weighted-vote-resolution.service.ts and the votes of types.ts.
-- Webhooks: src/webhooks, the service in Service and Dispatch, the worker in Processor.
-- Rpc: src/blockchain/utils/rpc-backoff.util.ts, its errors, backoff, and provider manager.
--
-- State is passed on explicitly: an operation takes the tables and caches of its service and returns
-- them with its result; an exception is a value of Result, without its message. The clock, the ids
-- that the database gives, and texts made for people are arguments. Numbers that the program counts
-- with are natural numbers; the two event counts, which are decremented without a test, are
-- integers. Floating-point arithmetic is a record of operations, an argument of what uses it, so
-- that the theorems hold for every such arithmetic; the same holds for toLowerCase and trim.
--
-- Loops are recursion on the list they run over or on the height they walk down; the search for a
-- divergence, which also stops at depth 1000, recurs on the block number, and the retries of a call
-- on the number that is left, so no fuel is needed.
--
-- Operations run one after another: interleavings of two requests are not modelled. A cached entry
-- may be lost at any time in the claims service; tokens, challenges, configuration and flags have
-- the expiry of Redis, which is taken to be at hand. Logging, metrics, audit rows, HTTP controllers
-- and the database are not modelled, nor are floating-point statistics and paginated listings. Left
-- out as a whole: the merged evidence service, which does not parse; the calls of IPFS, search,
-- mail and language models; rewards, the sybil score, administration, and the chain indexer.

pub mod Prelude
pub mod Blockchain
pub mod Aggregation
pub mod Auth
pub mod Claims
pub mod Governance
pub mod Dispute
pub mod FeatureFlags
pub mod Rpc
pub mod Staking
pub mod Webhooks
pub mod WeightedVotes
