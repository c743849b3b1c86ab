-- ===== src/Lib.antt =====
-- Verification of the core of noyeet, an authorization layer for transactions that agents
-- propose.
--
-- An agent proposes an intent. The policy VM decides it against a policy document, the KeeperHub
-- service simulates it wrapped in the guard contract, and the gateway answers ALLOW, HOLD or DENY
-- with a receipt. What is allowed, or held and then released by a human, is broadcast through
-- KeeperHub. Receipts are hashed, batched into Merkle trees and anchored.
--
-- - Common: helpers on lists, options, text (UTF-16 code units), integers and JavaScript's
--   numbers.
-- - Policy: packages/policy/src. Types are types.ts and the parsed document of schema.ts, Schema
--   its checks, Rules.* are rules.ts (the rule `value_cap` is `valueCap`, and so on), Evaluate is
--   evaluate.ts. A thrown error is `none`. Permits is a specification, written without the rules,
--   of what a policy permits. The instant of a history entry is that which `new Date` reads.
--   `toLowerCase` is that of ASCII letters.
-- - Resilience.Breaker: packages/resilience/src/breaker.ts. A method that mutates the breaker
--   returns the new one. A method reads the clock once, and the callback on a change does not
--   throw.
-- - Receipts: packages/receipts/src. Hash and Merkle are hash.ts and merkle.ts, Canonical and
--   Receipt are canonical.ts and receipt.ts. keccak256, of the package @noble/hashes, is a
--   parameter; where it matters, its digests are bytes.
-- - KeeperHub: packages/keeperhub/src. Http is http.ts, Client is the retry loop of client.ts
--   under the breaker, Outcomes its readers of responses, Simulate is `simulateContractCall`,
--   Polling is `waitForExecution`, Reason is reason.ts. The network, the clock and the random
--   draws are functions of the attempt. Numbers in JSON are natural numbers. A random draw is a
--   number below 2^53 in units of 2^-53, and its product with a delay is exact.
-- - Gateway: apps/gateway/src. Holds is the ledger of holds.ts, Authorize the pipeline of
--   authorize.ts, App the routes of app.ts. What the world does during a request comes with the
--   request. Publish is the event that a decision publishes.
-- - Keeper: apps/keeper/src. Core is core.ts, with amounts as natural numbers and the gateway as
--   a function; Submit is how `submit` of index.ts reads the status of a response.
-- - Events: packages/events/src. The root is schema.ts and producer.ts, Validate the decoder of
--   validate.ts, Consumer the loop of consumer.ts with its retries and dead letters.
-- - Anchor: Batches is packages/receipts/src/anchor.ts, Batch and Service are
--   apps/anchor/src/index.ts (the service as a run of steps: an event, a tick, the flush of the
--   shutdown), Script is scripts/anchoring.ts.
-- - Store: packages/store/src. Memory is memory.ts.
-- - Dashboard: apps/dashboard. Ledger is lib/holds-ledger.ts, Requests, Execute and Amounts are
--   lib/execute.ts, Routes are the routes of app/v1 that execute, authorize, release and cancel.
--   What the network answers and the parsed policy are given. Canvas is lib/canvas: Blocks is
--   blocks.ts, Compile, with Common.Doubles for `Number(text)`, is compile.ts and Reopen is
--   policy-to-blocks.ts.
-- - Observability: packages/observability/src/registry.ts, of which
--   apps/dashboard/lib/observability has a copy. Labels are the label sets, Registry the metrics
--   and their text.
--
-- Fuel: the retry loop runs on `max_attempts` rounds, which is the loop's own bound. The levels
-- of a Merkle tree are built with as many rounds as there are leaves, which is enough since a
-- level with more than one node has a smaller successor. A number prints in at most one digit
-- more than its value. The polling of an execution runs on one poll for each interval of its
-- budget and one more, which is enough as each sleep takes at least the interval. Indices in a
-- guard's reason are safe integers, below 2^53, where they are read.
--
-- Not modelled: missing and unknown fields of a policy document, the Kafka client, the Postgres
-- store (SQL), the reads of the chain and the endless loop of the keeper's process, telemetry,
-- the metrics that are read from the process, notifications, the verifier's page, the pages of
-- the dashboard, the queue of sends per wallet, and the Solidity guard. The shape of an intent in
-- a request's body is taken as given.
pub mod Common
pub mod Resilience
pub mod Policy
pub mod Receipts
pub mod KeeperHub
pub mod Store
pub mod Events
pub mod Anchor
pub mod Gateway
pub mod Keeper
pub mod Dashboard
pub mod Observability
