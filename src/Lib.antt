-- ===== src/Lib.antt =====
-- EAUTO-AI: the lifecycle of business actions, the outbox, operator sessions, access control, the
-- policies of autonomy and of supplier stock, the profit engine, the supply workflows, the uploads of
-- images, and the company of agents with its evidence and memory.
--
-- The program is a monorepo. Its pure rules stand in packages/domain/src and
-- packages/agent-kernel/src, its services in packages/application/src, and its stores in
-- packages/infrastructure/src. A service reads and writes its stores through ports; the in-memory
-- stores are the ones modelled here. An action is proposed, reviewed, approved and executed by
-- `ActionService`; each of its writes stores the action, appends a receipt and enqueues an event,
-- which `OutboxProcessor` hands to the handlers later. Every request first passes the checks of
-- access, and a request of an agent the preflight.
--
-- The files:
--   Prelude and below: shared names, lists, maps, integers, texts, results and state passing.
--   Time: dates, as `Date.parse` reads them.
--   Action: packages/domain/src/actions.ts and packages/domain/src/evidence.ts, with the diagram of
--     the states in Action/Graph.
--   Lifecycle: Environment, Receipts, Repository and Service model packages/agent-kernel/src/receipts.ts,
--     packages/infrastructure/src/inMemoryRepositories.ts and packages/application/src/actionService.ts;
--     each method of `ActionService` is the function of that name in Lifecycle/Service, on a `World`
--     that holds the stores and how often the environment was asked. Guards, Once, Chain, Outcome
--     and Authority prove what the writes and the methods keep.
--   Outbox: packages/infrastructure/src/inMemoryOutboxRepository.ts (Outbox, Claim, Settle, Stats) and
--     packages/application/src/outbox.ts (Processor). History, Exclusion and Leases are about any
--     sequence of calls by any workers.
--   Session: packages/domain/src/sessions.ts and
--     packages/infrastructure/src/inMemorySessionRepository.ts; Session/Service:
--     packages/application/src/sessionService.ts. Revocation and Issue hold the theorems.
--   Access: packages/domain/src/access.ts.
--   Autonomy: packages/domain/src/money.ts and packages/domain/src/autonomy.ts; Autonomy/Free
--     holds the theorem.
--   SupplierStock: packages/domain/src/supplierStock.ts; SupplierStock/Service:
--     packages/application/src/supplierStockService.ts. Reading and Facts are about the checks and
--     the proposals.
--   Profit: packages/domain/src/profitEngine.ts (Profit, Calculate, Reprice);
--     packages/application/src/profitEngineService.ts (Service) and
--     packages/application/src/marginAuditDaemon.ts (Daemon). Rounding is the interface of the
--     quotients in double precision; Checks, Evidence, Accounts and Status are about snapshots,
--     Proposed, Target and Margin about proposals, Scope and Audit about the service and the daemon.
--   Supply: packages/domain/src/supplyWorkflows.ts; Supply/Service:
--     packages/application/src/supplyWorkflowService.ts. Kinds and Ready hold the theorem.
--   Uploads: packages/domain/src/uploads.ts; Uploads/Store:
--     packages/infrastructure/src/inMemorySourceImageUploadRepository.ts; Uploads/Service:
--     packages/application/src/sourceImageUploadService.ts. Keeps, Terminal, Match, Verified and
--     Forever are about any sequence of its calls.
--   Collaboration: packages/domain/src/agentCollaboration.ts; Text, Router, Compose and Memory:
--     packages/application/src/agentCollaborationService.ts. Backing, Trust and Totals are about the
--     router, Admission, Entry and Recall about memory.
--   WorkOrders: `assertUsableEvidencePack` of packages/domain/src/operationalIntelligence.ts and
--     packages/agent-kernel/src/wakePolicy.ts; WorkOrders/Service: `enqueue` of
--     packages/application/src/governedWorkOrderService.ts, up to the call of the repository.
--     Evidence and Wake are about the pack and the decision, Governed holds the theorem.
--   Agents: packages/domain/src/agentOs.ts; Agents/Preflight:
--     packages/agent-kernel/src/agentPreflight.ts, with its tests in Agents/Gates and
--     its theorem in Agents/Clearance.
--   Tests: runs and instances at concrete inputs.
--
-- A method that may throw returns a `Result`; one that also changes stored state takes the state and
-- gives it back beside the result, so what was written before a throw stays written. A call of an
-- in-memory store runs to its end before another starts, so interleavings are lists of calls. No
-- fuel is needed: every loop runs over a list. Dates are milliseconds, or a text that is no date.
-- From outside come SHA-256 and the JSON texts that are hashed, the clock, fresh ids, tokens, the
-- provider that executes an action, the handlers of events, the object storage, the responders, and
-- the readers of inputs; each is an argument, and may answer in any way. The quotients that the profit
-- engine takes in double precision are an argument too; where a theorem needs them exact, it says so,
-- and `IsExact` asks that only of products within the safe integers.
--
-- Not modelled: numbers that are no integers or too large to be exact (so also the delay of a retry
-- from attempt 1025 on, where the power of two is infinite, and times a base of zero no number), the
-- range of dates but for the evidence router, `multiplyMoney`, the PostgreSQL stores, the HTTP
-- clients and routes, the mobile application, the message bus of the agents, and the other rules of
-- the domain: catalog acquisition and product identification, the supplier mirror, the other parts of
-- operational intelligence, the processing of work orders, the planner, and the integration with
-- Mercado Libre.
pub mod Prelude
pub mod Time
pub mod Action
pub mod Outbox
pub mod Lifecycle
pub mod Access
pub mod Session
pub mod SupplierStock
pub mod Profit
pub mod Supply
pub mod Uploads
pub mod Autonomy
pub mod Agents
pub mod Collaboration
pub mod WorkOrders
pub mod Tests
