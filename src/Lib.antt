-- ===== src/Lib.antt =====
-- A verification library for the AutoByteus server (autobyteus-server-ts, TypeScript sources under
-- src/). It models the host side of distributed agent teams as pure functions over explicit state
-- and proves what makes them correct.
--
-- Parts, and how they interact. A client starts a team on the host. The orchestrator places the
-- team's members on nodes (Placement), records the run under a version of its own (Runs.Repository)
-- and registers its routing adapter (Runs.Orchestrator). Messages go through that adapter
-- (Runs.Dispatch); a failed one is counted by the degradation policy (Policies.Degradation), which
-- degrades or stops the run. Commands between nodes are fenced by the run's version
-- (Policies.Fencing) and retried (Policies.Retry); events that come back are freed of duplicates
-- (Policies.EventDedup) and numbered (Runs.Events). Approvals of tool calls carry versions
-- (Policies.ToolApproval).
-- The requests between nodes are signed and checked by EnvelopeAuth.
-- The nodes find each other through the registry of Discovery.
-- A message of an external channel comes in through Channels, and an agent's answer leaves through
-- Replies.
-- The commands of clients reach the runs through Ingress, which finds or starts the run of a team.
-- Definitions are copied between nodes by Sync: a selection is resolved, a plan is checked, the bundle
-- of one node is imported by the others.
-- A node that is asked to take part in a run binds it to a team of its own (Worker).
--
-- File by file, with the source it models:
-- Common: tests on numbers, results, lists; Common.Text: `trim` and the `normalize…` helpers that
--   many files of src/ declare; Common.Dict: JavaScript's `Map` with text keys, in insertion order;
--   Common.Sets: its `Set`; Common.Actions: calls that change an object and may throw.
-- Policies.*: src/distributed/policies/*.ts, one module for each policy but the two of placement.
-- Placement: src/distributed/member-placement/member-placement-resolver.ts with
--   default-placement-policy.ts and placement-constraint-policy.ts.
-- Runs.*: src/distributed/team-run-orchestrator/*.ts, with
--   src/distributed/routing/team-routing-port-adapter-registry.ts,
--   src/distributed/dependency-hydration/dependency-hydration-service.ts and
--   src/distributed/event-aggregation/team-event-aggregator.ts.
-- EnvelopeAuth.*: src/distributed/security/internal-envelope-auth.ts.
-- Discovery.*: src/discovery/services/node-discovery-registry-service.ts.
-- Replies.*: src/external-channel/services/reply-callback-service.ts and delivery-event-service.ts.
-- Ingress.*: src/distributed/ingress/team-run-locator.ts and team-command-ingress-service.ts.
-- Sync.Selection.*: src/sync/services/node-sync-selection-service.ts.
-- Sync.Preflight.*, Sync.Coordinator.*, Sync.Report: node-sync-preflight-service.ts,
--   node-sync-coordinator-service.ts and node-sync-reporting-service.ts, beside it.
-- Sync.Bundle, Sync.Export.*, Sync.Import.*: node-sync-service.ts, beside it.
-- Channels.Idempotency: src/external-channel/services/channel-idempotency-service.ts and
--   src/external-channel/providers/sql-channel-idempotency-provider.ts; Channels:
--   src/external-channel/services/channel-ingress-service.ts; Channels.ThreadLock.*:
--   channel-thread-lock-service.ts, beside it.
-- Worker: src/distributed/bootstrap/worker-run-lifecycle-coordinator.ts and
--   src/distributed/runtime-binding/run-scoped-team-binding-registry.ts; Worker.Bootstrap:
--   src/distributed/bootstrap/remote-envelope-bootstrap-handler.ts.
-- Functions and fields have the source's names in snake case; a method takes its object first and
-- returns it changed. Files named Laws and the like hold theorems, those named Tests hold runs at
-- sample data and instances of the theorems.
--
-- Conventions. A call that throws is a `Result`; `null` and `undefined` are `none`. The clock, random
-- numbers, fresh ids and replies of other nodes are arguments. Numbers are natural numbers: where the
-- source guards against negative or fractional options, the model's type does. The `Record` of
-- placements is an association list. The loops of the source are recursions on lists, on the attempts
-- left, or on the entries of a map; only the queue of nested teams (Sync.Selection.expand_queue) has
-- fuel, one unit for each team that is asked for or known, since a team enters the queue once. The
-- pause between two attempts of a retry is computed and not waited for.
--
-- Not modelled: HTTP and WebSocket transport, Prisma and file storage, the GraphQL layer, the agent
-- runtime of the third-party autobyteus-ts library, and the wiring of the composition root, which
-- hold little logic of their own or none that does not wait on other programs.
-- Nor, though they have logic of their own: the normal form of a bootstrap's payload, the routing
-- adapters of teams, the projection of remote events, the history of runs, the file explorer, and the
-- services of definitions, skills and streams.
pub mod Common
pub mod Policies
pub mod Placement
pub mod Runs
pub mod EnvelopeAuth
pub mod Discovery
pub mod Replies
pub mod Ingress
pub mod Sync
pub mod Channels
pub mod Worker
