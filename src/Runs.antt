-- ===== src/Runs.antt =====
-- The runs of distributed teams on their host: src/distributed/team-run-orchestrator, with the
-- routing registry of src/distributed/routing and the event sequence of
-- src/distributed/event-aggregation.
pub mod Repository
pub mod Orchestrator
pub mod Dispatch
pub mod Consistency
pub mod Starting
pub mod Stopping
pub mod Events
pub mod Invariant
pub mod AutoStop
mod Tests
