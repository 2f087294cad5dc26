-- ===== src/Policies.antt =====
-- src/distributed/policies: the rules by which the host routes, retries and gives up.
pub mod Degradation
pub mod EventDedup
pub mod ToolApproval
pub mod Fencing
pub mod Retry
