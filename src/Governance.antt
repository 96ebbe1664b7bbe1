-- ===== src/Governance.antt =====
-- internal/governance: the contract of the reconcilers, attribute diffs, and the registry that runs
-- the reconcilers in order.
pub mod Operation
pub mod Diff
pub mod ProtectedBranches
pub mod PipelineRetention
pub mod Registry
