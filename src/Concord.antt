-- ===== src/Concord.antt =====
-- packages/concord-core/src: the pure reconciliation core of Concord.
pub mod Types
pub mod Normalize
pub mod Classify
pub mod Authority
pub mod Render
pub mod Conflicts
pub mod Diff
pub mod Consistency
pub mod Pipeline
pub mod Proposal
pub mod Falsify
pub mod Fixtures
pub mod Content
pub mod Validate
