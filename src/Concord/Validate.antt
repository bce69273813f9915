-- ===== src/Concord/Validate.antt =====
-- The gates before changes that a model or a visitor proposes.
pub mod Path
pub mod Patch
pub mod Mutation
pub mod Tests
