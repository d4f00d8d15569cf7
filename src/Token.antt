-- ===== src/Token.antt =====
-- sail/token: the registry operations in a representative field, and the registry they build.
pub mod Ops
pub mod Registry
