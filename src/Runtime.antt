-- ===== src/Runtime.antt =====
-- The authority that runs a compiled program (runtime).
pub mod Tenancy
pub mod ApiCache
pub mod Channel
pub mod Deletes
pub mod Grants
pub mod Jobs
pub mod MemStore
pub mod Query
pub mod RateLimit
pub mod U64
pub mod Undo
pub mod Value
pub mod RowIndex
pub mod Expr
pub mod Eval
