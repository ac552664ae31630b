-- ===== src/Ir.antt =====
-- The compiler's lowering and its checks (internal/ir/build.go).
pub mod Graph
pub mod Params
pub mod Placement
pub mod Proc
pub mod RunGraph
pub mod Lower
pub mod Types
