-- ===== src/Core.antt =====
-- The control plane, aae/core.
pub mod State
pub mod Trust
pub mod Mother
pub mod Router
pub mod Llm
pub mod Supervisor
pub mod Operator
pub mod ChildAgent
