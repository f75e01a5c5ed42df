-- ===== src/Preregistration.antt =====
-- aae/preregistration: the canonical dump, the locked rows with their hashes, and their analysis.
pub mod Canonical
pub mod KeyOrder
pub mod Register
mod Escape
mod Scalars
pub mod Lock
pub mod Create
mod Tests
