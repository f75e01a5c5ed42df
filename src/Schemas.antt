-- ===== src/Schemas.antt =====
-- The shared data types of aae/schemas, one module for each schema file.
pub mod Common
pub mod Ledger
pub mod Child
pub mod Vertical
pub mod Build
pub mod Ethics
pub mod Samples
