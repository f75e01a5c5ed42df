-- ===== src/Scripts.antt =====
-- scripts/: the command lines of the operator and of the continuous integration.
pub mod EmergencyTransfer
pub mod LintChannels
pub mod Bootstrap
pub mod Seeding
mod Tests
