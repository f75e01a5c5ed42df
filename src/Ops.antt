-- ===== src/Ops.antt =====
-- aae/ops: the integrity of the frozen paths (freeze_experiment.py), the simulation harness and the
-- weekly digest.
pub mod Freeze
pub mod Simulation
pub mod Digest
mod Tests
