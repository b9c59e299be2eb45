-- ===== src/Witness.antt =====
-- Runs of the code at concrete inputs.
pub mod Data
pub mod Meta
pub mod Store
pub mod Paths
pub mod Memory
pub mod Calls
pub mod Opens
pub mod Hooks
pub mod Files
