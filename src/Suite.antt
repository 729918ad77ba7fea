-- ===== src/Suite.antt =====
-- The unit tests of the source, run on the model. Each test is the statement that its assertions
-- hold, under the name of the test, beside its proof.
pub mod Packets
pub mod Grasp
pub mod Args
pub mod Acp
pub mod Interfaces
pub mod Downstream
pub mod Debug
