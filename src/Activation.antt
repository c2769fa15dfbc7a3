-- ===== src/Activation.antt =====
-- What the runtime guard of pilot/runtime_adoption_guard.py guarantees.
pub mod Spec
mod Blocks
pub mod Sound
pub mod Exclusive
pub mod Identity
pub mod Isolation
pub mod Marked
