-- ===== src/Promotion.antt =====
-- What promote of pilot/registry.py guarantees.
pub mod Checks
pub mod Written
pub mod Again
