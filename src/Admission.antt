-- ===== src/Admission.antt =====
-- What the validator of pilot/adoption_authority.py decides.
pub mod Spec
pub mod Request
pub mod Binding
pub mod Sound
