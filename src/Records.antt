-- ===== src/Records.antt =====
-- The JSON records of the adoption store (pilot/adoption_authority.py,
-- pilot/adoption_authority_producer.py), one record type for each kind of dict. A text field is
-- an `Option String`: a key that is absent reads as `none`, as `d.get(key)` reads as None. Keys that
-- no code reads are left out.
mod Defs
mod Equality
pub use Defs.*
pub use Equality.*
