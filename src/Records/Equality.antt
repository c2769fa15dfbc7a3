-- ===== src/Records/Equality.antt =====
-- The equality tests of the records, by groups of records.
mod Issued
mod Evaluated
mod Registered
mod Tracked
pub use Issued.*
pub use Evaluated.*
pub use Registered.*
pub use Tracked.*
