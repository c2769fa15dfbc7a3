-- ===== src/Guard.antt =====
-- The runtime guard: pilot/runtime_adoption_guard.py, which checks an entry of the registry once
-- more before its artifact is run, and marks a candidate as promoted.
mod Access
mod Binding
mod Intent
mod Adopt
mod Promoted
unfoldable pub use Access.*
unfoldable pub use Binding.*
unfoldable pub use Intent.*
unfoldable pub use Adopt.*
unfoldable pub use Promoted.*
