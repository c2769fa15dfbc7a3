-- ===== src/Frozen.antt =====
-- Frozen Candidates: src/forge/capabilityizer.py, the canonical artifact identity and the checks of
-- a sealed candidate.
mod Defs
mod Layout
mod Equality
mod Verify
unfoldable pub use Defs.*
unfoldable pub use Layout.*
pub use Equality.*
unfoldable pub use Verify.*
