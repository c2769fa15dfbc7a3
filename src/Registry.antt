-- ===== src/Registry.antt =====
-- The experimental registry: pilot/registry.py.
mod Defs
mod Promote
mod Publish
unfoldable pub use Defs.*
unfoldable pub use Promote.*
unfoldable pub use Publish.*
