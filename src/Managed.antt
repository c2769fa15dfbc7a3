-- ===== src/Managed.antt =====
-- The managed runtime: pilot/managed_runtime.py. Three append-only JSONL files under a state root
-- hold versions, deployments and instances, and reconcile moves the instances to what a deployment
-- asks for.
mod Log
mod Defs
mod Versions
mod Deployments
mod Instances
mod Reconcile
mod Control
unfoldable pub use Log.*
unfoldable pub use Defs.*
unfoldable pub use Versions.*
unfoldable pub use Deployments.*
unfoldable pub use Instances.*
unfoldable pub use Reconcile.*
unfoldable pub use Control.*
