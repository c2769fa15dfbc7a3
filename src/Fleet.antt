-- ===== src/Fleet.antt =====
-- What the managed runtime of pilot/managed_runtime.py guarantees.
pub mod Views
pub mod Publish
pub mod Backing
pub mod Bound
pub mod Logs
pub mod Active
pub mod Moves
pub mod Unique
pub mod Switch
pub mod Settled
pub mod OneActive
pub mod Appends
pub mod OnlyAppends
pub mod Terminal
pub mod Unmoved
pub mod Rejected
pub mod Stored
pub mod RevokeOne
pub mod Withdrawn
pub mod Idle
pub mod Again
pub mod Life
pub mod Final
