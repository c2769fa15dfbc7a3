-- ===== src/Guard/Access.antt =====
-- execution_snapshot_isolation_violations of pilot/runtime_adoption_guard.py: the user that runs the
-- artifact must not own the frozen store, nor be able to write or replace a part of it.
use Prim.Native.Nat.{◌/◌, ◌%◌}
use agent_capability_forge.Prelude.{
  ℕ, Bool, not, ◌&&◌, ◌||◌, none, some, List, [], ◌∷◌, ◌++◌, ◌==◌, if◌then◌else◌, nat_eq, any,
  report,
}
use agent_capability_forge.Code.{
  Code, execution_snapshot_store_missing, execution_snapshot_owner_isolation_required,
  execution_snapshot_store_path_writable, execution_snapshot_writable,
}
use agent_capability_forge.Records.{Text}
use agent_capability_forge.Disk.{Outcome, ok, raised}

-- os.stat_result, in the parts that are read
pub record Stat : Type 0 where
  pub st_uid : ℕ
  pub st_gid : ℕ
  pub st_mode : ℕ

-- A path: absent, there but refused by the operating system, or there.
pub data Node : Type 0 where
  absent refused : Node
  stated : Stat → Node

-- What is read under a frozen root: the root, its parents from the nearest on, the directories of
-- the candidate, its record, and all that lies in its snapshot.
pub record Place : Type 0 where
  pub root : Node
  pub parents : List Node
  pub dirs : List Node
  pub record_file : Node
  pub snapshot : List Node

-- The user that runs the artifact.
pub record User : Type 0 where
  pub uid : ℕ
  pub gids : List ℕ

-- `mode & 2 ** bit`
unfoldable pub bit : ℕ → ℕ → Bool
bit mode weight = mode / weight % 2 == 1

unfoldable pub write_access : User → Stat → Bool
write_access u s =
    if s.st_uid == u.uid
    then bit s.st_mode 128
    else if any (λ g. g == s.st_gid) u.gids
    then bit s.st_mode 16
    else bit s.st_mode 2

unfoldable pub replace_access : User → Stat → Bool
replace_access u s = write_access u s && (not (bit s.st_mode 512) || s.st_uid == u.uid)

-- The walk to the root stops at a directory that cannot be read, or that can be replaced.
unfoldable pub path_violations : User → List Node → List Code
path_violations u [] = []
path_violations u (absent ∷ ps) = []
path_violations u (refused ∷ ps) = []
path_violations u (stated s ∷ ps) =
    let rest = path_violations u ps in
    if replace_access u s then execution_snapshot_store_path_writable ∷ [] else rest

unfoldable pub node_violations : User → Node → List Code
node_violations u absent = []
node_violations u refused = execution_snapshot_writable ∷ []
node_violations u (stated s) = report ((write_access u s, execution_snapshot_writable) ∷ [])

unfoldable pub nodes_violations : User → List Node → List Code
nodes_violations u [] = []
nodes_violations u (n ∷ ns) = node_violations u n ++ nodes_violations u ns

unfoldable pub place_violations : User → Place → Stat → List Code
place_violations u p s =
    report ((s.st_uid == u.uid, execution_snapshot_owner_isolation_required) ∷ [])
    ++ path_violations u p.parents
    ++ nodes_violations u p.dirs
    ++ nodes_violations u (p.record_file ∷ p.snapshot)

-- A candidate without an identifier has no path: an exception, behind the look at the root.
unfoldable pub isolation_violations : User → Place → Node → Text → Outcome (List Code)
isolation_violations u p absent id = ok (execution_snapshot_store_missing ∷ [])
isolation_violations u p refused id = ok (execution_snapshot_store_missing ∷ [])
isolation_violations u p (stated s) none = raised
isolation_violations u p (stated s) (some id) = ok (place_violations u p s)
