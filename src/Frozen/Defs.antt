-- ===== src/Frozen/Defs.antt =====
-- The records of a Frozen Candidate (src/forge/capabilityizer.py), and what its functions take from
-- Python: SHA-256, the canonical JSON printer, and two tests of pathlib.
use agent_capability_forge.Prelude.{ℕ, String, Bool, Option, List, Map}
use agent_capability_forge.Records.{Text}
use agent_capability_forge.Disk.{Doc}

-- The files under a directory, by relative path, with their bytes.
abbrev pub Tree : Type 0
Tree = Map String

-- candidate.artifact
pub record Artifact : Type 0 where
  pub artifact_digest : Text
  pub artifact_ref : Text
  -- `none` is a value that is not a list
  pub files : Option (List String)

-- candidate.manifest, in the parts that are checked: capability and provenance.
pub record Manifest : Type 0 where
  pub name : Text
  pub version : Option ℕ
  pub forged_artifact_digest : Text
  pub source_artifact_digest : Text
  pub forge_timestamp : Text

-- A candidate, as the seal covers it.
pub record Core : Type 0 where
  pub candidate_id : Text
  pub capability_id : Text
  pub name : Text
  pub version : Option ℕ
  pub resolved_revision : Text
  pub requester_id : Text
  pub request_id : Text
  pub created_at : Text
  pub artifact : Artifact
  pub manifest : Manifest

-- The record frozen/<candidate_id>.json.
pub record FrozenRecord : Type 0 where
  pub schema : Text
  pub seal_version : Text
  pub candidate_id : Text
  pub capability_id : Text
  pub name : Text
  pub version : Option ℕ
  pub artifact_digest : Text
  pub manifest_digest : Text
  pub tests_digest : Text
  pub seal_digest : Text

-- The directory frozen/<candidate_id>/. A directory that is missing lists no files.
pub record Snapshot : Type 0 where
  pub candidate : Doc Core
  pub artifact : Tree
  pub tests : Option Tree

pub record FrozenStore : Type 0 where
  pub records : Map (Doc FrozenRecord)
  pub snapshots : Map Snapshot

-- What seal_digest prints: the core with the three digests, and the seal's schema and version where
-- the version is not v1.
pub record Payload : Type 0 where
  pub core : Core
  pub artifact_digest : String
  pub manifest_digest : String
  pub tests_digest : String
  pub seal : Option (String × String)

pub record Sealer : Type 0 where
  -- hashlib.sha256 over bytes
  pub hexdigest : String → String
  -- canonical_json of a manifest, of a seal payload and of a map of digests
  pub dumps_manifest : Manifest → String
  pub dumps_payload : Payload → String
  pub dumps_files : Map String → String
  -- Path(rel).is_absolute() and ".." in Path(rel).parts
  pub is_absolute : String → Bool
  pub has_parent_part : String → Bool
