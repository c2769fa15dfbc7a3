-- ===== src/Managed/Defs.antt =====
-- The events of pilot/managed_runtime.py, and what it takes from Python, from the registry and from
-- the runtime that runs a container. Timestamps that no code reads are left out.
use Prim.Native.String.{◌++◌ as text_append, slice}
use agent_capability_forge.Prelude.{
  ℕ, String, Bool, true, false, Option, none, some, List, ◌==◌, if◌then◌else◌, string_eq,
}
use agent_capability_forge.Records.{Text}
use agent_capability_forge.Disk.{Outcome}
use agent_capability_forge.Frozen.{Sealer}
use agent_capability_forge.Host.{Host}
use agent_capability_forge.Registry.{World}

-- DESIRED_STATES
pub data Desired : Type 0 where
  run stop revoke : Desired

-- OBSERVED_STATES, in the source's order
pub data Observed : Type 0 where
  ready deploying pending starting running stopping stopped failed revoked unknown : Observed

-- An event of versions.jsonl; `withdrawn` says that `state` is "REVOKED".
pub record Version : Type 0 where
  pub withdrawn : Bool
  pub version_id : String
  pub agent_id : Text
  pub name : Text
  pub family : String
  pub candidate_id : Text
  pub candidate_version : Text
  pub artifact_digest : Text
  pub seal_digest : Text
  pub execution_snapshot_identity : String
  pub authority_id : Text
  pub promotion_decision_id : Text
  pub evaluation_run_id : Text
  pub registry_root : String
  pub frozen_root : String
  pub revocation_id : Text

pub record Deployment : Type 0 where
  pub deployment_id : String
  pub agent_id : Text
  pub version_id : String
  pub desired_state : Desired

pub record Instance : Type 0 where
  pub instance_id : String
  pub deployment_id : String
  pub agent_id : Text
  pub version_id : String
  pub execution_snapshot_identity : String
  pub observed_state : Observed
  pub started_at : Text
  pub stopped_at : Text
  pub failure_reason : Text
  pub attempt_count : ℕ

-- The files under the state root: the events that _append wrote, oldest first. A line of other
-- content makes each reader of the file raise, which is outside the model.
pub record State : Type 0 where
  pub versions : List Version
  pub deployments : List Deployment
  pub instances : List Instance

-- The state root, and the registries by their root directories.
pub record Site : Type 0 where
  pub state : State
  pub registries : String → World

-- What a runtime answers to start and stop.
pub record Answer : Type 0 where
  pub observed_state : Observed
  pub failure_reason : Text

-- The runtime that reconcile is given. `raised` is an exception that leaves it.
pub record Runtime : Type 0 where
  pub start : Instance → Version → Outcome Answer
  pub stop : Instance → Outcome Answer

-- What the managed runtime takes from elsewhere.
pub record Manager : Type 0 where
  pub host : Host
  pub sealer : Sealer
  -- canonical_json of {candidate_id, artifact_digest, seal_digest}
  pub dumps_identity : Text → Text → Text → String
  -- the decimal digits of an integer
  pub digits : ℕ → String

-- START_MAX_ATTEMPTS
abbrev pub start_max_attempts : ℕ
start_max_attempts = 3

-- execution_snapshot_identity
unfoldable pub snapshot_identity : Manager → Text → Text → Text → String
snapshot_identity m candidate_id artifact_digest seal_digest =
    text_append "snap-"
      (slice (m.sealer.hexdigest (m.dumps_identity candidate_id artifact_digest seal_digest)) 0 16)

-- ACTIVE_STATES
abbrev pub is_active : Observed → Bool
is_active ready = true
is_active deploying = false
is_active pending = false
is_active starting = true
is_active running = true
is_active stopping = true
is_active stopped = false
is_active failed = true
is_active revoked = false
is_active unknown = false

-- An argument `desired_state`, which may be any text.
unfoldable pub desired_of : String → Option Desired
desired_of s =
    if s == "RUNNING"
    then some run
    else if s == "STOPPED"
    then some stop
    else if s == "REVOKED"
    then some revoke
    else none

abbrev pub same_desired : Desired → Desired → Bool
same_desired run run = true
same_desired run stop = false
same_desired run revoke = false
same_desired stop run = false
same_desired stop stop = true
same_desired stop revoke = false
same_desired revoke run = false
same_desired revoke stop = false
same_desired revoke revoke = true

abbrev pub at_root : Site → String → World
at_root t root = t.registries root

-- A registry that has changed.
unfoldable pub put_world : Site → String → World → Site
put_world t root w = record t { registries = λ r. if r == root then w else t.registries r }
