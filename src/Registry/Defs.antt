-- ===== src/Registry/Defs.antt =====
-- The entries of the experimental registry (pilot/registry.py) and the world that the registry, the
-- guard and the producer work on.
use Prim.Native.String.{◌++◌ as text_append}
use agent_capability_forge.Prelude.{
  ℕ, String, Bool, Option, none, some, List, [], ◌∷◌, Map, lookup, insert, ◌==◌, string_eq,
  option_eq, conj, ◌&&◌,
}
use agent_capability_forge.Records.{Text, Provenance, Authority, provenance_eq}
use agent_capability_forge.Disk.{Doc, missing, Disk, or_missing}
use agent_capability_forge.Host.{Host, sha256}
use agent_capability_forge.Frozen.{Tree, Manifest, FrozenStore, Evaluation}

-- The adoption block of an entry: BINDING_KEYS.
pub record Adoption : Type 0 where
  pub candidate_id : Text
  pub candidate_version : Text
  pub promotion_decision_id : Text
  pub evaluation_run_id : Text
  pub policy_version : Text
  pub artifact_digest : Text
  pub provenance : Option Provenance

pub record Entry : Type 0 where
  pub capability_id : Text
  pub name : Text
  pub version : ℕ
  pub family : String
  pub artifact_dir : String
  pub artifact_identity : Text
  pub frozen_root : Text
  pub manifest : Option Manifest
  pub evaluation : Evaluation
  pub state : Text
  pub adoption : Option Adoption

-- The files of one agent: <family>/<name>.json and <family>/<name>/versions/<v>.json.
pub record Agent : Type 0 where
  pub legacy : Doc Entry
  pub versions : Map (Doc Entry)

pub record World : Type 0 where
  pub disk : Disk
  -- the frozen store under each root directory
  pub frozen : String → FrozenStore
  -- by <family>/<name>
  pub agents : Map Agent
  -- the copied artifacts, by directory
  pub artifacts : Map Tree

abbrev pub agent_key : String → String → String
agent_key family name = text_append family (text_append "/" name)

abbrev pub no_agent : Agent
no_agent = record { legacy = missing; versions = [] }

abbrev pub or_no_agent : Option Agent → Agent
or_no_agent none = no_agent
or_no_agent (some a) = a

abbrev pub agent_at : World → String → Agent
agent_at w key = or_no_agent (lookup key w.agents)

-- Where promote writes an entry: AgentVersion entries have a file for each version.
pub data Locator : Type 0 where
  legacy : Locator
  versioned : String → Locator

unfoldable pub entry_at : World → String → Locator → Doc Entry
entry_at w key legacy = (agent_at w key).legacy
entry_at w key (versioned v) = or_missing (lookup v (agent_at w key).versions)

abbrev pub put_in_agent : Agent → Locator → Doc Entry → Agent
put_in_agent a legacy e = record a { legacy = e }
put_in_agent a (versioned v) e = record a { versions = insert v e a.versions }

unfoldable pub put_entry : World → String → Locator → Doc Entry → World
put_entry w key at e = record w {
  agents = insert key (put_in_agent (agent_at w key) at e) w.agents;
}

-- dir_digest of pilot/adoption_authority.py: relative paths and file digests. The printer sorts
-- the keys.
unfoldable pub tree_digests : Host → Tree → Map String
tree_digests h [] = []
tree_digests h ((path, bytes) ∷ files) = (path, sha256 h bytes) ∷ tree_digests h files

unfoldable pub dir_digest : Host → Tree → String
dir_digest h t = sha256 h (h.dumps_manifest (tree_digests h t))

-- `all(adopted.get(k) == authority.get(k) for k in BINDING_KEYS)`
abbrev pub binding_tests : Adoption → Authority → List Bool
binding_tests b a =
    (b.candidate_id == a.candidate_id)
    ∷ (b.candidate_version == a.candidate_version)
    ∷ (b.promotion_decision_id == a.promotion_decision_id)
    ∷ (b.evaluation_run_id == a.evaluation_run_id)
    ∷ (b.policy_version == a.policy_version)
    ∷ (b.artifact_digest == a.artifact_digest)
    ∷ (b.provenance == a.provenance)
    ∷ []

abbrev pub no_adoption : Adoption
no_adoption = record {
  candidate_id = none;
  candidate_version = none;
  promotion_decision_id = none;
  evaluation_run_id = none;
  policy_version = none;
  artifact_digest = none;
  provenance = none;
}

-- `entry.get("adoption") or {}`
abbrev pub or_no_adoption : Option Adoption → Adoption
or_no_adoption none = no_adoption
or_no_adoption (some b) = b

unfoldable pub same_binding : Entry → Authority → Bool
same_binding e a = e.state == some "promoted" && conj (binding_tests (or_no_adoption e.adoption) a)

abbrev pub canonical_identity : String
canonical_identity = "CANONICAL_ARTIFACT_IDENTITY_V1"
