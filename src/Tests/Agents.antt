-- ===== src/Tests/Agents.antt =====
-- The world in which the fixtures' candidate is promoted as an agent, and then run.
use agent_capability_forge.Prelude.{true, false, none, some, [], ◌∷◌}
use agent_capability_forge.Records.{Lifecycle, Revocation, Store}
use agent_capability_forge.Disk.{holds, Disk}
use agent_capability_forge.Frozen.{Tree, Manifest, Evaluation, Sealer}
use agent_capability_forge.Registry.{Entry, World, Promotion}
use agent_capability_forge.Guard.{
  Stat, absent, stated, Place, User, System, Activation, Verified, Identity, Expected,
}
use agent_capability_forge.Tests.Fixtures.{
  authority_name, candidate_id, version, decision_id, run_id, artifact, provenance, store, disk,
}

abbrev pub sealer : Sealer
sealer = record {
  hexdigest = λ s. s;
  dumps_manifest = λ m. "manifest";
  dumps_payload = λ p. "payload";
  dumps_files = λ m. "files";
  is_absolute = λ s. false;
  has_parent_part = λ s. false;
}

abbrev pub manifest : Manifest
manifest = record {
  name = some "agent";
  version = some 1;
  forged_artifact_digest = artifact;
  source_artifact_digest = none;
  forge_timestamp = none;
}

abbrev pub files : Tree
files = ("main.py", "print(1)") ∷ []

abbrev pub evaluation : Evaluation
evaluation = record {
  evaluation_id = run_id;
  verdict = some "PASS";
  evaluated_at = none;
  candidate_id = candidate_id;
  artifact_digest = artifact;
  seal_digest = none;
}

abbrev pub promotion : Promotion
promotion = record {
  family = "family";
  name = "agent";
  candidate = record {
    candidate_id = candidate_id;
    name = some "agent";
    source_bundle_ids = [];
    manifest = some manifest;
    tests = none;
    artifact = some files;
  };
  evaluation = evaluation;
  frozen_root = none;
}

abbrev pub world : World
world = record {
  disk = disk;
  frozen = λ root. record { records = []; snapshots = [] };
  agents = [];
  artifacts = [];
}

abbrev pub entry : Entry
entry = record {
  capability_id = some "cap-0123456789ab";
  name = some "agent";
  version = 1;
  family = "family";
  artifact_dir = "family/agent/artifact";
  artifact_identity = none;
  frozen_root = none;
  manifest = some manifest;
  evaluation = evaluation;
  state = some "promoted";
  adoption = some (record {
    candidate_id = candidate_id;
    candidate_version = version;
    promotion_decision_id = decision_id;
    evaluation_run_id = run_id;
    policy_version = some "1";
    artifact_digest = artifact;
    provenance = some provenance;
  });
}

-- The world after the promotion, before the lifecycle is marked.
abbrev pub published : World
published = record world {
  agents = ("family/agent", record { legacy = holds entry; versions = [] }) ∷ [];
  artifacts = ("family/agent/artifact", files) ∷ [];
}

abbrev pub marked_lifecycle : Lifecycle
marked_lifecycle = record {
  has_keys = true;
  status = some "PROMOTED";
  transitions = record { source = some "PROMOTABLE"; target = some "PROMOTED" } ∷ [];
}

abbrev pub promoted_store : Store
promoted_store = record store { lifecycle = ("cand-0123456789", marked_lifecycle) ∷ [] }

abbrev pub ready_disk : Disk
ready_disk = record disk { store = holds promoted_store }

abbrev pub ready : World
ready = record published { disk = ready_disk }

abbrev pub revocation : Revocation
revocation = record {
  event = some "authority_revoked";
  revocation_id = some "rev-1";
  authority_id = some authority_name;
  candidate_id = candidate_id;
  candidate_version = version;
  decision_id = decision_id;
  promotion_decision_id = decision_id;
  status = some "REVOKED";
  issuer_id = some "pilot-rehearsal";
  reason = some "withdrawn";
  revoked_at = some "2026-01-03T00:00:00.000Z";
}

abbrev pub revoked_disk : Disk
revoked_disk = record ready_disk { events = (authority_name, holds (revocation ∷ [])) ∷ [] }

abbrev pub revoked : World
revoked = record ready { disk = revoked_disk }

abbrev pub owner : Stat
owner = record { st_uid = 0; st_gid = 0; st_mode = 493 }

abbrev pub runner : User
runner = record { uid = 1000; gids = 1000 ∷ [] }

abbrev pub place : Place
place = record {
  root = stated owner;
  parents = stated owner ∷ [];
  dirs = stated owner ∷ [];
  record_file = absent;
  snapshot = stated owner ∷ [];
}

abbrev pub system : System
system = record { user = runner; place = λ root id. place; resolve = λ s. s }

abbrev pub activation : Activation
activation = record { entry = entry; artifact_dir = "family/agent/artifact"; frozen_root = none }

abbrev pub verified : Verified
verified = record {
  authority_id = some authority_name;
  candidate_id = candidate_id;
  candidate_version = version;
  artifact_digest = artifact;
  seal_digest = none;
  verified_artifact_dir = "family/agent/artifact";
}

abbrev pub identity : Identity
identity = record {
  candidate_id = candidate_id;
  candidate_version = version;
  artifact_digest = artifact;
  seal_digest = some "sha256:payload";
}

abbrev pub expected : Expected
expected = record {
  digest = artifact;
  identity = none;
  mount_source = some "family/agent/artifact";
}
