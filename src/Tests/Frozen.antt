-- ===== src/Tests/Frozen.antt =====
-- A frozen candidate that verifies.
use agent_capability_forge.Prelude.{
  some, none, [], ◌∷◌, ◌≡◌, refl, any, select, lookup, insert, report, collect,
}
use agent_capability_forge.Disk.{holds}
use agent_capability_forge.Frozen.{
  Core, FrozenRecord, FrozenStore, verified, repeats, invalid_path, entry_violations, wanted,
  undeclared, sha256_bytes, file_digests, artifact_layout, canonical_artifact_digest,
  frozen_artifact_report, manifest_digest, tests_digest, seal_digest, known_seal, tests_violations,
  verify_read, verify_candidate, verify_record, verify_frozen, load_candidate, load_verified,
  check_verified, check_record, frozen_checks,
}
use agent_capability_forge.Sealed.{IsFrozen, frozen_checks-IsFrozen}
use agent_capability_forge.Tests.Agents.{sealer, manifest, files}

abbrev core : Core
core = record {
  candidate_id = some "cand-1";
  capability_id = some "cap-1";
  name = some "agent";
  version = some 1;
  resolved_revision = none;
  requester_id = none;
  request_id = none;
  created_at = none;
  artifact = record {
    artifact_digest = some "sha256:files";
    artifact_ref = none;
    files = some ("main.py" ∷ []);
  };
  manifest = manifest;
}

abbrev frozen_record : FrozenRecord
frozen_record = record {
  schema = some "frozen-candidate-v2";
  seal_version = some "v2";
  candidate_id = some "cand-1";
  capability_id = some "cap-1";
  name = some "agent";
  version = some 1;
  artifact_digest = some "sha256:files";
  manifest_digest = some "sha256:manifest";
  tests_digest = some "sha256:files";
  seal_digest = some "sha256:payload";
}

abbrev pub frozen_store : FrozenStore
frozen_store = record {
  records = ("cand-1", holds frozen_record) ∷ [];
  snapshots =
      ("cand-1", record { candidate = holds core; artifact = files; tests = some files }) ∷ [];
}

pub verifies : frozen_checks sealer frozen_store "cand-1" ≡ verified frozen_record core
unfolding frozen_checks check_record check_verified load_verified load_candidate verify_frozen
    verify_record verify_candidate verify_read tests_violations known_seal seal_digest tests_digest
    manifest_digest frozen_artifact_report canonical_artifact_digest artifact_layout file_digests
    sha256_bytes undeclared wanted entry_violations invalid_path repeats any select lookup insert
    report collect
verifies = refl

frozen_checks-IsFrozen_example : IsFrozen sealer frozen_store "cand-1" frozen_record core
frozen_checks-IsFrozen_example =
    frozen_checks-IsFrozen sealer frozen_store "cand-1" frozen_record core verifies
