-- ===== src/Frozen/Verify.antt =====
-- The checks of a sealed candidate in src/forge/capabilityizer.py: verify_frozen, frozen_checks and
-- the comparisons of an evaluation and of a live candidate with a frozen one.
use agent_capability_forge.Prelude.{
  String, Bool, not, ◌&&◌, Option, none, some, List, [], ◌∷◌, ◌++◌, ◌==◌, ◌!=◌, if◌then◌else◌,
  string_eq, option_eq, nat_eq, lookup, report, collect,
}
use agent_capability_forge.Code.{
  Code, missing_frozen_candidate, frozen_candidate_incomplete, seal_schema_mismatch,
  frozen_field_changed, artifact_digest_mismatch, manifest_changed_after_seal, tests_dir_missing,
  tests_changed_after_seal, seal_digest_mismatch, evaluation_binding_mismatch,
  frozen_candidate_mismatch,
}
use agent_capability_forge.Records.{Text}
use agent_capability_forge.Disk.{Doc, missing, unreadable, holds, or_missing}
use agent_capability_forge.Frozen.Defs.{
  Tree, Manifest, Core, FrozenRecord, Snapshot, FrozenStore, Sealer,
}
use agent_capability_forge.Frozen.Equality.{manifest_eq}
use agent_capability_forge.Frozen.Layout.{
  LayoutReport, frozen_artifact_report, manifest_digest, tests_digest, seal_digest,
}

-- The three identity fields of an evaluation.
pub record Evaluation : Type 0 where
  pub evaluation_id : Text
  pub verdict : Text
  pub evaluated_at : Text
  pub candidate_id : Text
  pub artifact_digest : Text
  pub seal_digest : Text

-- Whether the record's schema and version are those of v2 or of v1.
unfoldable pub known_seal : FrozenRecord → Bool
known_seal r =
    if r.schema == some "frozen-candidate-v2"
    then r.seal_version == some "v2"
    else r.schema == some "frozen-candidate-v1" && r.seal_version == some "v1"

abbrev pub payload_version : FrozenRecord → String
payload_version r = if r.seal_version == some "v1" then "v1" else "v2"

abbrev pub no_tree : Option Tree → Tree
no_tree none = []
no_tree (some t) = t

-- The tests directory against its recorded digest.
unfoldable pub tests_violations : Sealer → Option Tree → Text → List Code
tests_violations s none digest = tests_dir_missing ∷ []
tests_violations s (some t) digest =
    if some (tests_digest s t) != digest then tests_changed_after_seal ∷ [] else []

abbrev pub field_tests : FrozenRecord → Core → List (Bool × Code)
field_tests r c =
    (not (known_seal r), seal_schema_mismatch)
    ∷ (r.candidate_id != c.candidate_id, frozen_field_changed)
    ∷ (r.capability_id != c.capability_id, frozen_field_changed)
    ∷ (r.name != c.name, frozen_field_changed)
    ∷ (r.version != c.version, frozen_field_changed)
    ∷ []

abbrev pub digest_blocks : Sealer → FrozenRecord → Core → Snapshot → LayoutReport → List (List Code)
digest_blocks s r c snap art =
    report (field_tests r c)
    ∷ art.violations
    ∷ report (
        (some art.digest != r.artifact_digest, artifact_digest_mismatch)
        ∷ (some (manifest_digest s c.manifest) != r.manifest_digest, manifest_changed_after_seal)
        ∷ [])
    ∷ tests_violations s snap.tests r.tests_digest
    ∷ report (
        (
          some (
                seal_digest s c art.digest (tests_digest s (no_tree snap.tests))
                  (payload_version r))
              != r.seal_digest,
          seal_digest_mismatch,
        )
        ∷ [])
    ∷ []

-- verify_frozen, once the record and the snapshot's candidate are read.
unfoldable pub verify_read : Sealer → FrozenRecord → Core → Snapshot → List Code
verify_read s r c snap =
    collect (digest_blocks s r c snap (frozen_artifact_report s snap.artifact c.artifact.files))

unfoldable pub verify_candidate : Sealer → FrozenRecord → Snapshot → Doc Core → List Code
verify_candidate s r snap missing = frozen_candidate_incomplete ∷ []
verify_candidate s r snap unreadable = frozen_candidate_incomplete ∷ []
verify_candidate s r snap (holds c) = verify_read s r c snap

unfoldable pub verify_record : Sealer → Doc FrozenRecord → Option Snapshot → List Code
verify_record s missing snap = missing_frozen_candidate ∷ []
verify_record s unreadable none = frozen_candidate_incomplete ∷ []
verify_record s unreadable (some snap) = frozen_candidate_incomplete ∷ []
verify_record s (holds r) none = frozen_candidate_incomplete ∷ []
verify_record s (holds r) (some snap) = verify_candidate s r snap snap.candidate

-- The violations of verify_frozen; its `ok` holds when there are none.
unfoldable pub verify_frozen : Sealer → FrozenStore → String → List Code
verify_frozen s f id = verify_record s (or_missing (lookup id f.records)) (lookup id f.snapshots)

-- The report of frozen_checks: the record and the candidate, or the violations.
pub data Checked : Type 0 where
  verified : FrozenRecord → Core → Checked
  rejected : List Code → Checked

-- The candidate of a snapshot that was verified is read once more.
unfoldable pub load_candidate : FrozenRecord → Doc Core → Checked
load_candidate r missing = rejected (frozen_candidate_incomplete ∷ [])
load_candidate r unreadable = rejected (frozen_candidate_incomplete ∷ [])
load_candidate r (holds c) = verified r c

unfoldable pub load_verified : FrozenRecord → Option Snapshot → Checked
load_verified r none = rejected (frozen_candidate_incomplete ∷ [])
load_verified r (some snap) = load_candidate r snap.candidate

unfoldable pub check_verified : FrozenRecord → Option Snapshot → List Code → Checked
check_verified r snap [] = load_verified r snap
check_verified r snap (c ∷ cs) = rejected (c ∷ cs)

unfoldable pub check_record : Sealer → FrozenStore → String → Doc FrozenRecord → Checked
check_record s f id missing = rejected (missing_frozen_candidate ∷ [])
check_record s f id unreadable = rejected (frozen_candidate_incomplete ∷ [])
check_record s f id (holds r) = check_verified r (lookup id f.snapshots) (verify_frozen s f id)

unfoldable pub frozen_checks : Sealer → FrozenStore → String → Checked
frozen_checks s f id = check_record s f id (or_missing (lookup id f.records))

unfoldable pub evaluation_binding_violations : Evaluation → FrozenRecord → List Code
evaluation_binding_violations e r = report (
    (e.candidate_id != r.candidate_id, evaluation_binding_mismatch)
    ∷ (e.artifact_digest != r.artifact_digest, evaluation_binding_mismatch)
    ∷ (e.seal_digest != r.seal_digest, evaluation_binding_mismatch)
    ∷ [])

-- The directory of a live candidate: candidate.json, manifest.json, tests/ and
-- implementation/artifact/.
pub record Live : Type 0 where
  pub candidate_id : Text
  pub name : Text
  pub source_bundle_ids : List String
  -- `none` where manifest.json cannot be read
  pub manifest : Option Manifest
  pub tests : Option Tree
  -- `none` where the directory is missing
  pub artifact : Option Tree

unfoldable pub frozen_artifact_violations : Sealer → FrozenRecord → Core → Tree → List Code
frozen_artifact_violations s r c artifact =
    let art = frozen_artifact_report s artifact c.artifact.files in
    art.violations ++ report ((some art.digest != r.artifact_digest, artifact_digest_mismatch) ∷ [])

abbrev pub live_blocks : Sealer → FrozenRecord → Core → Live → List (List Code)
live_blocks s r c live =
    report (
      (live.candidate_id != r.candidate_id, frozen_candidate_mismatch)
      ∷ (live.name != c.name, frozen_candidate_mismatch)
      ∷ (live.manifest != some c.manifest, frozen_candidate_mismatch)
      ∷ [])
    ∷ tests_violations s live.tests r.tests_digest
    ∷ frozen_artifact_violations s r c (no_tree live.artifact)
    ∷ []

unfoldable pub live_candidate_violations : Sealer → FrozenRecord → Core → Live → List Code
live_candidate_violations s r c live = collect (live_blocks s r c live)
