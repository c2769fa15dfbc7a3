-- ===== src/Sealed.antt =====
-- What the checks of a frozen candidate guarantee (src/forge/capabilityizer.py).
mod Layout
use agent_capability_forge.Prelude.{
  String, true, Option, none, some, List, [], ◌∷◌, ◌≡◌, refl, sym, subst, ◌!=◌, ne-false_iff,
  not-false_iff, string_eq, nat_eq, option_eq, report-nil, collect-nil, lookup, ladder-nil,
}
use agent_capability_forge.Code.{
  Code, artifact_digest_mismatch, manifest_changed_after_seal, seal_digest_mismatch,
  tests_changed_after_seal,
}
use agent_capability_forge.Records.{Text}
use agent_capability_forge.Disk.{Doc, missing, unreadable, holds, or_missing}
use agent_capability_forge.Frozen.{
  Tree, Core, FrozenRecord, Snapshot, FrozenStore, Sealer, frozen_artifact_report, manifest_digest,
  tests_digest, seal_digest, known_seal, payload_version, no_tree, tests_violations, field_tests,
  digest_blocks, verify_read, verify_candidate, verify_record, verify_frozen, verified,
  load_candidate, load_verified, check_verified, check_record, frozen_checks,
}
use agent_capability_forge.Sealed.Layout.{HasExactly, layout-HasExactly}

-- A record that matches its snapshot: identity, layout and the digests of the artifact, of the
-- manifest, of the tests and of the whole.
pub record IsSealed (s : Sealer) (r : FrozenRecord) (c : Core) (snap : Snapshot) : Type 0 where
  pub known : known_seal r ≡ true
  pub candidate_id : r.candidate_id ≡ c.candidate_id
  pub capability_id : r.capability_id ≡ c.capability_id
  pub name : r.name ≡ c.name
  pub version : r.version ≡ c.version
  pub layout : HasExactly s snap.artifact c.artifact.files
  pub artifact :
      r.artifact_digest ≡ some (frozen_artifact_report s snap.artifact c.artifact.files).digest
  pub manifest : r.manifest_digest ≡ some (manifest_digest s c.manifest)
  pub tests : Tree
  pub tests_there : snap.tests ≡ some tests
  pub tests_same : r.tests_digest ≡ some (tests_digest s tests)
  pub seal :
      r.seal_digest
      ≡ some (
          seal_digest s c
            (frozen_artifact_report s snap.artifact c.artifact.files).digest
            (tests_digest s (no_tree snap.tests))
            (payload_version r))

tests_clear :
    (s : Sealer) (o : Option Tree) (digest : Text)
    → tests_violations s o digest ≡ []
    → (t : Tree) × (o ≡ some t) × (digest ≡ some (tests_digest s t))
unfolding tests_violations
tests_clear s none digest e = cc
tests_clear s (some t) digest e =
    let p = ladder-nil (some (tests_digest s t) != digest) tests_changed_after_seal [] e in
    (t, refl, sym ((ne-false_iff (some (tests_digest s t)) digest).0 p.0))

clean-IsSealed :
    (s : Sealer) (r : FrozenRecord) (c : Core) (snap : Snapshot)
    → verify_read s r c snap ≡ []
    → IsSealed s r c snap
unfolding verify_read
clean-IsSealed s r c snap e =
    let art = frozen_artifact_report s snap.artifact c.artifact.files in
    let b = collect-nil (digest_blocks s r c snap art) e in
    let fields = report-nil (field_tests r c) b.0 in
    let digests =
      report-nil
        ((some art.digest != r.artifact_digest, artifact_digest_mismatch)
          ∷ (some (manifest_digest s c.manifest) != r.manifest_digest, manifest_changed_after_seal)
          ∷ [])
        b.1.1.0 in
    let whole : Text =
      some (seal_digest s c art.digest (tests_digest s (no_tree snap.tests)) (payload_version r)) in
    let seals = report-nil ((whole != r.seal_digest, seal_digest_mismatch) ∷ []) b.1.1.1.1.0 in
    let t = tests_clear s snap.tests r.tests_digest b.1.1.1.0 in
    record {
      known = (not-false_iff _).0 fields.0;
      candidate_id = (ne-false_iff r.candidate_id _).0 fields.1.0;
      capability_id = (ne-false_iff r.capability_id _).0 fields.1.1.0;
      name = (ne-false_iff r.name _).0 fields.1.1.1.0;
      version = (ne-false_iff r.version _).0 fields.1.1.1.1.0;
      layout = layout-HasExactly s snap.artifact c.artifact.files b.1.0;
      artifact = sym ((ne-false_iff (some art.digest) r.artifact_digest).0 digests.0);
      manifest =
          sym
            ((ne-false_iff (some (manifest_digest s c.manifest)) r.manifest_digest).0 digests.1.0);
      tests = t.0;
      tests_there = t.1;
      tests_same = t.2;
      seal = sym ((ne-false_iff whole r.seal_digest).0 seals.0);
    }

-- The record and the candidate that the checks answer, found in the store.
pub record IsFrozen (s : Sealer) (f : FrozenStore) (id : String) (r : FrozenRecord) (c : Core)
    : Type 0 where
  pub recorded : or_missing (lookup id f.records) ≡ holds r
  pub snapshot : Snapshot
  pub kept : lookup id f.snapshots ≡ some snapshot
  pub candidate : snapshot.candidate ≡ holds c
  pub sealed : IsSealed s r c snapshot

verified_record : (r q : FrozenRecord) (c b : Core) → verified r c ≡ verified q b → r ≡ q
verified_record r q c b e = cc

verified_core : (r q : FrozenRecord) (c b : Core) → verified r c ≡ verified q b → c ≡ b
verified_core r q c b e = cc

module _ (s : Sealer) (f : FrozenStore) (id : String) (r : FrozenRecord) (c : Core) where
  candidate-IsFrozen :
      (q : FrozenRecord) (snap : Snapshot) (d : Doc Core)
      → or_missing (lookup id f.records) ≡ holds q
      → lookup id f.snapshots ≡ some snap
      → snap.candidate ≡ d
      → verify_candidate s q snap d ≡ []
      → load_candidate q d ≡ verified r c
      → IsFrozen s f id r c
  unfolding verify_candidate load_candidate
  candidate-IsFrozen q snap missing a k n v e = cc
  candidate-IsFrozen q snap unreadable a k n v e = cc
  candidate-IsFrozen q snap (holds b) a k n v e =
      subst (λ x. IsFrozen s f id x c) (verified_record q r b c e)
        (subst (λ x. IsFrozen s f id q x) (verified_core q r b c e)
          (record {
            recorded = a;
            snapshot = snap;
            kept = k;
            candidate = n;
            sealed = clean-IsSealed s q b snap v;
          }))

  verified-IsFrozen :
      (q : FrozenRecord) (o : Option Snapshot) (cs : List Code)
      → or_missing (lookup id f.records) ≡ holds q
      → lookup id f.snapshots ≡ o
      → verify_record s (holds q) o ≡ cs
      → check_verified q o cs ≡ verified r c
      → IsFrozen s f id r c
  unfolding verify_record check_verified load_verified
  verified-IsFrozen q none [] a k v e = cc
  verified-IsFrozen q none (x ∷ xs) a k v e = cc
  verified-IsFrozen q (some snap) [] a k v e = candidate-IsFrozen q snap snap.candidate a k refl v e
  verified-IsFrozen q (some snap) (x ∷ xs) a k v e = cc

  record-IsFrozen :
      (d : Doc FrozenRecord)
      → or_missing (lookup id f.records) ≡ d
      → check_record s f id d ≡ verified r c
      → IsFrozen s f id r c
  unfolding check_record verify_frozen verify_record
  record-IsFrozen missing a e = cc
  record-IsFrozen unreadable a e = cc
  record-IsFrozen (holds q) a e =
      verified-IsFrozen q (lookup id f.snapshots) (verify_frozen s f id) a refl (read_back q a) e
    where
      read_back :
          (q : FrozenRecord)
          → or_missing (lookup id f.records) ≡ holds q
          → verify_record s (holds q) (lookup id f.snapshots) ≡ verify_frozen s f id
      read_back q a =
          subst (λ x. verify_record s x (lookup id f.snapshots) ≡ verify_frozen s f id) a refl

-- Whatever frozen_checks verifies is sealed: the record and the snapshot of that identifier are in
-- the store and agree in identity; the snapshot's artifact has exactly the files that the allowlist
-- names, which is not empty, repeats no name and has only relative paths that stay inside; and the
-- digests of the artifact, of the manifest, of the tests and of the whole are the recorded ones.
pub frozen_checks-IsFrozen :
    (s : Sealer) (f : FrozenStore) (id : String) (r : FrozenRecord) (c : Core)
    → frozen_checks s f id ≡ verified r c
    → IsFrozen s f id r c
unfolding frozen_checks
frozen_checks-IsFrozen s f id r c e = record-IsFrozen s f id r c _ refl e
