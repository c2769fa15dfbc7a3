-- ===== src/Tests/Guard.antt =====
-- The theorems on the runtime guard at the fixtures.
use agent_capability_forge.Prelude.{
  select, none, some, [], ◌≡◌, ◌↔◌, refl, find, any, all, report, collect, lookup, get?,
}
use agent_capability_forge.Disk.{ok}
use agent_capability_forge.Admission.Spec.{AgreesIfThere}
use agent_capability_forge.Guard.{
  adopt, verify_at_mount, identity_violations, adopted_authority, file_authority, readable_record,
  ledger_guard, identity_match, artifact_of, legacy_artifact, violations_for_runtime_activation,
  activation_decision, log_violations, event_violations, binding_missing, find_authority,
}
use agent_capability_forge.Activation.Sound.{IsAdopted, adopt-IsAdopted}
use agent_capability_forge.Activation.Identity.{
  SameIdentity, identity_iff, MatchesIfGiven, MountsIfGiven, mounted-matches,
}
use agent_capability_forge.Registry.{is_canonical, dir_digest, tree_digests}
use agent_capability_forge.Validation.{
  timing_violations, later_promote, later_non_promote, non_promote, follows, predates,
  lifecycle_violations, missing_provenance, digests_disagree, find_candidate, find_lifecycle,
  find_policy, find_run, find_decision, revocable, metadata_missing, empty_provenance, empty_text,
}
use agent_capability_forge.Revocations.{revocation_violations, revocation_list_violations}
use agent_capability_forge.Ledger.{
  load_store, load_authority_record, load_authority_events, issuer_allowed, trusted_issuers,
}
use agent_capability_forge.Integrity.{
  store_integrity_mode, integrity_anchor_violations, anchor_violations,
}
use agent_capability_forge.Host.{authority_id_for, sha256}
use agent_capability_forge.Tests.Fixtures.{host, artifact}
use agent_capability_forge.Tests.Agents.{
  sealer, system, ready, activation, verified, expected, identity,
}

adopts : adopt host system sealer ready activation ≡ ok verified
unfolding adopt adopted_authority file_authority readable_record ledger_guard identity_match
    artifact_of legacy_artifact violations_for_runtime_activation activation_decision log_violations
    event_violations binding_missing find_authority is_canonical dir_digest tree_digests
    timing_violations later_promote later_non_promote non_promote follows predates
    lifecycle_violations missing_provenance digests_disagree find_candidate find_lifecycle
    find_policy find_run find_decision revocable metadata_missing empty_provenance empty_text
    revocation_violations revocation_list_violations load_store load_authority_record
    load_authority_events issuer_allowed trusted_issuers store_integrity_mode
    integrity_anchor_violations anchor_violations authority_id_for sha256 find any all report
    collect select lookup get?
adopts = refl

adopt-IsAdopted_example : IsAdopted host system sealer ready activation verified
adopt-IsAdopted_example = adopt-IsAdopted host system sealer ready activation verified adopts

mounts : verify_at_mount host system sealer ready activation expected ≡ ok verified
unfolding verify_at_mount adopt adopted_authority file_authority readable_record ledger_guard
    identity_match artifact_of legacy_artifact violations_for_runtime_activation activation_decision
    log_violations event_violations binding_missing find_authority is_canonical dir_digest
    tree_digests timing_violations later_promote later_non_promote non_promote follows predates
    lifecycle_violations missing_provenance digests_disagree find_candidate find_lifecycle
    find_policy find_run find_decision revocable metadata_missing empty_provenance empty_text
    revocation_violations revocation_list_violations load_store load_authority_record
    load_authority_events issuer_allowed trusted_issuers store_integrity_mode
    integrity_anchor_violations anchor_violations authority_id_for sha256 find any all report
    collect select lookup get?
mounts = refl

mounted-matches_example :
    (adopt host system sealer ready activation ≡ ok verified)
    × MatchesIfGiven none verified
    × AgreesIfThere artifact artifact
    × MountsIfGiven system (some "family/agent/artifact") verified
mounted-matches_example =
    mounted-matches host system sealer ready activation expected verified mounts

identity_iff_example : (identity_violations identity identity ≡ []) ↔ SameIdentity identity identity
identity_iff_example = identity_iff identity identity
