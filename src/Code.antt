-- ===== src/Code.antt =====
-- The violation codes of the adoption control plane (pilot/adoption_authority.py,
-- pilot/registry.py, pilot/runtime_adoption_guard.py, pilot/adoption_authority_producer.py and
-- src/forge/capabilityizer.py). The program writes each violation as a dict of a code and a message;
-- only the code is kept here, since nothing reads the message.
pub data Code : Type 0 where
  request_metadata_missing authority_id_mismatch authority_binding_mismatch : Code
  untrusted_issuer integrity_store_corrupted revoked_decision missing_decision : Code
  decision_not_promote gate_not_pass run_mismatch run_missing candidate_id_mismatch : Code
  candidate_version_mismatch policy_version_mismatch policy_not_registered : Code
  policy_not_frozen run_policy_mismatch artifact_digest_mismatch provenance_incomplete : Code
  decision_tampered evidence_tampered missing_lifecycle candidate_rejected : Code
  invalid_lifecycle authority_issued_at_mismatch missing_decision_timestamp : Code
  stale_decision invalid_revocation_record revocation_record_conflict : Code
  trust_anchor_config_invalid trust_anchor_already_exists trust_anchor_corrupted : Code
  missing_adoption_store missing_authority invalid_authority_status : Code
  canonical_candidate_requires_frozen_root canonical_identity_missing : Code
  artifact_identity_mismatch canonical_identity_mismatch unissued_authority : Code
  entry_binding_conflict registry_state_not_promoted entry_binding_missing : Code
  entry_binding_mismatch missing_identity seal_digest_mismatch missing_run_request : Code
  run_request_cache_mismatch missing_frozen_candidate runtime_binding_mismatch : Code
  human_confirm_missing evaluation_missing evaluation_not_pass : Code
  candidate_metadata_missing evaluation_binding_mismatch frozen_candidate_mismatch : Code
  tests_dir_missing tests_changed_after_seal artifact_allowlist_missing : Code
  artifact_allowlist_duplicate artifact_allowlist_path_invalid : Code
  artifact_allowlist_file_missing undeclared_artifact_file frozen_candidate_incomplete : Code
  seal_schema_mismatch frozen_field_changed manifest_changed_after_seal : Code
  version_binding_mismatch name_binding_mismatch candidate_id_missing : Code
  artifact_ref_binding_mismatch manifest_forged_digest_missing : Code
  artifact_digest_semantics_conflict request_id_binding_mismatch : Code
  source_revision_binding_mismatch capability_id_format frozen_candidate_conflict : Code
  frozen_candidate_deleted tests_digest_mismatch : Code
  execution_snapshot_store_missing execution_snapshot_owner_isolation_required : Code
  execution_snapshot_store_path_writable execution_snapshot_writable : Code
  candidate_not_frozen registry_entry_missing legacy_migration_required authority_missing : Code
  version_revoked run_request_mismatch authority_mismatch version_conflict : Code
  invalid_desired_state version_not_found agent_version_mismatch deployment_not_found : Code
  revoked_terminal snapshot_binding_mismatch snapshot_invalid instance_not_found : Code
