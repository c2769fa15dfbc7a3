-- ===== src/Tests/Admission.antt =====
-- Runs of the validator and of a revocation, and the theorems on them at the fixtures.
use agent_capability_forge.Prelude.{
  true, false, some, [], ◌≡◌, ◌≢◌, inl, refl, find, any, all, report, collect, select, lookup, get?,
}
use agent_capability_forge.Disk.{ok}
use agent_capability_forge.Host.{authority_id_for}
use agent_capability_forge.Integrity.{store_integrity_mode}
use agent_capability_forge.Ledger.{
  trusted_issuers, issuer_allowed, load_authority_record, load_authority_events,
}
use agent_capability_forge.Revocations.{revocation_violations, revocation_list_violations}
use agent_capability_forge.Validation.{
  empty_text, empty_provenance, metadata_missing, revocable, ledger_file_violations,
  ledger_violations, root_violations, find_decision, find_run, find_policy, find_lifecycle,
  find_candidate, digests_disagree, missing_provenance, lifecycle_violations, predates, follows,
  non_promote, later_promote, later_non_promote, timing_violations, decision_violations,
  violations_for_authority, validate,
}
use agent_capability_forge.Admission.Spec.{IsBacked, LedgerAgrees}
use agent_capability_forge.Admission.Sound.{allowed-IsBacked, allowed-LedgerAgrees}
use agent_capability_forge.Revoke.Effects.{IsRevoked}
use agent_capability_forge.Revoke.Blocks.{revoked-refused}
use agent_capability_forge.Guard.{violations_for_runtime_activation, adopt}
use agent_capability_forge.Activation.Exclusive.{allowed-not_active, revoked-not_adopted}
use agent_capability_forge.Tests.Fixtures.{host, authority, authority_name, store, artifact, disk}
use agent_capability_forge.Tests.Agents.{
  sealer, entry, ready_disk, revoked_disk, revoked, system, activation, verified,
}

-- The whole validator, opened.
runs : (validate host authority store artifact (some disk)).allowed ≡ true
unfolding validate violations_for_authority decision_violations timing_violations later_promote
    later_non_promote non_promote follows predates lifecycle_violations missing_provenance
    digests_disagree find_candidate find_lifecycle find_policy find_run find_decision
    root_violations ledger_violations ledger_file_violations revocable metadata_missing
    empty_provenance empty_text revocation_violations revocation_list_violations
    load_authority_record load_authority_events issuer_allowed trusted_issuers store_integrity_mode
    authority_id_for find any all report collect select lookup get?
runs = refl

allowed-IsBacked_example : IsBacked host authority store artifact
allowed-IsBacked_example = allowed-IsBacked host authority store artifact (some disk) runs

allowed-LedgerAgrees_example : LedgerAgrees authority store disk authority_name
unfolding authority_id_for
allowed-LedgerAgrees_example = allowed-LedgerAgrees host authority store artifact disk runs

fixture-IsRevoked : IsRevoked authority_name revoked_disk
unfolding load_authority_events revocable lookup
fixture-IsRevoked = inl refl

revoked-refused_example :
    (validate host authority store artifact (some revoked_disk)).allowed ≡ false
revoked-refused_example =
    revoked-refused host authority store artifact revoked_disk authority_name refl fixture-IsRevoked

allowed-not_active_example :
    violations_for_runtime_activation host entry (some authority) store artifact (some ready_disk)
    ≢ []
allowed-not_active_example =
    allowed-not_active host entry authority store artifact artifact (some disk) ready_disk runs

revoked-not_adopted_example : adopt host system sealer revoked activation ≢ ok verified
revoked-not_adopted_example =
    revoked-not_adopted host system sealer revoked activation verified authority_name
      fixture-IsRevoked refl
