-- ===== src/Tests/Registry.antt =====
-- The theorems on promote at the fixtures.
use agent_capability_forge.Prelude.{
  ap, some, ◌≡◌, ◌≢◌, refl, find, any, all, report, collect, select, lookup, get?, insert,
}
use agent_capability_forge.Disk.{Outcome, Doc, missing, holds, ok}
use agent_capability_forge.Registry.{
  World, Entry, locator_of, entry_at, promote, promote_checked, promote_checks, identity_guards,
  is_canonical, actual_digest, dir_digest, tree_digests, issued_guard, existing_entry, put_entry,
  on_entry, create_entry, write_entry, link_entry, copy_artifact, entry_of, capability_for,
}
use agent_capability_forge.Promotion.Checks.{IsAdmitted, promoted-IsAdmitted}
use agent_capability_forge.Promotion.Again.{promote_again}
use agent_capability_forge.Promotion.Written.{Publishes, promote-Publishes, promote-keeps_entry}
use agent_capability_forge.Validation.{
  validate, violations_for_authority, decision_violations, timing_violations, later_promote,
  later_non_promote, non_promote, follows, predates, lifecycle_violations, missing_provenance,
  digests_disagree, find_candidate, find_lifecycle, find_policy, find_run, find_decision,
  root_violations, ledger_violations, ledger_file_violations, revocable, metadata_missing,
  empty_provenance, empty_text,
}
use agent_capability_forge.Revocations.{revocation_violations, revocation_list_violations}
use agent_capability_forge.Ledger.{
  load_store, load_authority_record, load_authority_events, issuer_allowed, trusted_issuers,
}
use agent_capability_forge.Integrity.{
  store_integrity_mode, integrity_anchor_violations, anchor_violations,
}
use agent_capability_forge.Host.{authority_id_for, sha256}
use agent_capability_forge.Tests.Fixtures.{host, authority}
use agent_capability_forge.Tests.Agents.{sealer, promotion, world, published, entry}

promotes_whole :
    promote (λ w. w) host sealer promotion (some authority) world ≡ (ok entry, published)
unfolding promote promote_checked promote_checks identity_guards is_canonical actual_digest
    dir_digest tree_digests issued_guard locator_of existing_entry entry_at put_entry on_entry
    create_entry write_entry link_entry copy_artifact entry_of capability_for validate
    violations_for_authority decision_violations timing_violations later_promote later_non_promote
    non_promote follows predates lifecycle_violations missing_provenance digests_disagree
    find_candidate find_lifecycle find_policy find_run find_decision root_violations
    ledger_violations ledger_file_violations revocable metadata_missing empty_provenance empty_text
    revocation_violations revocation_list_violations load_store load_authority_record
    load_authority_events issuer_allowed trusted_issuers store_integrity_mode
    integrity_anchor_violations anchor_violations authority_id_for sha256 find any all report
    collect select lookup get? insert
promotes_whole = refl

promotes_fixture : (promote (λ w. w) host sealer promotion (some authority) world).0 ≡ ok entry
promotes_fixture = ap (λ (x : Outcome Entry × World). x.0) promotes_whole

promoted-IsAdmitted_example : IsAdmitted host sealer world promotion authority
promoted-IsAdmitted_example =
    promoted-IsAdmitted (λ w. w) host sealer promotion authority world entry promotes_fixture

promote-Publishes_example :
    Publishes authority "family/agent"
      (promote (λ w. w) host sealer promotion (some authority) world)
promote-Publishes_example = promote-Publishes (λ w. w) host sealer promotion authority world

holds-ne_missing : (e : Entry) → ◌≢◌ {A = Doc Entry} (holds e) missing
holds-ne_missing e p = cc

entry_there : entry_at published "family/agent" (locator_of authority) ≢ missing
unfolding entry_at lookup locator_of is_canonical
entry_there = holds-ne_missing entry

promote-keeps_entry_example :
    (promote (λ w. world) host sealer promotion (some authority) published).1 ≡ published
promote-keeps_entry_example =
    promote-keeps_entry (λ w. world) host sealer promotion authority published entry_there

promote_again_example :
    promote (λ w. world) host sealer promotion (some authority) published ≡ (ok entry, published)
promote_again_example =
    promote_again (λ w. w) (λ w. world) host sealer promotion authority world entry published.agents
      published.artifacts promotes_whole
