-- ===== src/Guard/Binding.antt =====
-- violations_for_runtime_activation of pilot/runtime_adoption_guard.py. Its blocks on the decision,
-- the run, the policy and the timestamps are the text of the validator's and share its tests; the
-- entry's binding, the event log, the digest of the entry and the expected lifecycle are its own.
use agent_capability_forge.Prelude.{
  Bool, not, ◌||◌, Option, none, some, List, [], ◌∷◌, ◌==◌, ◌!=◌, if◌then◌else◌, string_eq,
  option_eq, any, find, report, collect, conj,
}
use agent_capability_forge.Code.{
  Code, registry_state_not_promoted, entry_binding_missing, missing_authority,
  request_metadata_missing, authority_id_mismatch, authority_binding_mismatch, untrusted_issuer,
  revoked_decision, entry_binding_mismatch, missing_decision, artifact_digest_mismatch,
  provenance_incomplete, decision_tampered, evidence_tampered,
}
use agent_capability_forge.Records.{
  Text, Authority, Decision, Run, Policy, Candidate, Lifecycle, Revocation, Store,
}
use agent_capability_forge.Disk.{Disk}
use agent_capability_forge.Host.{Host, authority_id_for}
use agent_capability_forge.Ledger.{is_empty, issuer_allowed, load_authority_events}
use agent_capability_forge.Revocations.{revocation_violations}
use agent_capability_forge.Validation.{
  empty_text, empty_provenance, metadata_missing, conflicts, revocable, find_decision, find_run,
  find_policy, find_lifecycle, find_candidate, decision_tests, candidate_tests, policy_tests,
  run_digest, digests_disagree, missing_provenance, tampered, lifecycle_violations,
  timing_violations,
}
use agent_capability_forge.Registry.{Adoption, Entry, binding_tests, or_no_adoption}

-- Whether one of BINDING_KEYS is missing from the entry.
unfoldable pub binding_missing : Adoption → Bool
binding_missing b =
    empty_text b.candidate_id
    || empty_text b.candidate_version
    || empty_text b.promotion_decision_id
    || empty_text b.evaluation_run_id
    || empty_text b.policy_version
    || empty_text b.artifact_digest
    || empty_provenance b.provenance

abbrev pub entry_tests : Entry → List (Bool × Code)
entry_tests e =
    (e.state != some "promoted", registry_state_not_promoted)
    ∷ (binding_missing (or_no_adoption e.adoption), entry_binding_missing)
    ∷ []

abbrev pub issued_tests : Host → Authority → List (Bool × Code)
issued_tests h a =
    (metadata_missing a, request_metadata_missing)
    ∷ (
      a.authority_id
          != some (authority_id_for h a.candidate_id a.candidate_version a.promotion_decision_id),
      authority_id_mismatch,
    )
    ∷ (conflicts a.decision_id a.promotion_decision_id, authority_binding_mismatch)
    ∷ (not (issuer_allowed h a.issuer_id), untrusted_issuer)
    ∷ []

-- The event log; one that cannot be read is a violation and counts as empty.
unfoldable pub event_violations : Option (List Revocation) → List Code
event_violations none = authority_binding_mismatch ∷ []
event_violations (some es) =
    report ((any (λ (e : Revocation). revocable e.status) es, revoked_decision) ∷ [])

unfoldable pub log_violations : Text → Option Disk → List Code
log_violations none root = []
log_violations (some id) none = []
log_violations (some id) (some d) =
    if id == "" then [] else event_violations (load_authority_events d id)

abbrev pub mismatch_tests : Entry → Authority → List (Bool × Code)
mismatch_tests e a =
    (not (conj (binding_tests (or_no_adoption e.adoption) a)), entry_binding_mismatch) ∷ []

abbrev pub activation_decision_tests : Authority → Decision → Option Run → List (Bool × Code)
activation_decision_tests a d run = decision_tests a d run

abbrev pub activation_candidate_tests :
    Authority → Decision → Option Run → Candidate → List (Bool × Code)
activation_candidate_tests a d run c = candidate_tests a d run c

abbrev pub activation_policy_tests :
    Authority → Decision → Option Run → Option Policy → List (Bool × Code)
activation_policy_tests a d run policy = policy_tests a d run policy

-- The six digests, the provenance and the hashes.
abbrev pub activation_content_tests :
    Authority → Decision → Option Run → Candidate → Adoption → Store → Text → List (Bool × Code)
activation_content_tests a d run c b s actual =
    (
      digests_disagree a.artifact_digest (
          d.artifact_digest
          ∷ run_digest run
          ∷ c.forged_artifact_digest
          ∷ b.artifact_digest
          ∷ actual
          ∷ []),
      artifact_digest_mismatch,
    )
    ∷ (not (is_empty (missing_provenance a.provenance d.run_id)), provenance_incomplete)
    ∷ (d.recorded_hash != d.current_hash, decision_tampered)
    ∷ (any (tampered d.run_id) s.evidence, evidence_tampered)
    ∷ []

-- Activation wants the lifecycle PROMOTED.
abbrev pub activation_lifecycle : Option Lifecycle → List Code
activation_lifecycle l = lifecycle_violations (some "PROMOTED") l

abbrev pub status_tests : Authority → List (Bool × Code)
status_tests a = (revocable a.status, revoked_decision) ∷ []

abbrev pub activation_timing : Authority → Decision → Candidate → Store → List Code
activation_timing a d c s = timing_violations a d c s

-- The blocks behind a decision that was found.
abbrev pub activation_blocks :
    Authority
    → Decision
    → Option Run
    → Option Policy
    → Candidate
    → Adoption
    → Store
    → Text
    → List (List Code)
activation_blocks a d run policy c b s actual =
    report (activation_decision_tests a d run)
    ∷ report (activation_candidate_tests a d run c)
    ∷ report (activation_policy_tests a d run policy)
    ∷ report (activation_content_tests a d run c b s actual)
    ∷ activation_lifecycle (find_lifecycle s a.candidate_id)
    ∷ report (status_tests a)
    ∷ revocation_violations s a.candidate_id a.candidate_version d.decision_id
    ∷ activation_timing a d c s
    ∷ []

unfoldable pub activation_decision :
    Adoption → Authority → Store → Text → Option Decision → List Code
activation_decision b a s actual none = missing_decision ∷ []
activation_decision b a s actual (some d) = collect (
    activation_blocks a d (find_run s d.run_id) (find_policy s d.policy_ref)
      (find_candidate s a.candidate_id) b s actual)

abbrev pub activation_authority_blocks :
    Host → Entry → Authority → Store → Text → Option Disk → List (List Code)
activation_authority_blocks h e a s actual root =
    report (entry_tests e)
    ∷ report (issued_tests h a)
    ∷ log_violations a.authority_id root
    ∷ report (mismatch_tests e a)
    ∷ activation_decision (or_no_adoption e.adoption) a s actual
        (find_decision s a.promotion_decision_id)
    ∷ []

unfoldable pub violations_for_runtime_activation :
    Host → Entry → Option Authority → Store → Text → Option Disk → List Code
violations_for_runtime_activation h e none s actual root =
    collect (report (entry_tests e) ∷ (missing_authority ∷ []) ∷ [])
violations_for_runtime_activation h e (some a) s actual root =
    collect (activation_authority_blocks h e a s actual root)

-- `_authority`: the first authority of the decision in the store.
unfoldable pub find_authority : Store → Text → Option Authority
find_authority s id = find (λ (a : Authority). a.promotion_decision_id == id) s.authorities
