-- ===== src/Activation/Spec.antt =====
-- What it means that an entry may be activated, said without the guard's tests.
use agent_capability_forge.Prelude.{String, false, some, List, ◌≡◌, All}
use agent_capability_forge.Records.{
  Text, Authority, Decision, Run, Policy, Lifecycle, Revocation, Store,
}
use agent_capability_forge.Disk.{Disk}
use agent_capability_forge.Host.{Host}
use agent_capability_forge.Ledger.{load_authority_events}
use agent_capability_forge.Validation.{
  find_decision, find_run, find_policy, find_lifecycle, find_candidate, revocable,
}
use agent_capability_forge.Admission.Spec.{
  IsComplete, DecisionBinds, PolicyBinds, DigestBinds, IsUntampered, Spares, IsCurrent,
}
use agent_capability_forge.Registry.{Adoption, Entry, or_no_adoption}

-- The adoption block of the entry is the authority's.
pub record Binds (b : Adoption) (a : Authority) : Type 0 where
  pub candidate_id : b.candidate_id ≡ a.candidate_id
  pub candidate_version : b.candidate_version ≡ a.candidate_version
  pub promotion_decision_id : b.promotion_decision_id ≡ a.promotion_decision_id
  pub evaluation_run_id : b.evaluation_run_id ≡ a.evaluation_run_id
  pub policy_version : b.policy_version ≡ a.policy_version
  pub artifact_digest : b.artifact_digest ≡ a.artifact_digest
  pub provenance : b.provenance ≡ a.provenance

-- The store and the event log allow to run the artifact with digest `actual` for the entry.
pub record IsActive (h : Host) (e : Entry) (a : Authority) (s : Store) (actual : Text) (disk : Disk)
    : Type 0 where
  pub promoted : e.state ≡ some "promoted"
  pub bound : Binds (or_no_adoption e.adoption) a
  pub complete : IsComplete h a
  pub standing : revocable a.status ≡ false
  pub id : String
  pub named : a.authority_id ≡ some id
  pub events : List Revocation
  pub events_read : load_authority_events disk id ≡ some events
  pub unrevoked : All (λ (x : Revocation). revocable x.status ≡ false) events
  pub decision : Decision
  pub decision_found : find_decision s a.promotion_decision_id ≡ some decision
  pub run : Run
  pub run_found : find_run s decision.run_id ≡ some run
  pub policy : Policy
  pub policy_found : find_policy s decision.policy_ref ≡ some policy
  pub binds : DecisionBinds a decision run (find_candidate s a.candidate_id)
  pub policy_binds : PolicyBinds a decision run policy
  pub digest_binds : DigestBinds a decision run (find_candidate s a.candidate_id) actual
  pub untampered : IsUntampered a decision s
  pub lifecycle : Lifecycle
  pub lifecycle_found : find_lifecycle s a.candidate_id ≡ some lifecycle
  pub status : lifecycle.status ≡ some "PROMOTED"
  pub spared : All (Spares a.candidate_id a.candidate_version decision.decision_id) s.revocations
  pub current : IsCurrent a decision (find_candidate s a.candidate_id) s
