-- ===== src/Admission/Spec.antt =====
-- What it means that an authority may be adopted, said without the validator's tests: every record
-- that the adoption rests on is there, and they all name the same candidate, version, run, policy
-- and artifact.
use agent_capability_forge.Prelude.{
  String, true, false, Option, none, some, List, [], ◌≡◌, ◌≢◌, All, Exists,
}
use agent_capability_forge.Records.{
  Text, Provenance, Authority, Decision, Run, Policy, Candidate, Transition, Lifecycle, Evidence,
  Revocation, Store,
}
use agent_capability_forge.Disk.{Disk}
use agent_capability_forge.Host.{Host, authority_id_for}
use agent_capability_forge.Integrity.{hardened_mode}
use agent_capability_forge.Ledger.{issuer_allowed, load_authority_record, load_authority_events}
use agent_capability_forge.Revocations.{canonical, normalize_revocation_record}
use agent_capability_forge.Validation.{
  no_provenance, find_decision, find_run, find_policy, find_lifecycle, find_candidate,
  missing_provenance, predates, follows, non_promote, revocable,
}

-- A text that is there and not empty.
abbrev pub Filled : Text → Type 0
Filled t = (x : String) × (t ≡ some x) × (x ≢ "")

abbrev pub FilledProvenance : Option Provenance → Type 0
FilledProvenance p = (x : Provenance) × (p ≡ some x) × (x ≢ no_provenance)

-- A field that, where it is there, equals another.
abbrev pub AgreesIfThere : Text → Text → Type 0
AgreesIfThere none y = Unit
AgreesIfThere (some x) y = some x ≡ y

-- The authority is complete, names itself as its producer would, and comes from an allowed issuer.
pub record IsComplete (h : Host) (a : Authority) : Type 0 where
  pub candidate_id : Filled a.candidate_id
  pub candidate_version : Filled a.candidate_version
  pub promotion_decision_id : Filled a.promotion_decision_id
  pub evaluation_run_id : Filled a.evaluation_run_id
  pub policy_version : Filled a.policy_version
  pub artifact_digest : Filled a.artifact_digest
  pub provenance : FilledProvenance a.provenance
  pub authority_id :
      a.authority_id
      ≡ some (authority_id_for h a.candidate_id a.candidate_version a.promotion_decision_id)
  pub decision_id : AgreesIfThere a.decision_id a.promotion_decision_id
  pub issuer : issuer_allowed h a.issuer_id ≡ true

-- The decision promotes this candidate, in the run that the authority names.
pub record DecisionBinds (a : Authority) (d : Decision) (r : Run) (c : Candidate) : Type 0 where
  pub promotes : d.value ≡ some "PROMOTE"
  pub gate : d.gate_result ≡ some "PASS"
  pub run : a.evaluation_run_id ≡ d.run_id
  pub decision_candidate : a.candidate_id ≡ d.candidate_id
  pub run_candidate : a.candidate_id ≡ r.candidate_id
  pub decision_version : a.candidate_version ≡ d.candidate_version
  pub candidate_version : a.candidate_version ≡ c.version
  pub run_version : a.candidate_version ≡ r.candidate_version

-- The policy is registered and frozen, and is the one of the decision and of the run.
pub record PolicyBinds (a : Authority) (d : Decision) (r : Run) (p : Policy) : Type 0 where
  pub decision_version : a.policy_version ≡ d.policy_version
  pub registered : p.registered ≡ some true
  pub frozen : p.frozen ≡ some true
  pub run_ref : r.policy_ref ≡ d.policy_ref
  pub run_version : r.policy_version ≡ d.policy_version
  pub policy_version : r.policy_version ≡ p.version

-- One artifact: five digests that are one text, which is not empty.
pub record DigestBinds (a : Authority) (d : Decision) (r : Run) (c : Candidate) (actual : Text)
    : Type 0 where
  pub authority : Filled a.artifact_digest
  pub decision : d.artifact_digest ≡ a.artifact_digest
  pub run : r.artifact_digest ≡ a.artifact_digest
  pub candidate : c.forged_artifact_digest ≡ a.artifact_digest
  pub artifact : actual ≡ a.artifact_digest

-- Nothing that the decision rests on has been altered since it was recorded.
pub record IsUntampered (a : Authority) (d : Decision) (s : Store) : Type 0 where
  pub provenance : missing_provenance a.provenance d.run_id ≡ []
  pub decision : d.recorded_hash ≡ d.current_hash
  pub evidence :
      All (λ (e : Evidence). e.run_id ≡ d.run_id → e.recorded_hash ≡ e.current_hash) s.evidence

-- The candidate can still make the transition to PROMOTED.
pub record IsPromotable (s : Store) (id : Text) : Type 0 where
  pub lifecycle : Lifecycle
  pub found : find_lifecycle s id ≡ some lifecycle
  pub status : lifecycle.status ≡ some "PROMOTABLE"
  pub transition :
      Exists
        (λ (t : Transition). (t.source ≡ some "PROMOTABLE") × (t.target ≡ some "PROMOTED"))
        lifecycle.transitions

-- A revocation record that can be read and does not revoke this decision on this candidate.
abbrev pub Spares : Text → Text → Text → Option Revocation → Type 0
Spares id version decision_id none = ⊥
Spares id version decision_id (some r) =
    (c : Text) × (normalize_revocation_record (some r) ≡ canonical c)
    × ¬ ((r.candidate_id ≡ id) × (r.candidate_version ≡ version) × (c ≡ decision_id))

-- The decision has a timestamp, which the authority repeats, and no decision on the same candidate
-- and version overrides it.
pub record IsCurrent (a : Authority) (d : Decision) (c : Candidate) (s : Store) : Type 0 where
  pub issued : AgreesIfThere a.issued_at d.created_at
  pub created : Filled d.created_at
  pub fresh : predates d c ≡ false
  pub last :
      All
        (λ (e : Decision).
          follows a.candidate_id a.candidate_version d e ≡ true
          → (e.value ≢ some "PROMOTE") × (non_promote e.value ≡ false))
        s.decisions

-- A hardened store has its ledger directory, and the ledger's files for the authority can be read,
-- hold no other record of it and no revocation.
abbrev pub SameIfThere : Option Authority → Authority → Type 0
SameIfThere none a = Unit
SameIfThere (some r) a = r ≡ a

pub record LedgerAgrees (a : Authority) (s : Store) (d : Disk) (id : String) : Type 0 where
  pub directory : s.metadata.integrity_mode ≡ some hardened_mode → d.has_ledger ≡ true
  pub kept : Option Authority
  pub kept_read : load_authority_record d id ≡ some kept
  pub same : SameIfThere kept a
  pub events : List Revocation
  pub events_read : load_authority_events d id ≡ some events
  pub unrevoked : All (λ (e : Revocation). revocable e.status ≡ false) events

-- The store backs the adoption of the artifact with digest `actual` under this authority.
pub record IsBacked (h : Host) (a : Authority) (s : Store) (actual : Text) : Type 0 where
  pub complete : IsComplete h a
  pub decision : Decision
  pub decision_found : find_decision s a.promotion_decision_id ≡ some decision
  pub run : Run
  pub run_found : find_run s decision.run_id ≡ some run
  pub policy : Policy
  pub policy_found : find_policy s decision.policy_ref ≡ some policy
  pub binds : DecisionBinds a decision run (find_candidate s a.candidate_id)
  pub policy_binds : PolicyBinds a decision run policy
  pub digest_binds : DigestBinds a decision run (find_candidate s a.candidate_id) actual
  pub untampered : IsUntampered a decision s
  pub promotable : IsPromotable s a.candidate_id
  pub spared : All (Spares a.candidate_id a.candidate_version decision.decision_id) s.revocations
  pub current : IsCurrent a decision (find_candidate s a.candidate_id) s
