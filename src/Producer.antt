-- ===== src/Producer.antt =====
-- issue_authority of pilot/adoption_authority_producer.py, from the records of a proposal on: their
-- merge into the store, the validator, the ledger record, the store and its anchor.
pub mod Issued
pub mod Prepare
pub mod Confirmed
use agent_capability_forge.Prelude.{
  String, Bool, Option, none, some, List, [], ◌∷◌, ◌++◌, ◌==◌, ◌!=◌, if◌then◌else◌, Comparison, Map,
  find, lookup, insert, string_eq, option_eq,
}
use agent_capability_forge.Code.{authority_binding_mismatch}
use agent_capability_forge.Records.{
  Text, Provenance, Authority, Decision, Run, Policy, Candidate, Lifecycle, Evidence, Store,
  empty_store, provenance_eq, authority_eq, decision_eq, run_eq, policy_eq, candidate_eq,
  lifecycle_eq, evidence_eq,
}
use agent_capability_forge.Code.{Code}
use agent_capability_forge.Disk.{
  Outcome, ok, blocked, raised, holds, Disk, ◌>>=◌, ◌>>◌, refuse_if, refuse_all, or_raise,
}
use agent_capability_forge.Host.{Host, authority_id_for}
use agent_capability_forge.Integrity.{
  integrity_anchor_violations, mark_store_hardened, write_trust_anchor,
}
use agent_capability_forge.Ledger.{load_store, write_record_among}
use agent_capability_forge.Registry.{canonical_identity, refuse_report}
use agent_capability_forge.Validation.{validate}

-- The records that issue_authority has when it loads the store.
pub record Proposal : Type 0 where
  pub policy_ref : String
  pub policy : Policy
  pub candidate_id : String
  pub candidate : Candidate
  pub run : Run
  pub evidence : Evidence
  pub provenance : Provenance
  pub decision : Decision
  pub lifecycle : Lifecycle
  pub artifact_digest : Text
  pub seal_digest : Text
  pub issuer_id : Text
  pub issuer_type : Text

module _ {A : Type 0} ⦃c : Comparison A⦄ where
  -- _merge_keyed
  unfoldable pub merge_keyed : Map A → String → A → Outcome (Map A)
  merge_keyed m key r = elim (lookup key m) [
    | none ↦ ok (insert key r m)
    | some old ↦ if old != r then blocked (authority_binding_mismatch ∷ []) else ok (insert key r m)
  ]

  -- _merge_record
  unfoldable pub merge_record : (A → Text) → List A → A → Outcome (List A)
  merge_record key rs r = elim (find (λ x. key x == key r) rs) [
    | none ↦ ok (rs ++ r ∷ [])
    | some old ↦ if old != r then blocked (authority_binding_mismatch ∷ []) else ok rs
  ]

-- The seven merges, in their order; the first conflict ends them.
unfoldable pub merge_store : Proposal → Store → Outcome Store
merge_store p s = do
  policies ← merge_keyed s.policies p.policy_ref p.policy
  candidates ← merge_keyed s.candidates p.candidate_id p.candidate
  runs ← merge_record (λ (r : Run). r.run_id) s.runs p.run
  evidence ← merge_record (λ (e : Evidence). e.evidence_id) s.evidence p.evidence
  provenance ← merge_keyed s.provenance p.candidate_id p.provenance
  decisions ← merge_record (λ (d : Decision). d.decision_id) s.decisions p.decision
  lifecycle ← merge_keyed s.lifecycle p.candidate_id p.lifecycle
  ok (record s {
    policies = policies;
    candidates = candidates;
    runs = runs;
    evidence = evidence;
    provenance = provenance;
    decisions = decisions;
    lifecycle = lifecycle;
  })

-- `if seal_digest is not None: authority["artifact_identity"] = ...`
abbrev pub identity_for : Text → Text
identity_for none = none
identity_for (some d) = some canonical_identity

unfoldable pub authority_for : Host → Proposal → Authority
authority_for h p = record {
  authority_id = some (
      authority_id_for h p.decision.candidate_id p.decision.candidate_version
        p.decision.decision_id);
  candidate_id = p.decision.candidate_id;
  candidate_version = p.decision.candidate_version;
  promotion_decision_id = p.decision.decision_id;
  evaluation_run_id = p.decision.run_id;
  policy_version = p.decision.policy_version;
  artifact_digest = p.decision.artifact_digest;
  provenance = some p.provenance;
  issued_at = p.decision.created_at;
  status = some "ISSUED";
  issuer_id = p.issuer_id;
  issuer_type = p.issuer_type;
  decision_id = p.decision.decision_id;
  artifact_identity = identity_for p.seal_digest;
  seal_digest = p.seal_digest;
}

-- The anchor is checked where there is a store.
abbrev pub loaded_violations : Host → Disk → Option Store → List Code
loaded_violations h d none = []
loaded_violations h d (some s) = integrity_anchor_violations h s d

abbrev pub or_empty : Option Store → Store
or_empty none = empty_store
or_empty (some s) = s

-- All checks before the first write, with the merged store.
unfoldable pub issue_checks : Host → Proposal → Disk → Outcome Store
issue_checks h p d = do
  loaded ← or_raise (load_store d)
  refuse_all (loaded_violations h d loaded)
  s ← merge_store p (or_empty loaded)
  refuse_report (validate h (authority_for h p) s p.artifact_digest (some d))
  ok s

-- The authority that the store has under the identifier, and the list with it.
unfoldable pub list_authority : Authority → List Authority → Outcome (List Authority)
list_authority a listed = merge_record (λ (x : Authority). x.authority_id) listed a

abbrev pub answer_issued : Authority → Outcome (Unit {0}) × Disk → Outcome Authority × Disk
answer_issued a (ok u, d) = (ok a, d)
answer_issued a (blocked cs, d) = (blocked cs, d)
answer_issued a (raised, d) = (raised, d)

-- The store file and its anchor.
unfoldable pub write_store :
    Host → Authority → Store → Outcome (List Authority) → Disk → Outcome Authority × Disk
write_store h a s (ok listed) d =
    let t = mark_store_hardened h (record s { authorities = listed }) in
    answer_issued a (write_trust_anchor h (some t) Bool.false (record d { store = holds t }))
write_store h a s (blocked cs) d = (blocked cs, d)
write_store h a s raised d = (raised, d)

-- Behind the ledger record.
unfoldable pub issue_recorded :
    Host → Authority → Store → Outcome (Unit {0}) × Disk → Outcome Authority × Disk
issue_recorded h a s (ok u, d) = write_store h a s (list_authority a s.authorities) d
issue_recorded h a s (blocked cs, d) = (blocked cs, d)
issue_recorded h a s (raised, d) = (raised, d)

-- `others` is what other processes do while the ledger record is written.
unfoldable pub issue_checked :
    (Disk → Disk) → Host → Proposal → Outcome Store → Disk → Outcome Authority × Disk
issue_checked others h p (ok s) d =
    let a = authority_for h p in issue_recorded h a s (write_record_among others a.authority_id a d)
issue_checked others h p (blocked cs) d = (blocked cs, d)
issue_checked others h p raised d = (raised, d)

unfoldable pub issue : (Disk → Disk) → Host → Proposal → Disk → Outcome Authority × Disk
issue others h p d = issue_checked others h p (issue_checks h p d) d
