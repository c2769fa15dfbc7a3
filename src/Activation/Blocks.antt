-- ===== src/Activation/Blocks.antt =====
-- The guard's own blocks, read back: no code means that the description holds.
use agent_capability_forge.Prelude.{
  String, true, false, Option, none, some, List, [], ◌∷◌, ◌≡◌, ◌≢◌, refl, arith, ==_iff,
  ne-false_iff, not-false_iff, string_eq, option_eq, report, report-nil, any, any-false, All,
  All-map, conj, conj-true,
}
use agent_capability_forge.Code.{revoked_decision}
use agent_capability_forge.Records.{
  Text, Authority, Decision, Run, Candidate, Revocation, Store, provenance_eq,
}
use agent_capability_forge.Disk.{Disk}
use agent_capability_forge.Ledger.{load_authority_events}
use agent_capability_forge.Validation.{revocable, tampered}
use agent_capability_forge.Admission.Spec.{DigestBinds, IsUntampered}
use agent_capability_forge.Admission.Binding.{digests-agree, empty-nil, untampered_evidence}
use agent_capability_forge.Registry.{Adoption, binding_tests}
use agent_capability_forge.Guard.{event_violations, log_violations, activation_content_tests}
use agent_capability_forge.Activation.Spec.{Binds}

pub adoption-Binds : (b : Adoption) (a : Authority) → conj (binding_tests b a) ≡ true → Binds b a
adoption-Binds b a e =
    let t = conj-true (binding_tests b a) e in
    record {
      candidate_id = (==_iff b.candidate_id _).0 t.0;
      candidate_version = (==_iff b.candidate_version _).0 t.1.0;
      promotion_decision_id = (==_iff b.promotion_decision_id _).0 t.1.1.0;
      evaluation_run_id = (==_iff b.evaluation_run_id _).0 t.1.1.1.0;
      policy_version = (==_iff b.policy_version _).0 t.1.1.1.1.0;
      artifact_digest = (==_iff b.artifact_digest _).0 t.1.1.1.1.1.0;
      provenance = (==_iff b.provenance _).0 t.1.1.1.1.1.1.0;
    }

-- A log that reports nothing is one that was read, and that has no revocation.
pub events-clear :
    (o : Option (List Revocation))
    → event_violations o ≡ []
    → (es : List Revocation) × (o ≡ some es)
      × All (λ (x : Revocation). revocable x.status ≡ false) es
unfolding event_violations
events-clear none e = cc
events-clear (some es) e =
    let t =
      report-nil ((any (λ (x : Revocation). revocable x.status) es, revoked_decision) ∷ []) e in
    (es, refl, any-false (λ (x : Revocation). revocable x.status) es t.0)

pub log_violations_lem :
    (id : String) (d : Disk)
    → id ≢ ""
    → log_violations (some id) (some d) ≡ event_violations (load_authority_events d id)
unfolding log_violations
log_violations_lem id d ne = ground (arith, ==_iff id "")

pub activation-content-binds :
    (a : Authority) (d : Decision) (r : Run) (c : Candidate) (b : Adoption) (s : Store)
    (actual : Text)
    → report (activation_content_tests a d (some r) c b s actual) ≡ []
    → DigestBinds a d r c actual × IsUntampered a d s
activation-content-binds a d r c b s actual e =
    let t = report-nil (activation_content_tests a d (some r) c b s actual) e in
    let (first, same) = digests-agree a.artifact_digest _ t.0 in
    (
      record {
        authority = first;
        decision = same.0;
        run = same.1.0;
        candidate = same.1.1.0;
        artifact = same.1.1.1.1.0;
      },
      record {
        provenance = empty-nil _ ((not-false_iff _).0 t.1.0);
        decision = (ne-false_iff d.recorded_hash _).0 t.1.1.0;
        evidence =
            All-map s.evidence (λ x. untampered_evidence d.run_id x)
              (any-false (tampered d.run_id) s.evidence t.1.1.1.0);
      },
    )
