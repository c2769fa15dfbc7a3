-- ===== src/Records/Equality/Issued.antt =====
-- Python's `==` on the records that an issuance binds together: two dicts are equal when they agree at every key.
use agent_capability_forge.Prelude.{
  Bool, List, [], ◌∷◌, ◌≡◌, true, ◌↔◌, ap, Comparison, ◌==◌, ==_iff, conj, conj-true, true-conj,
  string_eq, bool_eq, option_eq, list_eq,
}
use agent_capability_forge.Records.Defs.{Provenance, Authority, RunRequest}

abbrev pub provenance_tests : Provenance → Provenance → List Bool
provenance_tests x y =
    (x.policy == y.policy)
    ∷ (x.evidence_manifest == y.evidence_manifest)
    ∷ (x.run_ids == y.run_ids)
    ∷ (x.immutable_artifact_refs == y.immutable_artifact_refs)
    ∷ []

abbrev pub provenance_beq : Provenance → Provenance → Bool
provenance_beq x y = conj (provenance_tests x y)

pub provenance_beq_iff : (x y : Provenance) → (provenance_beq x y ≡ true) ↔ (x ≡ y)
provenance_beq_iff x y = (
  λ h.
      let t = conj-true (provenance_tests x y) h in
      λ i. record {
        policy = (==_iff x.policy y.policy).0 t.0 i;
        evidence_manifest = (==_iff x.evidence_manifest y.evidence_manifest).0 t.1.0 i;
        run_ids = (==_iff x.run_ids y.run_ids).0 t.1.1.0 i;
        immutable_artifact_refs =
            (==_iff x.immutable_artifact_refs y.immutable_artifact_refs).0 t.1.1.1.0 i;
      },
  λ e. true-conj (provenance_tests x y) (
    (==_iff x.policy y.policy).1 (ap (λ (r : Provenance). r.policy) e),
    (
      (==_iff x.evidence_manifest y.evidence_manifest).1
          (ap (λ (r : Provenance). r.evidence_manifest) e),
      (
        (==_iff x.run_ids y.run_ids).1 (ap (λ (r : Provenance). r.run_ids) e),
        (
          (==_iff x.immutable_artifact_refs y.immutable_artifact_refs).1
              (ap (λ (r : Provenance). r.immutable_artifact_refs) e),
          tt,
        ),
      ),
    ),
  ),
)

instance abbrev pub provenance_eq : Comparison Provenance
provenance_eq = record { equal = provenance_beq; equal_iff = provenance_beq_iff }

abbrev pub authority_tests : Authority → Authority → List Bool
authority_tests x y =
    (x.authority_id == y.authority_id)
    ∷ (x.candidate_id == y.candidate_id)
    ∷ (x.candidate_version == y.candidate_version)
    ∷ (x.promotion_decision_id == y.promotion_decision_id)
    ∷ (x.evaluation_run_id == y.evaluation_run_id)
    ∷ (x.policy_version == y.policy_version)
    ∷ (x.artifact_digest == y.artifact_digest)
    ∷ (x.provenance == y.provenance)
    ∷ (x.issued_at == y.issued_at)
    ∷ (x.status == y.status)
    ∷ (x.issuer_id == y.issuer_id)
    ∷ (x.issuer_type == y.issuer_type)
    ∷ (x.decision_id == y.decision_id)
    ∷ (x.artifact_identity == y.artifact_identity)
    ∷ (x.seal_digest == y.seal_digest)
    ∷ []

abbrev pub authority_beq : Authority → Authority → Bool
authority_beq x y = conj (authority_tests x y)

pub authority_beq_iff : (x y : Authority) → (authority_beq x y ≡ true) ↔ (x ≡ y)
authority_beq_iff x y = (
  λ h.
      let t = conj-true (authority_tests x y) h in
      λ i. record {
        authority_id = (==_iff x.authority_id y.authority_id).0 t.0 i;
        candidate_id = (==_iff x.candidate_id y.candidate_id).0 t.1.0 i;
        candidate_version = (==_iff x.candidate_version y.candidate_version).0 t.1.1.0 i;
        promotion_decision_id =
            (==_iff x.promotion_decision_id y.promotion_decision_id).0 t.1.1.1.0 i;
        evaluation_run_id = (==_iff x.evaluation_run_id y.evaluation_run_id).0 t.1.1.1.1.0 i;
        policy_version = (==_iff x.policy_version y.policy_version).0 t.1.1.1.1.1.0 i;
        artifact_digest = (==_iff x.artifact_digest y.artifact_digest).0 t.1.1.1.1.1.1.0 i;
        provenance = (==_iff x.provenance y.provenance).0 t.1.1.1.1.1.1.1.0 i;
        issued_at = (==_iff x.issued_at y.issued_at).0 t.1.1.1.1.1.1.1.1.0 i;
        status = (==_iff x.status y.status).0 t.1.1.1.1.1.1.1.1.1.0 i;
        issuer_id = (==_iff x.issuer_id y.issuer_id).0 t.1.1.1.1.1.1.1.1.1.1.0 i;
        issuer_type = (==_iff x.issuer_type y.issuer_type).0 t.1.1.1.1.1.1.1.1.1.1.1.0 i;
        decision_id = (==_iff x.decision_id y.decision_id).0 t.1.1.1.1.1.1.1.1.1.1.1.1.0 i;
        artifact_identity =
            (==_iff x.artifact_identity y.artifact_identity).0 t.1.1.1.1.1.1.1.1.1.1.1.1.1.0 i;
        seal_digest = (==_iff x.seal_digest y.seal_digest).0 t.1.1.1.1.1.1.1.1.1.1.1.1.1.1.0 i;
      },
  λ e. true-conj (authority_tests x y) (
    (==_iff x.authority_id y.authority_id).1 (ap (λ (r : Authority). r.authority_id) e),
    (
      (==_iff x.candidate_id y.candidate_id).1 (ap (λ (r : Authority). r.candidate_id) e),
      (
        (==_iff x.candidate_version y.candidate_version).1
            (ap (λ (r : Authority). r.candidate_version) e),
        (
          (==_iff x.promotion_decision_id y.promotion_decision_id).1
              (ap (λ (r : Authority). r.promotion_decision_id) e),
          (
            (==_iff x.evaluation_run_id y.evaluation_run_id).1
                (ap (λ (r : Authority). r.evaluation_run_id) e),
            (
              (==_iff x.policy_version y.policy_version).1
                  (ap (λ (r : Authority). r.policy_version) e),
              (
                (==_iff x.artifact_digest y.artifact_digest).1
                    (ap (λ (r : Authority). r.artifact_digest) e),
                (
                  (==_iff x.provenance y.provenance).1 (ap (λ (r : Authority). r.provenance) e),
                  (
                    (==_iff x.issued_at y.issued_at).1 (ap (λ (r : Authority). r.issued_at) e),
                    (
                      (==_iff x.status y.status).1 (ap (λ (r : Authority). r.status) e),
                      (
                        (==_iff x.issuer_id y.issuer_id).1 (ap (λ (r : Authority). r.issuer_id) e),
                        (
                          (==_iff x.issuer_type y.issuer_type).1
                              (ap (λ (r : Authority). r.issuer_type) e),
                          (
                            (==_iff x.decision_id y.decision_id).1
                                (ap (λ (r : Authority). r.decision_id) e),
                            (
                              (==_iff x.artifact_identity y.artifact_identity).1
                                  (ap (λ (r : Authority). r.artifact_identity) e),
                              (
                                (==_iff x.seal_digest y.seal_digest).1
                                    (ap (λ (r : Authority). r.seal_digest) e),
                                tt,
                              ),
                            ),
                          ),
                        ),
                      ),
                    ),
                  ),
                ),
              ),
            ),
          ),
        ),
      ),
    ),
  ),
)

instance abbrev pub authority_eq : Comparison Authority
authority_eq = record { equal = authority_beq; equal_iff = authority_beq_iff }

abbrev pub run_request_tests : RunRequest → RunRequest → List Bool
run_request_tests x y =
    (x.name == y.name)
    ∷ (x.capability_id == y.capability_id)
    ∷ (x.candidate_id == y.candidate_id)
    ∷ (x.candidate_version == y.candidate_version)
    ∷ (x.artifact_digest == y.artifact_digest)
    ∷ (x.seal_digest == y.seal_digest)
    ∷ (x.promotion_decision_id == y.promotion_decision_id)
    ∷ (x.created_at == y.created_at)
    ∷ []

abbrev pub run_request_beq : RunRequest → RunRequest → Bool
run_request_beq x y = conj (run_request_tests x y)

pub run_request_beq_iff : (x y : RunRequest) → (run_request_beq x y ≡ true) ↔ (x ≡ y)
run_request_beq_iff x y = (
  λ h.
      let t = conj-true (run_request_tests x y) h in
      λ i. record {
        name = (==_iff x.name y.name).0 t.0 i;
        capability_id = (==_iff x.capability_id y.capability_id).0 t.1.0 i;
        candidate_id = (==_iff x.candidate_id y.candidate_id).0 t.1.1.0 i;
        candidate_version = (==_iff x.candidate_version y.candidate_version).0 t.1.1.1.0 i;
        artifact_digest = (==_iff x.artifact_digest y.artifact_digest).0 t.1.1.1.1.0 i;
        seal_digest = (==_iff x.seal_digest y.seal_digest).0 t.1.1.1.1.1.0 i;
        promotion_decision_id =
            (==_iff x.promotion_decision_id y.promotion_decision_id).0 t.1.1.1.1.1.1.0 i;
        created_at = (==_iff x.created_at y.created_at).0 t.1.1.1.1.1.1.1.0 i;
      },
  λ e. true-conj (run_request_tests x y) (
    (==_iff x.name y.name).1 (ap (λ (r : RunRequest). r.name) e),
    (
      (==_iff x.capability_id y.capability_id).1 (ap (λ (r : RunRequest). r.capability_id) e),
      (
        (==_iff x.candidate_id y.candidate_id).1 (ap (λ (r : RunRequest). r.candidate_id) e),
        (
          (==_iff x.candidate_version y.candidate_version).1
              (ap (λ (r : RunRequest). r.candidate_version) e),
          (
            (==_iff x.artifact_digest y.artifact_digest).1
                (ap (λ (r : RunRequest). r.artifact_digest) e),
            (
              (==_iff x.seal_digest y.seal_digest).1 (ap (λ (r : RunRequest). r.seal_digest) e),
              (
                (==_iff x.promotion_decision_id y.promotion_decision_id).1
                    (ap (λ (r : RunRequest). r.promotion_decision_id) e),
                (
                  (==_iff x.created_at y.created_at).1 (ap (λ (r : RunRequest). r.created_at) e),
                  tt,
                ),
              ),
            ),
          ),
        ),
      ),
    ),
  ),
)

instance abbrev pub run_request_eq : Comparison RunRequest
run_request_eq = record { equal = run_request_beq; equal_iff = run_request_beq_iff }
