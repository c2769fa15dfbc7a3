-- ===== src/Records/Equality/Evaluated.antt =====
-- Python's `==` on the records of a decision and its run: two dicts are equal when they agree at every key.
use agent_capability_forge.Prelude.{
  Bool, List, [], ◌∷◌, ◌≡◌, true, ◌↔◌, ap, Comparison, ◌==◌, ==_iff, conj, conj-true, true-conj,
  string_eq, bool_eq, option_eq, list_eq,
}
use agent_capability_forge.Records.Defs.{Decision, Run}

abbrev pub decision_tests : Decision → Decision → List Bool
decision_tests x y =
    (x.decision_id == y.decision_id)
    ∷ (x.candidate_id == y.candidate_id)
    ∷ (x.candidate_version == y.candidate_version)
    ∷ (x.run_id == y.run_id)
    ∷ (x.policy_ref == y.policy_ref)
    ∷ (x.policy_version == y.policy_version)
    ∷ (x.artifact_digest == y.artifact_digest)
    ∷ (x.value == y.value)
    ∷ (x.gate_result == y.gate_result)
    ∷ (x.created_at == y.created_at)
    ∷ (x.recorded_hash == y.recorded_hash)
    ∷ (x.current_hash == y.current_hash)
    ∷ (x.null_created == y.null_created)
    ∷ []

abbrev pub decision_beq : Decision → Decision → Bool
decision_beq x y = conj (decision_tests x y)

pub decision_beq_iff : (x y : Decision) → (decision_beq x y ≡ true) ↔ (x ≡ y)
decision_beq_iff x y = (
  λ h.
      let t = conj-true (decision_tests x y) h in
      λ i. record {
        decision_id = (==_iff x.decision_id y.decision_id).0 t.0 i;
        candidate_id = (==_iff x.candidate_id y.candidate_id).0 t.1.0 i;
        candidate_version = (==_iff x.candidate_version y.candidate_version).0 t.1.1.0 i;
        run_id = (==_iff x.run_id y.run_id).0 t.1.1.1.0 i;
        policy_ref = (==_iff x.policy_ref y.policy_ref).0 t.1.1.1.1.0 i;
        policy_version = (==_iff x.policy_version y.policy_version).0 t.1.1.1.1.1.0 i;
        artifact_digest = (==_iff x.artifact_digest y.artifact_digest).0 t.1.1.1.1.1.1.0 i;
        value = (==_iff x.value y.value).0 t.1.1.1.1.1.1.1.0 i;
        gate_result = (==_iff x.gate_result y.gate_result).0 t.1.1.1.1.1.1.1.1.0 i;
        created_at = (==_iff x.created_at y.created_at).0 t.1.1.1.1.1.1.1.1.1.0 i;
        recorded_hash = (==_iff x.recorded_hash y.recorded_hash).0 t.1.1.1.1.1.1.1.1.1.1.0 i;
        current_hash = (==_iff x.current_hash y.current_hash).0 t.1.1.1.1.1.1.1.1.1.1.1.0 i;
        null_created = (==_iff x.null_created y.null_created).0 t.1.1.1.1.1.1.1.1.1.1.1.1.0 i;
      },
  λ e. true-conj (decision_tests x y) (
    (==_iff x.decision_id y.decision_id).1 (ap (λ (r : Decision). r.decision_id) e),
    (
      (==_iff x.candidate_id y.candidate_id).1 (ap (λ (r : Decision). r.candidate_id) e),
      (
        (==_iff x.candidate_version y.candidate_version).1
            (ap (λ (r : Decision). r.candidate_version) e),
        (
          (==_iff x.run_id y.run_id).1 (ap (λ (r : Decision). r.run_id) e),
          (
            (==_iff x.policy_ref y.policy_ref).1 (ap (λ (r : Decision). r.policy_ref) e),
            (
              (==_iff x.policy_version y.policy_version).1
                  (ap (λ (r : Decision). r.policy_version) e),
              (
                (==_iff x.artifact_digest y.artifact_digest).1
                    (ap (λ (r : Decision). r.artifact_digest) e),
                (
                  (==_iff x.value y.value).1 (ap (λ (r : Decision). r.value) e),
                  (
                    (==_iff x.gate_result y.gate_result).1 (ap (λ (r : Decision). r.gate_result) e),
                    (
                      (==_iff x.created_at y.created_at).1 (ap (λ (r : Decision). r.created_at) e),
                      (
                        (==_iff x.recorded_hash y.recorded_hash).1
                            (ap (λ (r : Decision). r.recorded_hash) e),
                        (
                          (==_iff x.current_hash y.current_hash).1
                              (ap (λ (r : Decision). r.current_hash) e),
                          (
                            (==_iff x.null_created y.null_created).1
                                (ap (λ (r : Decision). r.null_created) e),
                            tt,
                          ),
                        ),
                      ),
                    ),
                  ),
                ),
              ),
            ),
          ),
        ),
      ),
    ),
  ),
)

instance abbrev pub decision_eq : Comparison Decision
decision_eq = record { equal = decision_beq; equal_iff = decision_beq_iff }

abbrev pub run_tests : Run → Run → List Bool
run_tests x y =
    (x.run_id == y.run_id)
    ∷ (x.candidate_id == y.candidate_id)
    ∷ (x.candidate_version == y.candidate_version)
    ∷ (x.artifact_digest == y.artifact_digest)
    ∷ (x.policy_ref == y.policy_ref)
    ∷ (x.policy_version == y.policy_version)
    ∷ (x.status == y.status)
    ∷ (x.created_at == y.created_at)
    ∷ []

abbrev pub run_beq : Run → Run → Bool
run_beq x y = conj (run_tests x y)

pub run_beq_iff : (x y : Run) → (run_beq x y ≡ true) ↔ (x ≡ y)
run_beq_iff x y = (
  λ h.
      let t = conj-true (run_tests x y) h in
      λ i. record {
        run_id = (==_iff x.run_id y.run_id).0 t.0 i;
        candidate_id = (==_iff x.candidate_id y.candidate_id).0 t.1.0 i;
        candidate_version = (==_iff x.candidate_version y.candidate_version).0 t.1.1.0 i;
        artifact_digest = (==_iff x.artifact_digest y.artifact_digest).0 t.1.1.1.0 i;
        policy_ref = (==_iff x.policy_ref y.policy_ref).0 t.1.1.1.1.0 i;
        policy_version = (==_iff x.policy_version y.policy_version).0 t.1.1.1.1.1.0 i;
        status = (==_iff x.status y.status).0 t.1.1.1.1.1.1.0 i;
        created_at = (==_iff x.created_at y.created_at).0 t.1.1.1.1.1.1.1.0 i;
      },
  λ e. true-conj (run_tests x y) (
    (==_iff x.run_id y.run_id).1 (ap (λ (r : Run). r.run_id) e),
    (
      (==_iff x.candidate_id y.candidate_id).1 (ap (λ (r : Run). r.candidate_id) e),
      (
        (==_iff x.candidate_version y.candidate_version).1
            (ap (λ (r : Run). r.candidate_version) e),
        (
          (==_iff x.artifact_digest y.artifact_digest).1 (ap (λ (r : Run). r.artifact_digest) e),
          (
            (==_iff x.policy_ref y.policy_ref).1 (ap (λ (r : Run). r.policy_ref) e),
            (
              (==_iff x.policy_version y.policy_version).1 (ap (λ (r : Run). r.policy_version) e),
              (
                (==_iff x.status y.status).1 (ap (λ (r : Run). r.status) e),
                ((==_iff x.created_at y.created_at).1 (ap (λ (r : Run). r.created_at) e), tt),
              ),
            ),
          ),
        ),
      ),
    ),
  ),
)

instance abbrev pub run_eq : Comparison Run
run_eq = record { equal = run_beq; equal_iff = run_beq_iff }
