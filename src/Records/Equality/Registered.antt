-- ===== src/Records/Equality/Registered.antt =====
-- Python's `==` on the smaller records of the store: two dicts are equal when they agree at every key.
use agent_capability_forge.Prelude.{
  Bool, List, [], ◌∷◌, ◌≡◌, true, ◌↔◌, ap, Comparison, ◌==◌, ==_iff, conj, conj-true, true-conj,
  string_eq, bool_eq, option_eq, list_eq,
}
use agent_capability_forge.Records.Defs.{Policy, Candidate, Transition, Evidence}

abbrev pub policy_tests : Policy → Policy → List Bool
policy_tests x y =
    (x.policy_id == y.policy_id)
    ∷ (x.version == y.version)
    ∷ (x.registered == y.registered)
    ∷ (x.frozen == y.frozen)
    ∷ (x.content_ref == y.content_ref)
    ∷ []

abbrev pub policy_beq : Policy → Policy → Bool
policy_beq x y = conj (policy_tests x y)

pub policy_beq_iff : (x y : Policy) → (policy_beq x y ≡ true) ↔ (x ≡ y)
policy_beq_iff x y = (
  λ h.
      let t = conj-true (policy_tests x y) h in
      λ i. record {
        policy_id = (==_iff x.policy_id y.policy_id).0 t.0 i;
        version = (==_iff x.version y.version).0 t.1.0 i;
        registered = (==_iff x.registered y.registered).0 t.1.1.0 i;
        frozen = (==_iff x.frozen y.frozen).0 t.1.1.1.0 i;
        content_ref = (==_iff x.content_ref y.content_ref).0 t.1.1.1.1.0 i;
      },
  λ e. true-conj (policy_tests x y) (
    (==_iff x.policy_id y.policy_id).1 (ap (λ (r : Policy). r.policy_id) e),
    (
      (==_iff x.version y.version).1 (ap (λ (r : Policy). r.version) e),
      (
        (==_iff x.registered y.registered).1 (ap (λ (r : Policy). r.registered) e),
        (
          (==_iff x.frozen y.frozen).1 (ap (λ (r : Policy). r.frozen) e),
          ((==_iff x.content_ref y.content_ref).1 (ap (λ (r : Policy). r.content_ref) e), tt),
        ),
      ),
    ),
  ),
)

instance abbrev pub policy_eq : Comparison Policy
policy_eq = record { equal = policy_beq; equal_iff = policy_beq_iff }

abbrev pub candidate_tests : Candidate → Candidate → List Bool
candidate_tests x y =
    (x.version == y.version)
    ∷ (x.created_at == y.created_at)
    ∷ (x.forged_artifact_digest == y.forged_artifact_digest)
    ∷ []

abbrev pub candidate_beq : Candidate → Candidate → Bool
candidate_beq x y = conj (candidate_tests x y)

pub candidate_beq_iff : (x y : Candidate) → (candidate_beq x y ≡ true) ↔ (x ≡ y)
candidate_beq_iff x y = (
  λ h.
      let t = conj-true (candidate_tests x y) h in
      λ i. record {
        version = (==_iff x.version y.version).0 t.0 i;
        created_at = (==_iff x.created_at y.created_at).0 t.1.0 i;
        forged_artifact_digest =
            (==_iff x.forged_artifact_digest y.forged_artifact_digest).0 t.1.1.0 i;
      },
  λ e. true-conj (candidate_tests x y) (
    (==_iff x.version y.version).1 (ap (λ (r : Candidate). r.version) e),
    (
      (==_iff x.created_at y.created_at).1 (ap (λ (r : Candidate). r.created_at) e),
      (
        (==_iff x.forged_artifact_digest y.forged_artifact_digest).1
            (ap (λ (r : Candidate). r.forged_artifact_digest) e),
        tt,
      ),
    ),
  ),
)

instance abbrev pub candidate_eq : Comparison Candidate
candidate_eq = record { equal = candidate_beq; equal_iff = candidate_beq_iff }

abbrev pub transition_tests : Transition → Transition → List Bool
transition_tests x y = (x.source == y.source) ∷ (x.target == y.target) ∷ []

abbrev pub transition_beq : Transition → Transition → Bool
transition_beq x y = conj (transition_tests x y)

pub transition_beq_iff : (x y : Transition) → (transition_beq x y ≡ true) ↔ (x ≡ y)
transition_beq_iff x y = (
  λ h.
      let t = conj-true (transition_tests x y) h in
      λ i. record {
        source = (==_iff x.source y.source).0 t.0 i;
        target = (==_iff x.target y.target).0 t.1.0 i;
      },
  λ e. true-conj (transition_tests x y) (
    (==_iff x.source y.source).1 (ap (λ (r : Transition). r.source) e),
    ((==_iff x.target y.target).1 (ap (λ (r : Transition). r.target) e), tt),
  ),
)

instance abbrev pub transition_eq : Comparison Transition
transition_eq = record { equal = transition_beq; equal_iff = transition_beq_iff }

abbrev pub evidence_tests : Evidence → Evidence → List Bool
evidence_tests x y =
    (x.evidence_id == y.evidence_id)
    ∷ (x.run_id == y.run_id)
    ∷ (x.recorded_hash == y.recorded_hash)
    ∷ (x.current_hash == y.current_hash)
    ∷ []

abbrev pub evidence_beq : Evidence → Evidence → Bool
evidence_beq x y = conj (evidence_tests x y)

pub evidence_beq_iff : (x y : Evidence) → (evidence_beq x y ≡ true) ↔ (x ≡ y)
evidence_beq_iff x y = (
  λ h.
      let t = conj-true (evidence_tests x y) h in
      λ i. record {
        evidence_id = (==_iff x.evidence_id y.evidence_id).0 t.0 i;
        run_id = (==_iff x.run_id y.run_id).0 t.1.0 i;
        recorded_hash = (==_iff x.recorded_hash y.recorded_hash).0 t.1.1.0 i;
        current_hash = (==_iff x.current_hash y.current_hash).0 t.1.1.1.0 i;
      },
  λ e. true-conj (evidence_tests x y) (
    (==_iff x.evidence_id y.evidence_id).1 (ap (λ (r : Evidence). r.evidence_id) e),
    (
      (==_iff x.run_id y.run_id).1 (ap (λ (r : Evidence). r.run_id) e),
      (
        (==_iff x.recorded_hash y.recorded_hash).1 (ap (λ (r : Evidence). r.recorded_hash) e),
        ((==_iff x.current_hash y.current_hash).1 (ap (λ (r : Evidence). r.current_hash) e), tt),
      ),
    ),
  ),
)

instance abbrev pub evidence_eq : Comparison Evidence
evidence_eq = record { equal = evidence_beq; equal_iff = evidence_beq_iff }
