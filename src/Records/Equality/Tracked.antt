-- ===== src/Records/Equality/Tracked.antt =====
-- Python's `==` on the lifecycle records: two dicts are equal when they agree at every key.
use agent_capability_forge.Prelude.{
  Bool, List, [], ◌∷◌, ◌≡◌, true, ◌↔◌, ap, Comparison, ◌==◌, ==_iff, conj, conj-true, true-conj,
  string_eq, bool_eq, option_eq, list_eq,
}
use agent_capability_forge.Records.Defs.{Lifecycle}
use agent_capability_forge.Records.Equality.Registered.{transition_eq}

abbrev pub lifecycle_tests : Lifecycle → Lifecycle → List Bool
lifecycle_tests x y =
    (x.has_keys == y.has_keys) ∷ (x.status == y.status) ∷ (x.transitions == y.transitions) ∷ []

abbrev pub lifecycle_beq : Lifecycle → Lifecycle → Bool
lifecycle_beq x y = conj (lifecycle_tests x y)

pub lifecycle_beq_iff : (x y : Lifecycle) → (lifecycle_beq x y ≡ true) ↔ (x ≡ y)
lifecycle_beq_iff x y = (
  λ h.
      let t = conj-true (lifecycle_tests x y) h in
      λ i. record {
        has_keys = (==_iff x.has_keys y.has_keys).0 t.0 i;
        status = (==_iff x.status y.status).0 t.1.0 i;
        transitions = (==_iff x.transitions y.transitions).0 t.1.1.0 i;
      },
  λ e. true-conj (lifecycle_tests x y) (
    (==_iff x.has_keys y.has_keys).1 (ap (λ (r : Lifecycle). r.has_keys) e),
    (
      (==_iff x.status y.status).1 (ap (λ (r : Lifecycle). r.status) e),
      ((==_iff x.transitions y.transitions).1 (ap (λ (r : Lifecycle). r.transitions) e), tt),
    ),
  ),
)

instance abbrev pub lifecycle_eq : Comparison Lifecycle
lifecycle_eq = record { equal = lifecycle_beq; equal_iff = lifecycle_beq_iff }
