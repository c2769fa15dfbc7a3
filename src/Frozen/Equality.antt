-- ===== src/Frozen/Equality.antt =====
-- Python's `==` on a manifest: two dicts are equal when they agree at every key.
use agent_capability_forge.Prelude.{
  Bool, List, [], ◌∷◌, ◌≡◌, true, ◌↔◌, ap, Comparison, ◌==◌, ==_iff, conj, conj-true, true-conj,
  string_eq, option_eq, nat_eq,
}
use agent_capability_forge.Frozen.Defs.{Manifest}

abbrev pub manifest_tests : Manifest → Manifest → List Bool
manifest_tests x y =
    (x.name == y.name)
    ∷ (x.version == y.version)
    ∷ (x.forged_artifact_digest == y.forged_artifact_digest)
    ∷ (x.source_artifact_digest == y.source_artifact_digest)
    ∷ (x.forge_timestamp == y.forge_timestamp)
    ∷ []

abbrev pub manifest_beq : Manifest → Manifest → Bool
manifest_beq x y = conj (manifest_tests x y)

pub manifest_beq_iff : (x y : Manifest) → (manifest_beq x y ≡ true) ↔ (x ≡ y)
manifest_beq_iff x y = (
  λ h.
      let t = conj-true (manifest_tests x y) h in
      λ i. record {
        name = (==_iff x.name y.name).0 t.0 i;
        version = (==_iff x.version y.version).0 t.1.0 i;
        forged_artifact_digest =
            (==_iff x.forged_artifact_digest y.forged_artifact_digest).0 t.1.1.0 i;
        source_artifact_digest =
            (==_iff x.source_artifact_digest y.source_artifact_digest).0 t.1.1.1.0 i;
        forge_timestamp = (==_iff x.forge_timestamp y.forge_timestamp).0 t.1.1.1.1.0 i;
      },
  λ e. true-conj (manifest_tests x y) (
    (==_iff x.name y.name).1 (ap (λ (r : Manifest). r.name) e),
    (
      (==_iff x.version y.version).1 (ap (λ (r : Manifest). r.version) e),
      (
        (==_iff x.forged_artifact_digest y.forged_artifact_digest).1
            (ap (λ (r : Manifest). r.forged_artifact_digest) e),
        (
          (==_iff x.source_artifact_digest y.source_artifact_digest).1
              (ap (λ (r : Manifest). r.source_artifact_digest) e),
          (
            (==_iff x.forge_timestamp y.forge_timestamp).1
                (ap (λ (r : Manifest). r.forge_timestamp) e),
            tt,
          ),
        ),
      ),
    ),
  ),
)

instance abbrev pub manifest_eq : Comparison Manifest
manifest_eq = record { equal = manifest_beq; equal_iff = manifest_beq_iff }
