-- ===== src/Activation/Identity.antt =====
-- What verify_at_mount adds to adopt.
use agent_capability_forge.Prelude.{
  String, false, Option, none, some, [], ◌≡◌, ◌↔◌, sym, subst, arith, ◌==◌, ◌!=◌, ==_iff,
  ne-false_iff, string_eq, option_eq, append-nil_iff, ladder-nil,
}
use agent_capability_forge.Code.{Code, artifact_digest_mismatch}
use agent_capability_forge.Records.{Text}
use agent_capability_forge.Disk.{
  Outcome, ok, refuse_if, refuse_all, >>=-eq-ok, refuse_all-ok, refuse_if-ok,
}
use agent_capability_forge.Host.{Host}
use agent_capability_forge.Validation.{empty_text}
use agent_capability_forge.Admission.Spec.{Filled, AgreesIfThere}
use agent_capability_forge.Admission.Request.{filled}
use agent_capability_forge.Frozen.{Sealer}
use agent_capability_forge.Registry.{World}
use agent_capability_forge.Guard.{
  System, Activation, Verified, Expected, Identity, identity_of, field_violations,
  identity_violations, expected_violations, changed_digest, moved, adopt, verify_at_mount,
}

-- Two fields that are the same text, which is not empty.
abbrev pub Same : Text → Text → Type 0
Same x y = Filled x × (x ≡ y)

field_iff : (x y : Text) (code : Code) → (field_violations x y code ≡ []) ↔ Same x y
unfolding field_violations empty_text
field_iff none y code = (λ e. cc, λ p. cc (p.0.1))
field_iff (some x) y code = (
  λ e.
      let t = ladder-nil (x == "") _ _ e in
      let u = ladder-nil (empty_text y) _ _ t.1 in
      let v = ladder-nil (some x != y) _ [] u.1 in
      (filled (some x) t.0, (ne-false_iff (some x) y).0 v.0),
  λ p. subst (λ z. field_violations (some x) z code ≡ []) p.1 (same_clear x p.0 code),
)
  where
    same_clear :
        (x : String)
        → Filled (some x)
        → (code : Code) → field_violations (some x) (some x) code ≡ []
    same_clear x (z, e, ne) code = ground (arith, ==_iff x x, ==_iff x z, ==_iff x "", e)

-- The four fields of an identity, each the same text on both sides and not empty.
abbrev pub SameIdentity : Identity → Identity → Type 0
SameIdentity x y =
    (Same x.candidate_id y.candidate_id × Same x.candidate_version y.candidate_version)
    × (Same x.artifact_digest y.artifact_digest × Same x.seal_digest y.seal_digest)

-- The comparison of identities reports nothing exactly where all four fields are there, not empty
-- and the same.
pub identity_iff : (x y : Identity) → (identity_violations x y ≡ []) ↔ SameIdentity x y
unfolding identity_violations
identity_iff x y = (
  λ e.
      let t = (append-nil_iff _ (field_violations x.seal_digest y.seal_digest _)).0 e in
      let u = (append-nil_iff _ (field_violations x.artifact_digest y.artifact_digest _)).0 t.0 in
      let v = (append-nil_iff (field_violations x.candidate_id y.candidate_id _) _).0 u.0 in
      (
        ((field_iff _ _ _).0 v.0, (field_iff _ _ _).0 v.1),
        ((field_iff _ _ _).0 u.1, (field_iff _ _ _).0 t.1),
      ),
  λ p. (append-nil_iff _ _).1 (
    (append-nil_iff _ _).1 (
      (append-nil_iff _ _).1 ((field_iff _ _ _).1 p.0.0, (field_iff _ _ _).1 p.0.1),
      (field_iff _ _ _).1 p.1.0,
    ),
    (field_iff _ _ _).1 p.1.1,
  ),
)

abbrev pub MatchesIfGiven : Option Identity → Verified → Type 0
MatchesIfGiven none v = Unit
MatchesIfGiven (some x) v = SameIdentity x (identity_of v)

abbrev pub MountsIfGiven : System → Text → Verified → Type 0
MountsIfGiven y none v = Unit
MountsIfGiven y (some p) v = y.resolve p ≡ v.verified_artifact_dir

expected-matches :
    (x : Option Identity) (v : Verified) → expected_violations x v ≡ [] → MatchesIfGiven x v
expected-matches none v e = tt
expected-matches (some x) v e = (identity_iff x (identity_of v)).0 e

unchanged_digest :
    (x : Text) (v : Verified) → changed_digest x v ≡ false → AgreesIfThere x v.artifact_digest
unchanged_digest none v e = tt
unchanged_digest (some x) v e = sym ((ne-false_iff v.artifact_digest (some x)).0 e)

mounted_there : (y : System) (p : Text) (v : Verified) → moved y p v ≡ false → MountsIfGiven y p v
mounted_there y none v e = tt
mounted_there y (some p) v e = (ne-false_iff (y.resolve p) v.verified_artifact_dir).0 e

verified-ok : (v u : Verified) → ◌≡◌ {A = Outcome Verified} (ok v) (ok u) → v ≡ u
verified-ok v u e = cc

-- What verify_at_mount lets through was allowed by adopt in the same state, matches the expected
-- identity in all four fields, the expected digest and the mount source, each where it is given.
pub mounted-matches :
    (h : Host) (y : System) (s : Sealer) (w : World) (q : Activation) (x : Expected) (v : Verified)
    → verify_at_mount h y s w q x ≡ ok v
    → (adopt h y s w q ≡ ok v)
      × MatchesIfGiven x.identity v
      × AgreesIfThere x.digest v.artifact_digest
      × MountsIfGiven y x.mount_source v
unfolding verify_at_mount
mounted-matches h y s w q x v e =
    let (u, e1, f1) = >>=-eq-ok (adopt h y s w q) _ e in
    let (_, e2, f2) = >>=-eq-ok (refuse_all (expected_violations x.identity u)) _ f1 in
    let (_, e3, f3) =
      >>=-eq-ok (refuse_if (changed_digest x.digest u) artifact_digest_mismatch) _ f2 in
    let (_, e4, f4) = >>=-eq-ok (refuse_if (moved y x.mount_source u) _) _ f3 in
    subst
      (λ z.
        (adopt h y s w q ≡ ok z)
        × MatchesIfGiven x.identity z
        × AgreesIfThere x.digest z.artifact_digest
        × MountsIfGiven y x.mount_source z)
      (verified-ok u v f4)
      (
        e1,
        expected-matches x.identity u (refuse_all-ok _ e2),
        unchanged_digest x.digest u (refuse_if-ok _ _ e3),
        mounted_there y x.mount_source u (refuse_if-ok _ _ e4),
      )
