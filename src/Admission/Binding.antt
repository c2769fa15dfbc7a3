-- ===== src/Admission/Binding.antt =====
-- The blocks behind a decision that was found, read back: no code means that the description holds.
use agent_capability_forge.Prelude.{
  Bool, true, false, not, ◌&&◌, ◌||◌, Option, none, some, List, [], ◌∷◌, ◌≡◌, refl, ap, arith,
  ==_iff, ◌==◌, ◌!=◌, ne-false_iff, and_iff, not-false_iff, string_eq, bool_eq, option_eq, report,
  report-nil, All, All-map, any, any-false, any-true, Exists-map, ladder-nil, all-true, Bool-cases,
  inl, inr,
}
use agent_capability_forge.Records.{
  Text, Authority, Decision, Run, Policy, Candidate, Transition, Lifecycle, Evidence, Store, run_eq,
  policy_eq, lifecycle_eq,
}
use agent_capability_forge.Ledger.{is_empty}
use agent_capability_forge.Validation.{
  find_lifecycle, decision_tests, candidate_tests, no_run, real_policy, real_run, flag,
  policy_tests, digests_disagree, tampered, content_tests, promotes, lifecycle_violations,
}
use agent_capability_forge.Admission.Spec.{
  Filled, DecisionBinds, PolicyBinds, DigestBinds, IsUntampered, IsPromotable,
}
use agent_capability_forge.Admission.Request.{filled}

-- Two and three alternatives that all fail.
pub or_two : (a b : Bool) → (a || b) ≡ false → (a ≡ false) × (b ≡ false)
or_two a b h = ground arith

pub or_three : (a b c : Bool) → (a || b || c) ≡ false → (a ≡ false) × (b ≡ false) × (c ≡ false)
or_three a b c h = ground arith

-- Digests that do not disagree are one text, which is not empty.
pub digests-agree :
    (first : Text) (rest : List Text)
    → digests_disagree first rest ≡ false
    → Filled first × All (λ x. x ≡ first) rest
unfolding digests_disagree
digests-agree first rest e =
    let t = or_two _ _ e in
    (
      filled first t.1,
      All-map rest (λ x same. (==_iff x first).0 same)
          (all-true (λ x. x == first) rest ((not-false_iff _).0 t.0)),
    )

-- A conjunction that fails where its first parts hold.
pub and-false-right : (a b : Bool) → a ≡ true → (a && b) ≡ false → b ≡ false
and-false-right a b h e = ground arith

pub and-false : (a b c : Bool) → a ≡ true → b ≡ true → ((a && b) && c) ≡ false → c ≡ false
and-false a b c h k e = ground arith

module _ (a : Authority) (d : Decision) (r : Run) where
  pub decision-binds :
      (c : Candidate)
      → report (decision_tests a d (some r)) ≡ []
      → report (candidate_tests a d (some r) c) ≡ []
      → DecisionBinds a d r c
  decision-binds c e f =
      let t = report-nil (decision_tests a d (some r)) e in
      let u = report-nil (candidate_tests a d (some r) c) f in
      let id = or_two _ _ u.0 in
      let v = or_three _ _ _ u.1.0 in
      record {
        promotes = (ne-false_iff d.value _).0 t.0;
        gate = (ne-false_iff d.gate_result _).0 t.1.0;
        run = (ne-false_iff a.evaluation_run_id _).0 t.1.1.0;
        decision_candidate = (ne-false_iff a.candidate_id _).0 id.0;
        run_candidate = (ne-false_iff a.candidate_id r.candidate_id).0 id.1;
        decision_version = (ne-false_iff a.candidate_version _).0 v.0;
        candidate_version = (ne-false_iff a.candidate_version _).0 v.1;
        run_version = (ne-false_iff a.candidate_version r.candidate_version).0 v.2;
      }

  -- A run that names a candidate is not the empty dict.
  run-is_real : Filled r.candidate_id → real_run (some r) ≡ true
  run-is_real (x, e, ne) = elim (Bool-cases (r == no_run)) [
    | inl same ↦ cc (e, ap (λ (y : Run). y.candidate_id) ((==_iff r no_run).0 same))
    | inr other ↦ rw other
  ]

  flag-true :
      (key : Policy → Option Bool) (p : Policy)
      → not (flag key (some p)) ≡ false
      → key p ≡ some true
  flag-true key p h = (==_iff (key p) (some true)).0 ((not-false_iff _).0 h)

  pub policy-binds :
      (p : Policy)
      → Filled r.candidate_id
      → report (policy_tests a d (some r) (some p)) ≡ []
      → PolicyBinds a d r p
  policy-binds p real e =
      let t = report-nil (policy_tests a d (some r) (some p)) e in
      let reg = or_two _ _ t.1.0 in
      let there = (not-false_iff (real_policy (some p))).0 reg.0 in
      let v = or_three _ _ _ (and-false _ _ _ (run-is_real real) there t.1.1.1.0) in
      record {
        decision_version = (ne-false_iff a.policy_version _).0 t.0;
        registered = flag-true (λ x. x.registered) p reg.1;
        frozen = flag-true (λ x. x.frozen) p (and-false-right _ _ there t.1.1.0);
        run_ref = (ne-false_iff r.policy_ref _).0 v.0;
        run_version = (ne-false_iff r.policy_version _).0 v.1;
        policy_version = (ne-false_iff r.policy_version _).0 v.2;
      }

  digest-binds :
      (c : Candidate) (actual : Text)
      → digests_disagree a.artifact_digest
          (d.artifact_digest ∷ r.artifact_digest ∷ c.forged_artifact_digest ∷ actual ∷ [])
        ≡ false
      → DigestBinds a d r c actual
  digest-binds c actual e =
      let (first, same) = digests-agree a.artifact_digest _ e in
      record {
        authority = first;
        decision = same.0;
        run = same.1.0;
        candidate = same.1.1.0;
        artifact = same.1.1.1.0;
      }

pub empty-nil {ℓ} : {A : Type ℓ} (xs : List A) → is_empty xs ≡ true → xs ≡ []
empty-nil [] h = refl
empty-nil (x ∷ xs) h = cc

pub untampered_evidence :
    (run_id : Text) (e : Evidence)
    → tampered run_id e ≡ false
    → e.run_id ≡ run_id
    → e.recorded_hash ≡ e.current_hash
untampered_evidence run_id e h same =
    (ne-false_iff e.recorded_hash _).0 (and-false-right _ _ ((==_iff e.run_id run_id).1 same) h)

pub content-binds :
    (a : Authority) (d : Decision) (r : Run) (c : Candidate) (s : Store) (actual : Text)
    → report (content_tests a d (some r) c s actual) ≡ []
    → DigestBinds a d r c actual × IsUntampered a d s
content-binds a d r c s actual e =
    let t = report-nil (content_tests a d (some r) c s actual) e in
    (
      digest-binds a d r c actual t.0,
      record {
        provenance = empty-nil _ ((not-false_iff _).0 t.1.0);
        decision = (ne-false_iff d.recorded_hash _).0 t.1.1.0;
        evidence =
            All-map s.evidence (λ x. untampered_evidence d.run_id x)
              (any-false (tampered d.run_id) s.evidence t.1.1.1.0);
      },
    )

promotes_lem :
    (t : Transition)
    → promotes t ≡ true
    → (t.source ≡ some "PROMOTABLE") × (t.target ≡ some "PROMOTED")
promotes_lem t h =
    let p = (and_iff _ _).0 h in
    ((==_iff t.source (some "PROMOTABLE")).0 p.0, (==_iff t.target (some "PROMOTED")).0 p.1)

-- The lifecycle blocks with the caller's expected status.
pub lifecycle_lem :
    (expected : Text) (l : Option Lifecycle)
    → lifecycle_violations expected l ≡ []
    → (x : Lifecycle) × (l ≡ some x) × (x.status ≡ expected) × (any promotes x.transitions ≡ true)
unfolding lifecycle_violations
lifecycle_lem expected none h = cc
lifecycle_lem expected (some l) h =
    let t = ladder-nil (not l.has_keys) _ _ h in
    let u = ladder-nil (l.status == some "REJECTED") _ _ t.1 in
    let v = ladder-nil (l.status != expected) _ _ u.1 in
    let w = ladder-nil (not (any promotes l.transitions)) _ [] v.1 in
    (l, refl, (ne-false_iff l.status expected).0 v.0, (not-false_iff _).0 w.0)

pub lifecycle-IsPromotable :
    (s : Store) (id : Text)
    → lifecycle_violations (some "PROMOTABLE") (find_lifecycle s id) ≡ []
    → IsPromotable s id
lifecycle-IsPromotable s id h =
    let (l, e, status, moves) = lifecycle_lem (some "PROMOTABLE") (find_lifecycle s id) h in
    record {
      lifecycle = l;
      found = e;
      status = status;
      transition =
          Exists-map l.transitions (λ t p. promotes_lem t p)
            (any-true promotes l.transitions moves);
    }
