-- ===== src/Activation/Sound.antt =====
-- The guard against the description of an activation.
use agent_capability_forge.Prelude.{
  String, Option, none, some, [], ◌≡◌, refl, sym, ap, ◌∙◌, subst, ne-false_iff, not-false_iff,
  string_eq, option_eq, report, report-nil, collect, collect-nil,
}
use agent_capability_forge.Records.{Text, Authority, Decision, Run, Policy, Store}
use agent_capability_forge.Disk.{
  Outcome, ok, Disk, ◌>>=◌, refuse_all, or_raise, or_refuse, >>=-eq-ok, refuse_all-ok, or_raise-ok,
  or_refuse-ok,
}
use agent_capability_forge.Host.{Host, authority_id_for}
use agent_capability_forge.Integrity.{integrity_anchor_violations}
use agent_capability_forge.Ledger.{load_store}
use agent_capability_forge.Revocations.{revocation_violations}
use agent_capability_forge.Validation.{
  find_decision, find_run, find_policy, find_candidate, find_lifecycle, decision_tests,
  policy_tests,
}
use agent_capability_forge.Admission.Spec.{Filled, IsComplete}
use agent_capability_forge.Admission.Request.{authority-IsComplete, prefixed-ne-empty}
use agent_capability_forge.Admission.Binding.{decision-binds, policy-binds, lifecycle_lem}
use agent_capability_forge.Admission.Sound.{list-Spares, timing-IsCurrent}
use agent_capability_forge.Frozen.{Sealer}
use agent_capability_forge.Registry.{Entry, World, or_no_adoption}
use agent_capability_forge.Guard.{
  System, Activation, Verified, verified_of, entry_tests, mismatch_tests, status_tests,
  log_violations, activation_blocks, activation_decision, activation_authority_blocks,
  violations_for_runtime_activation, adopted_authority, identity_match, artifact_of, given_root,
  adopt,
}
use agent_capability_forge.Activation.Spec.{IsActive}
use agent_capability_forge.Activation.Blocks.{
  adoption-Binds, events-clear, log_violations_lem, activation-content-binds,
}

-- The blocks behind a decision, with what the store holds for it.
module _ (h : Host) (e : Entry) (a : Authority) (s : Store) (actual : Text) (disk : Disk)
    (complete : IsComplete h a) (head : report (entry_tests e) ≡ [])
    (log : log_violations a.authority_id (some disk) ≡ [])
    (same : report (mismatch_tests e a) ≡ []) where
  blocks-IsActive :
      (d : Decision) (run : Option Run) (policy : Option Policy)
      → find_decision s a.promotion_decision_id ≡ some d
      → find_run s d.run_id ≡ run
      → find_policy s d.policy_ref ≡ policy
      → collect (
          activation_blocks a d run policy
            (find_candidate s a.candidate_id)
            (or_no_adoption e.adoption)
            s
            actual)
        ≡ []
      → IsActive h e a s actual disk
  unfolding revocation_violations authority_id_for
  blocks-IsActive d none policy fd fr fp k =
      let t =
        collect-nil
          (activation_blocks a d none policy (find_candidate s a.candidate_id)
            (or_no_adoption e.adoption) s actual)
          k in
      cc ((report-nil (decision_tests a d none) t.0).1.1.1.0)
  blocks-IsActive d (some r) none fd fr fp k =
      let t =
        collect-nil
          (activation_blocks a d (some r) none (find_candidate s a.candidate_id)
            (or_no_adoption e.adoption) s actual)
          k in
      cc ((report-nil (policy_tests a d (some r) none) t.1.1.0).1.0)
  blocks-IsActive d (some r) (some p) fd fr fp k =
      let c = find_candidate s a.candidate_id in
      let t =
        collect-nil (activation_blocks a d (some r) (some p) c (or_no_adoption e.adoption) s actual)
          k in
      let b = decision-binds a d r c t.0 t.1.0 in
      let content =
        activation-content-binds a d r c (or_no_adoption e.adoption) s actual t.1.1.1.0 in
      let l = lifecycle_lem (some "PROMOTED") (find_lifecycle s a.candidate_id) t.1.1.1.1.0 in
      let ev = events-clear _ (
        sym (log_violations_lem _ disk (prefixed-ne-empty _))
        ∙ subst (λ x. log_violations x (some disk) ≡ []) complete.authority_id log) in
      record {
        promoted = (ne-false_iff e.state _).0 (report-nil (entry_tests e) head).0;
        bound =
            adoption-Binds (or_no_adoption e.adoption) a
              ((not-false_iff _).0 (report-nil (mismatch_tests e a) same).0);
        complete = complete;
        standing = (report-nil (status_tests a) t.1.1.1.1.1.0).0;
        id = authority_id_for h a.candidate_id a.candidate_version a.promotion_decision_id;
        named = complete.authority_id;
        events = ev.0;
        events_read = ev.1;
        unrevoked = ev.2;
        decision = d;
        decision_found = fd;
        run = r;
        run_found = fr;
        policy = p;
        policy_found = fp;
        binds = b;
        policy_binds =
            policy-binds a d r p (subst Filled b.run_candidate complete.candidate_id) t.1.1.0;
        digest_binds = content.0;
        untampered = content.1;
        lifecycle = l.0;
        lifecycle_found = l.1;
        status = l.2;
        spared =
            list-Spares s.revocations a.candidate_id a.candidate_version d.decision_id
              t.1.1.1.1.1.1.0;
        current = timing-IsCurrent a d c s t.1.1.1.1.1.1.1.0;
      }

  decision-IsActive :
      (found : Option Decision)
      → find_decision s a.promotion_decision_id ≡ found
      → activation_decision (or_no_adoption e.adoption) a s actual found ≡ []
      → IsActive h e a s actual disk
  unfolding activation_decision
  decision-IsActive none fd k = cc
  decision-IsActive (some d) fd k =
      blocks-IsActive d (find_run s d.run_id) (find_policy s d.policy_ref) fd refl refl k

pub clean-IsActive :
    (h : Host) (e : Entry) (a : Authority) (s : Store) (actual : Text) (disk : Disk)
    → violations_for_runtime_activation h e (some a) s actual (some disk) ≡ []
    → IsActive h e a s actual disk
unfolding violations_for_runtime_activation
clean-IsActive h e a s actual disk k =
    let t = collect-nil (activation_authority_blocks h e a s actual (some disk)) k in
    decision-IsActive h e a s actual disk (authority-IsComplete h a t.1.0) t.0 t.1.1.0 t.1.1.1.0
      (find_decision s a.promotion_decision_id) refl t.1.1.1.1.0

-- What adopt has found when it answers ALLOW.
pub record IsAdopted (h : Host) (y : System) (s : Sealer) (w : World) (q : Activation)
    (v : Verified) : Type 0 where
  pub store : Store
  pub loaded : load_store w.disk ≡ some (some store)
  pub anchored : integrity_anchor_violations h store w.disk ≡ []
  pub authority : Authority
  pub issued :
      adopted_authority h w.disk store (or_no_adoption q.entry.adoption) ≡ ok (some authority)
  pub measured :
      artifact_of h y s w q (given_root q.frozen_root q.entry.frozen_root) (some authority)
      ≡ ok (v.artifact_digest, v.verified_artifact_dir)
  pub active : IsActive h q.entry authority store v.artifact_digest w.disk
  pub answer : v ≡ verified_of (v.artifact_digest, v.verified_artifact_dir) authority

some-IsAdopted :
    (h : Host) (y : System) (s : Sealer) (w : World) (q : Activation) (v : Verified) (st : Store)
    (m : Option Authority) (found : Text × String)
    → load_store w.disk ≡ some (some st)
    → integrity_anchor_violations h st w.disk ≡ []
    → adopted_authority h w.disk st (or_no_adoption q.entry.adoption) ≡ ok m
    → artifact_of h y s w q (given_root q.frozen_root q.entry.frozen_root) m ≡ ok found
    → violations_for_runtime_activation h q.entry m st found.0 (some w.disk) ≡ []
    → (or_raise m >>= λ a. ok (verified_of found a)) ≡ ok v
    → IsAdopted h y s w q v
some-IsAdopted h y s w q v st none found l i g f k e = cc
some-IsAdopted h y s w q v st (some a) found l i g f k e =
    subst (IsAdopted h y s w q) (ok-injective (verified_of found a) v e) (record {
      store = st;
      loaded = l;
      anchored = i;
      authority = a;
      issued = g;
      measured = f;
      active = clean-IsActive h q.entry a st found.0 w.disk k;
      answer = refl;
    })
  where
    ok-injective : (x z : Verified) → ◌≡◌ {A = Outcome Verified} (ok x) (ok z) → x ≡ z
    ok-injective x z p = cc

-- Whatever adopt allows may be activated: the store on disk was readable and agreed with its
-- anchor, an authority was found for the entry, the digest and the directory of the answer are those
-- computed for the entry's artifact, and the entry, the authority, the store and the event log allow
-- to run an artifact with that digest. The answer names that authority and its candidate.
pub adopt-IsAdopted :
    (h : Host) (y : System) (s : Sealer) (w : World) (q : Activation) (v : Verified)
    → adopt h y s w q ≡ ok v
    → IsAdopted h y s w q v
unfolding adopt
adopt-IsAdopted h y s w q v e =
    let (loaded, e1, f1) = >>=-eq-ok (or_raise (load_store w.disk)) _ e in
    let (st, e2, f2) = >>=-eq-ok (or_refuse loaded _) _ f1 in
    let (_, e3, f3) = >>=-eq-ok (refuse_all (integrity_anchor_violations h st w.disk)) _ f2 in
    let (m, e4, f4) =
      >>=-eq-ok (adopted_authority h w.disk st (or_no_adoption q.entry.adoption)) _ f3 in
    let root = given_root q.frozen_root q.entry.frozen_root in
    let (_, e5, f5) = >>=-eq-ok (identity_match q.entry root m) _ f4 in
    let (found, e6, f6) = >>=-eq-ok (artifact_of h y s w q root m) _ f5 in
    let (_, e7, f7) =
      >>=-eq-ok
        (refuse_all (violations_for_runtime_activation h q.entry m st found.0 (some w.disk))) _
        f6 in
    some-IsAdopted h y s w q v st m found (or_raise-ok _ e1 ∙ ap some (or_refuse-ok loaded _ e2))
      (refuse_all-ok _ e3) e4 e6 (refuse_all-ok _ e7) f7
