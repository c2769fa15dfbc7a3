-- ===== src/Admission/Sound.antt =====
-- The validator against the descriptions of an adoption and of the ledger.
use agent_capability_forge.Prelude.{
  Bool, true, false, ◌&&◌, Option, none, some, List, [], ◌∷◌, ◌≡◌, ◌≢◌, refl, subst, arith, ==_iff,
  ◌==◌, beq-false, and_iff, string_eq, option_eq, report, report-nil, collect, collect-nil,
  append-nil_iff, All, any-false, ladder-nil,
}
use agent_capability_forge.Code.{authority_issued_at_mismatch}
use agent_capability_forge.Records.{
  Text, Authority, Decision, Run, Policy, Candidate, Revocation, Store,
}
use agent_capability_forge.Disk.{Disk}
use agent_capability_forge.Host.{Host, authority_id_for}
use agent_capability_forge.Revocations.{
  Normalized, canonical, refused, normalize_revocation_record, names_candidate, record_violation,
  revocation_list_violations, revocation_violations,
}
use agent_capability_forge.Validation.{
  empty_text, conflicts, find_decision, find_run, find_policy, find_candidate, decision_tests,
  policy_tests, follows, non_promote, later_promote, later_non_promote, stale_tests,
  timing_violations, binding_blocks, decision_violations, authority_blocks,
  violations_for_authority, validate,
}
use agent_capability_forge.Admission.Spec.{
  Filled, IsComplete, Spares, IsCurrent, LedgerAgrees, IsBacked,
}
use agent_capability_forge.Admission.Request.{
  filled, agrees_if_there, authority-IsComplete, prefixed-ne-empty, ledger-agrees,
}
use agent_capability_forge.Admission.Binding.{
  or_three, and-false-right, decision-binds, policy-binds, content-binds, lifecycle-IsPromotable,
  empty-nil,
}

-- A readable record without a violation names another candidate, version or decision.
canonical-Spares :
    (r : Revocation) (n : Normalized) (id version decision_id : Text)
    → normalize_revocation_record (some r) ≡ n
    → record_violation n (names_candidate (some r) id version) decision_id ≡ []
    → Spares id version decision_id (some r)
unfolding record_violation
canonical-Spares r (refused code) id version decision_id e h = cc
canonical-Spares r (canonical c) id version decision_id e h = (
  c,
  e,
  λ p.
      let names =
        (and_iff _ _).1
          ((==_iff r.candidate_id id).1 p.0, (==_iff r.candidate_version version).1 p.1) in
      let hit = (and_iff _ _).1 (names, (==_iff c decision_id).1 p.2) in
      cc (hit, (ladder-nil _ _ [] h).0),
)

spares :
    (r : Option Revocation) (id version decision_id : Text)
    → record_violation (normalize_revocation_record r) (names_candidate r id version) decision_id
      ≡ []
    → Spares id version decision_id r
unfolding normalize_revocation_record record_violation
spares none id version decision_id h = cc
spares (some r) id version decision_id h =
    canonical-Spares r (normalize_revocation_record (some r)) id version decision_id refl h

pub list-Spares :
    (rs : List (Option Revocation)) (id version decision_id : Text)
    → revocation_list_violations rs id version decision_id ≡ []
    → All (Spares id version decision_id) rs
unfolding revocation_list_violations
list-Spares [] id version decision_id h = tt
list-Spares (r ∷ rs) id version decision_id h =
    let parts =
      (append-nil_iff
          (record_violation (normalize_revocation_record r) (names_candidate r id version)
            decision_id)
          _).0
        h in
    (spares r id version decision_id parts.0, list-Spares rs id version decision_id parts.1)

not_promote :
    (x b c : Bool) → (x && b) ≡ false → (x && c) ≡ false → x ≡ true → (b ≡ false) × (c ≡ false)
not_promote x b c h k e = ground arith

zip_last :
    (id version : Text) (d e : Decision)
    → (follows id version d e && e.value == some "PROMOTE") ≡ false
    → (follows id version d e && non_promote e.value) ≡ false
    → follows id version d e ≡ true
    → (e.value ≢ some "PROMOTE") × (non_promote e.value ≡ false)
zip_last id version d e h k f =
    (beq-false e.value (some "PROMOTE") (and-false-right _ _ f h), and-false-right _ _ f k)

last_decision :
    (id version : Text) (d : Decision) (es : List Decision)
    → All (λ (e : Decision). (follows id version d e && e.value == some "PROMOTE") ≡ false) es
    → All (λ (e : Decision). (follows id version d e && non_promote e.value) ≡ false) es
    → All
        (λ (e : Decision).
          follows id version d e ≡ true
          → (e.value ≢ some "PROMOTE") × (non_promote e.value ≡ false))
        es
last_decision id version d [] h k = tt
last_decision id version d (e ∷ es) h k =
    (zip_last id version d e h.0 k.0, last_decision id version d es h.1 k.1)

pub timing-IsCurrent :
    (a : Authority) (d : Decision) (c : Candidate) (s : Store)
    → timing_violations a d c s ≡ []
    → IsCurrent a d c s
unfolding timing_violations later_promote later_non_promote
timing-IsCurrent a d c s h =
    let parts =
      (append-nil_iff
          (report ((conflicts a.issued_at d.created_at, authority_issued_at_mismatch) ∷ [])) _).0
        h in
    let issued =
      report-nil ((conflicts a.issued_at d.created_at, authority_issued_at_mismatch) ∷ [])
        parts.0 in
    let stamped = ladder-nil (empty_text d.created_at) _ _ parts.1 in
    let t = report-nil (stale_tests a.candidate_id a.candidate_version d c s) stamped.1 in
    let v = or_three _ _ _ t.0 in
    record {
      issued = agrees_if_there a.issued_at d.created_at issued.0;
      created = filled d.created_at stamped.0;
      fresh = v.0;
      last =
          last_decision a.candidate_id a.candidate_version d s.decisions
            (any-false _ s.decisions v.1) (any-false _ s.decisions v.2);
    }

-- The blocks behind a decision, with what the store holds for it.
module _ (h : Host) (a : Authority) (s : Store) (actual : Text) (complete : IsComplete h a) where
  blocks-IsBacked :
      (d : Decision) (run : Option Run) (policy : Option Policy)
      → find_decision s a.promotion_decision_id ≡ some d
      → find_run s d.run_id ≡ run
      → find_policy s d.policy_ref ≡ policy
      → collect (binding_blocks a d run policy (find_candidate s a.candidate_id) s actual) ≡ []
      → IsBacked h a s actual
  unfolding revocation_violations
  blocks-IsBacked d none policy fd fr fp e =
      let t =
        collect-nil (binding_blocks a d none policy (find_candidate s a.candidate_id) s actual) e in
      cc ((report-nil (decision_tests a d none) t.0).1.1.1.0)
  blocks-IsBacked d (some r) none fd fr fp e =
      let t =
        collect-nil (binding_blocks a d (some r) none (find_candidate s a.candidate_id) s actual)
          e in
      cc ((report-nil (policy_tests a d (some r) none) t.1.1.0).1.0)
  blocks-IsBacked d (some r) (some p) fd fr fp e =
      let t =
        collect-nil
          (binding_blocks a d (some r) (some p) (find_candidate s a.candidate_id) s actual) e in
      let b = decision-binds a d r (find_candidate s a.candidate_id) t.0 t.1.0 in
      let content = content-binds a d r (find_candidate s a.candidate_id) s actual t.1.1.1.0 in
      record {
        complete = complete;
        decision = d;
        decision_found = fd;
        run = r;
        run_found = fr;
        policy = p;
        policy_found = fp;
        binds = b;
        policy_binds =
            policy-binds a d r p (subst Filled b.run_candidate complete.candidate_id) t.1.1.0;
        digest_binds = content.0;
        untampered = content.1;
        promotable = lifecycle-IsPromotable s a.candidate_id t.1.1.1.1.0;
        spared =
            list-Spares s.revocations a.candidate_id a.candidate_version d.decision_id
              t.1.1.1.1.1.0;
        current = timing-IsCurrent a d (find_candidate s a.candidate_id) s t.1.1.1.1.1.1.0;
      }

  decision-IsBacked :
      (found : Option Decision)
      → find_decision s a.promotion_decision_id ≡ found
      → decision_violations a s actual found ≡ []
      → IsBacked h a s actual
  unfolding decision_violations
  decision-IsBacked none fd e = cc
  decision-IsBacked (some d) fd e =
      blocks-IsBacked d (find_run s d.run_id) (find_policy s d.policy_ref) fd refl refl e

-- Whatever validate allows is backed by the store: the authority is complete and identifies itself,
-- a PROMOTE decision with a passed gate, its run, its registered and frozen policy and its candidate
-- are there and agree on candidate, version and policy, five artifact digests are one text, nothing
-- was tampered with, the candidate can be promoted, no revocation record names the decision, and no
-- later decision overrides it.
pub allowed-IsBacked :
    (h : Host) (a : Authority) (s : Store) (actual : Text) (root : Option Disk)
    → (validate h a s actual root).allowed ≡ true
    → IsBacked h a s actual
unfolding validate violations_for_authority
allowed-IsBacked h a s actual root e =
    let found = find_decision s a.promotion_decision_id in
    let t = collect-nil (authority_blocks h a s actual root found) (empty-nil _ e) in
    decision-IsBacked h a s actual (authority-IsComplete h a t.0) found refl t.1.1.0

-- Where validate is given the registry root, it allows only what the ledger on disk agrees with: a
-- hardened store has its ledger directory, the files of the authority can be read, a record that is
-- there is the authority itself, and no event revokes or supersedes it.
pub allowed-LedgerAgrees :
    (h : Host) (a : Authority) (s : Store) (actual : Text) (d : Disk)
    → (validate h a s actual (some d)).allowed ≡ true
    → LedgerAgrees a s d
        (authority_id_for h a.candidate_id a.candidate_version a.promotion_decision_id)
unfolding validate violations_for_authority authority_id_for
allowed-LedgerAgrees h a s actual d e =
    let found = find_decision s a.promotion_decision_id in
    let t = collect-nil (authority_blocks h a s actual (some d) found) (empty-nil _ e) in
    let c = authority-IsComplete h a t.0 in
    ledger-agrees a s d _ (prefixed-ne-empty _) c.authority_id t.1.0
