-- ===== src/Validation/Binding.antt =====
-- The blocks of violations_for_authority (pilot/adoption_authority.py) behind a decision that was
-- found: the decision against the authority, its run, its policy and the candidate.
use Prim.Native.String.{◌++◌ as text_append}
use agent_capability_forge.Prelude.{
  String, Bool, true, false, not, ◌&&◌, ◌||◌, Option, none, some, List, [], ◌∷◌, ◌++◌, ◌==◌, ◌!=◌,
  if◌then◌else◌, string_eq, bool_eq, option_eq, list_eq, any, all, report,
}
use agent_capability_forge.Code.{
  Code, decision_not_promote, gate_not_pass, run_mismatch, run_missing, candidate_id_mismatch,
  candidate_version_mismatch, policy_version_mismatch, policy_not_registered, policy_not_frozen,
  run_policy_mismatch, artifact_digest_mismatch, provenance_incomplete, decision_tampered,
  evidence_tampered, missing_lifecycle, candidate_rejected, invalid_lifecycle,
}
use agent_capability_forge.Records.{
  Text, Provenance, Authority, Decision, Run, Policy, Candidate, Transition, Lifecycle, Evidence,
  Store, run_eq, policy_eq, lifecycle_eq,
}
use agent_capability_forge.Ledger.{is_empty}
use agent_capability_forge.Validation.Request.{empty_text}

-- `run is not None and x != run.get(key)`
abbrev pub run_differs : (Run → Text) → Text → Option Run → Bool
run_differs key x none = false
run_differs key x (some r) = x != key r

abbrev pub is_none {ℓ} : {A : Type ℓ} → Option A → Bool
is_none none = true
is_none (some a) = false

abbrev pub decision_tests : Authority → Decision → Option Run → List (Bool × Code)
decision_tests a d run =
    (d.value != some "PROMOTE", decision_not_promote)
    ∷ (d.gate_result != some "PASS", gate_not_pass)
    ∷ (a.evaluation_run_id != d.run_id, run_mismatch)
    ∷ (is_none run, run_missing)
    ∷ []

abbrev pub candidate_tests : Authority → Decision → Option Run → Candidate → List (Bool × Code)
candidate_tests a d run c =
    (
      a.candidate_id != d.candidate_id || run_differs (λ r. r.candidate_id) a.candidate_id run,
      candidate_id_mismatch,
    )
    ∷ (
      a.candidate_version != d.candidate_version
          || a.candidate_version != c.version
          || run_differs (λ r. r.candidate_version) a.candidate_version run,
      candidate_version_mismatch,
    )
    ∷ []

abbrev pub no_policy : Policy
no_policy = record {
  policy_id = none;
  version = none;
  registered = none;
  frozen = none;
  content_ref = none;
}

abbrev pub no_run : Run
no_run = record {
  run_id = none;
  candidate_id = none;
  candidate_version = none;
  artifact_digest = none;
  policy_ref = none;
  policy_version = none;
  status = none;
  created_at = none;
}

-- Python's truth of a dict or None: there, and not empty.
abbrev pub real_policy : Option Policy → Bool
real_policy none = false
real_policy (some p) = p != no_policy

abbrev pub real_run : Option Run → Bool
real_run none = false
real_run (some r) = r != no_run

-- `policy.get(key)` as a truth value.
abbrev pub flag : (Policy → Option Bool) → Option Policy → Bool
flag key none = false
flag key (some p) = key p == some true

-- The three comparisons of a run with its decision and policy.
abbrev pub run_policy_differs : Decision → Option Run → Option Policy → Bool
run_policy_differs d none policy = false
run_policy_differs d (some r) none = false
run_policy_differs d (some r) (some p) =
    r.policy_ref != d.policy_ref
    || r.policy_version != d.policy_version
    || r.policy_version != p.version

abbrev pub policy_tests : Authority → Decision → Option Run → Option Policy → List (Bool × Code)
policy_tests a d run policy =
    (a.policy_version != d.policy_version, policy_version_mismatch)
    ∷ (not (real_policy policy) || not (flag (λ p. p.registered) policy), policy_not_registered)
    ∷ (real_policy policy && not (flag (λ p. p.frozen) policy), policy_not_frozen)
    ∷ ((real_run run && real_policy policy) && run_policy_differs d run policy, run_policy_mismatch)
    ∷ []

abbrev pub run_digest : Option Run → Text
run_digest none = none
run_digest (some r) = r.artifact_digest

-- `len(set(digests)) != 1 or not first`
unfoldable pub digests_disagree : Text → List Text → Bool
digests_disagree first rest = not (all (λ x. x == first) rest) || empty_text first

-- `not prov.get(key)`
abbrev pub unset_flag : Option Bool → Bool
unset_flag none = true
unset_flag (some b) = not b

abbrev pub unset_list : Option (List String) → Bool
unset_list none = true
unset_list (some l) = is_empty l

abbrev pub listed : String → Option (List String) → Bool
listed x none = false
listed x (some l) = any (λ y. x == y) l

abbrev pub run_gap : Text → Provenance → List String
run_gap none p = []
run_gap (some r) p = if listed r p.run_ids then [] else text_append "run_ids:" r ∷ []

-- `_missing_provenance`
unfoldable pub missing_provenance : Option Provenance → Text → List String
missing_provenance none run_id = "provenance" ∷ []
missing_provenance (some p) run_id =
    report (
      (unset_flag p.policy, "policy")
      ∷ (unset_flag p.evidence_manifest, "evidence_manifest")
      ∷ (unset_list p.run_ids, "run_ids")
      ∷ (unset_list p.immutable_artifact_refs, "immutable_artifact_refs")
      ∷ [])
    ++ run_gap run_id p

-- An evidence record of the decision's run whose hashes differ.
abbrev pub tampered : Text → Evidence → Bool
tampered run_id e = e.run_id == run_id && e.recorded_hash != e.current_hash

abbrev pub content_tests :
    Authority → Decision → Option Run → Candidate → Store → Text → List (Bool × Code)
content_tests a d run c s actual =
    (
      digests_disagree a.artifact_digest
          (d.artifact_digest ∷ run_digest run ∷ c.forged_artifact_digest ∷ actual ∷ []),
      artifact_digest_mismatch,
    )
    ∷ (not (is_empty (missing_provenance a.provenance d.run_id)), provenance_incomplete)
    ∷ (d.recorded_hash != d.current_hash, decision_tampered)
    ∷ (any (tampered d.run_id) s.evidence, evidence_tampered)
    ∷ []

-- The transition PROMOTABLE -> PROMOTED.
abbrev pub promotes : Transition → Bool
promotes t = t.source == some "PROMOTABLE" && t.target == some "PROMOTED"

-- The lifecycle blocks, for the status that the caller expects.
unfoldable pub lifecycle_violations : Text → Option Lifecycle → List Code
lifecycle_violations expected none = missing_lifecycle ∷ []
lifecycle_violations expected (some l) =
    if not l.has_keys
    then missing_lifecycle ∷ []
    else if l.status == some "REJECTED"
    then candidate_rejected ∷ []
    else if l.status != expected
    then invalid_lifecycle ∷ []
    else if not (any promotes l.transitions)
    then invalid_lifecycle ∷ []
    else []
