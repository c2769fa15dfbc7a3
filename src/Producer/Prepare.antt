-- ===== src/Producer/Prepare.antt =====
-- issue_authority of pilot/adoption_authority_producer.py up to the store: its guards, the content of
-- the candidate, and the records with their defaults.
use Prim.Native.String.{◌++◌ as text_append, slice}
use agent_capability_forge.Prelude.{
  ℕ, String, Bool, true, false, not, ◌&&◌, Option, none, some, List, [], ◌∷◌, ◌++◌, ◌==◌, ◌!=◌,
  if◌then◌else◌, string_eq, option_eq,
}
use agent_capability_forge.Code.{
  human_confirm_missing, evaluation_missing, untrusted_issuer, evaluation_not_pass,
  candidate_metadata_missing, canonical_candidate_requires_frozen_root,
}
use agent_capability_forge.Records.{
  Text, Provenance, Authority, Decision, Run, Policy, Lifecycle, Evidence,
}
use agent_capability_forge.Disk.{
  Outcome, ok, blocked, raised, Disk, ◌>>=◌, ◌>>◌, refuse_if, refuse_all, or_refuse,
}
use agent_capability_forge.Host.{Host, sha256, shown}
use agent_capability_forge.Ledger.{issuer_allowed, is_empty}
use agent_capability_forge.Validation.{empty_text}
use agent_capability_forge.Frozen.{
  Sealer, FrozenStore, Evaluation, Live, frozen_checks, evaluation_binding_violations,
  live_candidate_violations,
}
use agent_capability_forge.Registry.{checked_record, legacy_digest}
use agent_capability_forge.Producer.{Proposal, issue}

-- `confirm`, where it is a dict; `confirmed` says that its `confirm` is True.
pub record Confirm : Type 0 where
  pub confirmed : Bool
  pub issuer_id : Text
  pub operator : Text

-- The arguments of issue_authority. A record that is not given is made from the others.
pub record Issuance : Type 0 where
  pub candidate : Live
  pub evaluation : Option Evaluation
  pub frozen_root : Text
  pub confirm : Option Confirm
  pub policy : Option Policy
  pub decision : Option Decision
  pub run : Option Run
  pub provenance : Option Provenance
  pub evidence : Option Evidence
  pub lifecycle : Option Lifecycle
  pub issuer_id : Text
  pub issuer_type : Text

-- What the producer takes from Python besides the host.
pub record Writer : Type 0 where
  -- json.dumps of an evaluation, and the decimal digits of an integer
  pub dumps_evaluation : Evaluation → String
  pub digits : ℕ → String

unfoldable pub confirmation : Option Confirm → Outcome Confirm
confirmation none = blocked (human_confirm_missing ∷ [])
confirmation (some c) = if c.confirmed then ok c else blocked (human_confirm_missing ∷ [])

-- `x or y`
abbrev pub or_other : Text → Text → Text
or_other x y = if empty_text x then y else x

-- DEFAULT_ISSUER_ID
abbrev pub default_issuer : Text
default_issuer = some "pilot-rehearsal"

unfoldable pub issuer_of : Issuance → Confirm → Text
issuer_of q c = or_other q.issuer_id (or_other c.issuer_id (or_other c.operator default_issuer))

abbrev pub is_given : {A : Type 0} → Option A → Bool
is_given none = false
is_given (some a) = true

-- The guards before the candidate is read, with the evaluation and the issuer.
unfoldable pub issue_guards : Host → Issuance → Outcome (Evaluation × Text)
issue_guards h q = do
  c ← confirmation q.confirm
  e ← or_refuse q.evaluation evaluation_missing
  refuse_if (empty_text e.evaluation_id) evaluation_missing
  refuse_if (not (issuer_allowed h (issuer_of q c))) untrusted_issuer
  refuse_if (not (is_given q.decision) && e.verdict != some "PASS") evaluation_not_pass
  ok (e, issuer_of q c)

-- What issue_authority reads of the candidate.
pub record Content : Type 0 where
  pub candidate_id : String
  pub candidate_version : String
  pub created_at : Text
  pub artifact_digest : Text
  pub seal_digest : Text

abbrev pub version_name : Writer → Option ℕ → String
version_name w none = "vNone"
version_name w (some n) = text_append "v" (w.digits n)

-- The live directory of Phase 8. A key that is missing is an exception, which blocks.
unfoldable pub legacy_content : Host → Writer → Live → String → Outcome Content
legacy_content h w live id = do
  refuse_if (not (is_empty live.source_bundle_ids)) canonical_candidate_requires_frozen_root
  manifest ← or_refuse live.manifest candidate_metadata_missing
  version ← or_refuse manifest.version candidate_metadata_missing
  created_at ← or_refuse manifest.forge_timestamp candidate_metadata_missing
  ok (record {
    candidate_id = id;
    candidate_version = version_name w (some version);
    created_at = some created_at;
    artifact_digest = legacy_digest h live.artifact;
    seal_digest = none;
  })

-- The frozen candidate.
unfoldable pub frozen_content :
    Sealer → Writer → FrozenStore → Live → Evaluation → String → Outcome Content
frozen_content s w store live e id = do
  found ← checked_record (frozen_checks s store id)
  refuse_all
      (evaluation_binding_violations e found.0 ++ live_candidate_violations s found.0 found.1 live)
  ok (record {
    candidate_id = id;
    candidate_version = version_name w found.1.version;
    created_at = found.1.created_at;
    artifact_digest = found.0.artifact_digest;
    seal_digest = found.0.seal_digest;
  })

unfoldable pub content_at :
    Host
    → Sealer
    → Writer
    → (String → FrozenStore)
    → Live
    → Evaluation
    → String
    → Text
    → Outcome Content
content_at h s w frozen live e id none = legacy_content h w live id
content_at h s w frozen live e id (some root) = frozen_content s w (frozen root) live e id

unfoldable pub issue_content :
    Host → Sealer → Writer → (String → FrozenStore) → Issuance → Evaluation → Outcome Content
issue_content h s w frozen q e = do
  id ← or_refuse q.candidate.candidate_id candidate_metadata_missing
  content_at h s w frozen q.candidate e id q.frozen_root

abbrev pub given : {A : Type 0} → Option A → A → A
given none d = d
given (some a) d = a

-- DEFAULT_POLICY and DEFAULT_POLICY_REF
abbrev pub default_policy : Policy
default_policy = record {
  policy_id = none;
  version = some "1";
  registered = some true;
  frozen = some true;
  content_ref = some "src/forge/evaluator.py:PROMOTION_RULE";
}

abbrev pub default_policy_ref : String
default_policy_ref = "pilot-promotion-rule-v1"

-- `policy.get("policy_id") or DEFAULT_POLICY_REF`, `str(policy.get("version", "1"))`
abbrev pub policy_ref_of : Policy → String
policy_ref_of p = if empty_text p.policy_id then default_policy_ref else shown p.policy_id

abbrev pub policy_version_of : Policy → String
policy_version_of p = given p.version "1"

-- _decision_id
unfoldable pub decision_id_for : Host → String → String → Text → String
decision_id_for h candidate_id version run_id = text_append "dec-" (
    slice
      (h.hexdigest (
        text_append candidate_id
          (text_append "|" (text_append version (text_append "|" (shown run_id))))))
      0 12)

unfoldable pub decision_of : Host → Content → Evaluation → Policy → Text → Decision
decision_of h c e p created_at = record {
  decision_id = some (decision_id_for h c.candidate_id c.candidate_version e.evaluation_id);
  candidate_id = some c.candidate_id;
  candidate_version = some c.candidate_version;
  run_id = e.evaluation_id;
  policy_ref = some (policy_ref_of p);
  policy_version = some (policy_version_of p);
  artifact_digest = c.artifact_digest;
  value = some "PROMOTE";
  gate_result = some "PASS";
  created_at = created_at;
  recorded_hash = none;
  current_hash = none;
  null_created = false;
}

-- A decision without a recorded hash gets the hash of its content.
unfoldable pub with_hash : Host → Decision → Decision
with_hash h d =
    let hash = some (sha256 h (h.dumps_decision (record d { current_hash = none }))) in
    elim d.recorded_hash [
      | none ↦ record d { recorded_hash = hash; current_hash = hash }
      | some r ↦ d
    ]

unfoldable pub run_of : Content → Evaluation → Policy → Text → Run
run_of c e p created_at = record {
  run_id = e.evaluation_id;
  candidate_id = some c.candidate_id;
  candidate_version = some c.candidate_version;
  artifact_digest = c.artifact_digest;
  policy_ref = some (policy_ref_of p);
  policy_version = some (policy_version_of p);
  status = some "EVALUATED";
  created_at = created_at;
}

abbrev pub artifact_refs : Text → List String
artifact_refs none = []
artifact_refs (some d) = if d == "" then [] else text_append "artifact:" d ∷ []

unfoldable pub provenance_of : Content → Evaluation → Provenance
provenance_of c e = record {
  policy = some true;
  evidence_manifest = some true;
  run_ids = some (shown e.evaluation_id ∷ []);
  immutable_artifact_refs = some (artifact_refs c.artifact_digest);
}

-- `"ev-" + h[len("sha256:"):][:12]`
unfoldable pub evidence_of : Host → Writer → Evaluation → Evidence
evidence_of h w e = record {
  evidence_id = some (text_append "ev-" (slice (h.hexdigest (w.dumps_evaluation e)) 0 12));
  run_id = e.evaluation_id;
  recorded_hash = some (sha256 h (w.dumps_evaluation e));
  current_hash = some (sha256 h (w.dumps_evaluation e));
}

abbrev pub promotable : Lifecycle
promotable = record {
  has_keys = true;
  status = some "PROMOTABLE";
  transitions = record { source = some "PROMOTABLE"; target = some "PROMOTED" } ∷ [];
}

-- The records, each as given or made.
unfoldable pub proposal_of : Host → Writer → Issuance → Content → Evaluation → Text → Proposal
proposal_of h w q c e issuer_id =
    let policy = given q.policy default_policy in
    let created_at = or_other e.evaluated_at (some h.now) in
    record {
      policy_ref = policy_ref_of policy;
      policy = policy;
      candidate_id = c.candidate_id;
      candidate = record {
        version = some c.candidate_version;
        created_at = c.created_at;
        forged_artifact_digest = c.artifact_digest;
      };
      run = given q.run (run_of c e policy created_at);
      evidence = given q.evidence (evidence_of h w e);
      provenance = given q.provenance (provenance_of c e);
      decision = with_hash h (given q.decision (decision_of h c e policy created_at));
      lifecycle = given q.lifecycle promotable;
      artifact_digest = c.artifact_digest;
      seal_digest = c.seal_digest;
      issuer_id = issuer_id;
      issuer_type = q.issuer_type;
    }

unfoldable pub prepare :
    Host → Sealer → Writer → (String → FrozenStore) → Issuance → Outcome Proposal
prepare h s w frozen q = do
  guarded ← issue_guards h q
  c ← issue_content h s w frozen q guarded.0
  ok (proposal_of h w q c guarded.0 guarded.1)

unfoldable pub issue_prepared :
    (Disk → Disk) → Host → Outcome Proposal → Disk → Outcome Authority × Disk
issue_prepared others h (ok p) d = issue others h p d
issue_prepared others h (blocked cs) d = (blocked cs, d)
issue_prepared others h raised d = (raised, d)

-- issue_authority
unfoldable pub issue_authority :
    (Disk → Disk)
    → Host
    → Sealer
    → Writer
    → (String → FrozenStore)
    → Issuance
    → Disk
    → Outcome Authority × Disk
issue_authority others h s w frozen q d = issue_prepared others h (prepare h s w frozen q) d
