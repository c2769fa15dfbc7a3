-- ===== src/Tests/Fixtures.antt =====
-- One candidate on its way to adoption: the host, the store, the ledger and the artifact that the
-- tests and the examples share.
use agent_capability_forge.Prelude.{String, true, false, none, some, [], ◌∷◌, ◌≡◌, refl}
use agent_capability_forge.Records.{
  Text, Provenance, Authority, Decision, Run, Policy, Candidate, Lifecycle, Evidence, Metadata,
  Store,
}
use agent_capability_forge.Disk.{missing, holds, Disk}
use agent_capability_forge.Host.{Host, authority_id_for}
use agent_capability_forge.Revoke.{Request}

-- A host whose digest is the text itself and whose printer keeps what tells the records apart.
abbrev pub host : Host
host = record {
  hexdigest = λ s. s;
  dumps_store = λ s. "store";
  dumps_authority = λ a. "authority";
  dumps_decision = λ d. "decision";
  dumps_manifest = λ m. "manifest";
  events_bytes = λ b f. "events";
  issuer_entries = [];
  strip = λ s. s;
  anchor_inside = false;
  now = "2026-01-03T00:00:00.000Z";
  fresh = "0123456789ab";
}

abbrev pub candidate_id : Text
candidate_id = some "cand-0123456789"

abbrev pub version : Text
version = some "v1"

abbrev pub decision_id : Text
decision_id = some "dec-0123456789"

abbrev pub run_id : Text
run_id = some "eval-1"

abbrev pub artifact : Text
artifact = some "sha256:manifest"

abbrev pub provenance : Provenance
provenance = record {
  policy = some true;
  evidence_manifest = some true;
  run_ids = some ("eval-1" ∷ []);
  immutable_artifact_refs = some ("artifact:sha256:manifest" ∷ []);
}

abbrev pub authority_name : String
authority_name = "auth-cand-0123456789|"

abbrev pub authority : Authority
authority = record {
  authority_id = some authority_name;
  candidate_id = candidate_id;
  candidate_version = version;
  promotion_decision_id = decision_id;
  evaluation_run_id = run_id;
  policy_version = some "1";
  artifact_digest = artifact;
  provenance = some provenance;
  issued_at = some "2026-01-02T00:00:00.000Z";
  status = some "ISSUED";
  issuer_id = some "pilot-rehearsal";
  issuer_type = some "operator";
  decision_id = decision_id;
  artifact_identity = none;
  seal_digest = none;
}

abbrev pub decision : Decision
decision = record {
  decision_id = decision_id;
  candidate_id = candidate_id;
  candidate_version = version;
  run_id = run_id;
  policy_ref = some "pilot-promotion-rule-v1";
  policy_version = some "1";
  artifact_digest = artifact;
  value = some "PROMOTE";
  gate_result = some "PASS";
  created_at = some "2026-01-02T00:00:00.000Z";
  recorded_hash = some "sha256:decision";
  current_hash = some "sha256:decision";
  null_created = false;
}

abbrev pub run : Run
run = record {
  run_id = run_id;
  candidate_id = candidate_id;
  candidate_version = version;
  artifact_digest = artifact;
  policy_ref = some "pilot-promotion-rule-v1";
  policy_version = some "1";
  status = some "EVALUATED";
  created_at = some "2026-01-02T00:00:00.000Z";
}

abbrev pub policy : Policy
policy = record {
  policy_id = none;
  version = some "1";
  registered = some true;
  frozen = some true;
  content_ref = some "src/forge/evaluator.py:PROMOTION_RULE";
}

abbrev pub candidate : Candidate
candidate = record {
  version = version;
  created_at = some "2026-01-01T00:00:00.000Z";
  forged_artifact_digest = artifact;
}

abbrev pub lifecycle : Lifecycle
lifecycle = record {
  has_keys = true;
  status = some "PROMOTABLE";
  transitions = record { source = some "PROMOTABLE"; target = some "PROMOTED" } ∷ [];
}

abbrev pub evidence : Evidence
evidence = record {
  evidence_id = some "ev-1";
  run_id = run_id;
  recorded_hash = some "sha256:e";
  current_hash = some "sha256:e";
}

abbrev pub hardened : Metadata
hardened = record {
  schema_version = some "adoption_store_v2";
  integrity_mode = some "hardened";
  store_id = some "store-1";
  sealed = false;
}

abbrev pub store : Store
store = record {
  metadata = hardened;
  policies = ("pilot-promotion-rule-v1", policy) ∷ [];
  candidates = ("cand-0123456789", candidate) ∷ [];
  runs = run ∷ [];
  evidence = evidence ∷ [];
  provenance = ("cand-0123456789", provenance) ∷ [];
  decisions = decision ∷ [];
  lifecycle = ("cand-0123456789", lifecycle) ∷ [];
  revocations = [];
  authorities = authority ∷ [];
  run_request = none;
}

abbrev pub disk : Disk
disk = record {
  store = holds store;
  anchor = missing;
  has_ledger = true;
  records = (authority_name, holds authority) ∷ [];
  events = [];
  open_lines = [];
  lacking_keys = [];
}

abbrev pub request : Request
request = record {
  authority_id = authority_name;
  status = "REVOKED";
  issuer_id = "pilot-rehearsal";
  reason = "withdrawn";
}

fixture_name : authority_id_for host candidate_id version decision_id ≡ authority_name
unfolding authority_id_for
fixture_name = refl
