-- ===== src/Guard/Intent.antt =====
-- The run intent of pilot/runtime_adoption_guard.py: the four identity fields, the run_request of
-- the store, and the b3_entry file that caches it.
use agent_capability_forge.Prelude.{
  Bool, ◌||◌, Option, none, some, List, [], ◌∷◌, ◌++◌, ◌!=◌, if◌then◌else◌, string_eq, option_eq,
  report,
}
use agent_capability_forge.Code.{
  Code, missing_identity, candidate_id_mismatch, candidate_version_mismatch,
  artifact_digest_mismatch, seal_digest_mismatch, missing_run_request, run_request_cache_mismatch,
}
use agent_capability_forge.Records.{Text, Authority, RunRequest, Store}
use agent_capability_forge.Disk.{
  Doc, missing, unreadable, holds, Outcome, ok, blocked, Disk, ◌>>=◌, ◌>>◌, refuse_if, refuse_all,
  or_raise,
}
use agent_capability_forge.Host.{Host}
use agent_capability_forge.Integrity.{integrity_anchor_violations}
use agent_capability_forge.Ledger.{load_store}
use agent_capability_forge.Validation.{empty_text}
use agent_capability_forge.Registry.{Entry}

-- IDENTITY_FIELDS
pub record Identity : Type 0 where
  pub candidate_id : Text
  pub candidate_version : Text
  pub artifact_digest : Text
  pub seal_digest : Text

unfoldable pub field_violations : Text → Text → Code → List Code
field_violations expected actual code =
    if empty_text expected
    then missing_identity ∷ []
    else if empty_text actual
    then missing_identity ∷ []
    else if expected != actual
    then code ∷ []
    else []

unfoldable pub identity_violations : Identity → Identity → List Code
identity_violations x y =
    field_violations x.candidate_id y.candidate_id candidate_id_mismatch
    ++ field_violations x.candidate_version y.candidate_version candidate_version_mismatch
    ++ field_violations x.artifact_digest y.artifact_digest artifact_digest_mismatch
    ++ field_violations x.seal_digest y.seal_digest seal_digest_mismatch

-- `authority.get("issued_at") or ""`
abbrev pub or_blank : Text → Text
or_blank none = some ""
or_blank (some t) = some t

-- _run_request
unfoldable pub run_request_of : Entry → Authority → RunRequest
run_request_of e a = record {
  name = e.name;
  capability_id = e.capability_id;
  candidate_id = a.candidate_id;
  candidate_version = a.candidate_version;
  artifact_digest = a.artifact_digest;
  seal_digest = a.seal_digest;
  promotion_decision_id = a.promotion_decision_id;
  created_at = or_blank a.issued_at;
}

abbrev pub identity_missing : RunRequest → Bool
identity_missing r =
    empty_text r.candidate_id
    || empty_text r.candidate_version
    || empty_text r.artifact_digest
    || empty_text r.seal_digest

unfoldable pub trusted_request : Option RunRequest → Outcome (Option RunRequest)
trusted_request none = ok none
trusted_request (some r) = do
  refuse_if (empty_text r.name) missing_run_request
  refuse_if (identity_missing r) missing_identity
  ok (some r)

unfoldable pub request_of_store : Host → Disk → Option Store → Outcome (Option RunRequest)
request_of_store h d none = ok none
request_of_store h d (some s) = do
  refuse_all (integrity_anchor_violations h s d)
  trusted_request s.run_request

unfoldable pub load_trusted_run_request : Host → Disk → Outcome (Option RunRequest)
load_trusted_run_request h d = do store ← or_raise (load_store d); request_of_store h d store

-- The b3_entry file: CACHE_FIELDS.
pub record Cache : Type 0 where
  pub name : Text
  pub capability_id : Text
  pub candidate_id : Text
  pub candidate_version : Text
  pub artifact_digest : Text
  pub seal_digest : Text

unfoldable pub derived_b3_entry : RunRequest → Cache
derived_b3_entry r = record {
  name = r.name;
  capability_id = r.capability_id;
  candidate_id = r.candidate_id;
  candidate_version = r.candidate_version;
  artifact_digest = r.artifact_digest;
  seal_digest = r.seal_digest;
}

-- The fields of CACHE_IDENTITY_FIELDS that differ; the capability identifier is not one of them.
unfoldable pub run_request_cache_violations : RunRequest → Cache → List Code
run_request_cache_violations r c = report (
    (r.name != c.name, run_request_cache_mismatch)
    ∷ (r.candidate_id != c.candidate_id, run_request_cache_mismatch)
    ∷ (r.candidate_version != c.candidate_version, run_request_cache_mismatch)
    ∷ (r.artifact_digest != c.artifact_digest, run_request_cache_mismatch)
    ∷ (r.seal_digest != c.seal_digest, run_request_cache_mismatch)
    ∷ [])

-- A missing file is written first and then read like one that was there. A file that holds JSON
-- other than an object answers the same code as one that cannot be read.
unfoldable pub rebuild : RunRequest → Doc Cache → Doc Cache
rebuild r missing = holds (derived_b3_entry r)
rebuild r unreadable = unreadable
rebuild r (holds c) = holds c

unfoldable pub check_cache : RunRequest → Doc Cache → Outcome Cache
check_cache r missing = blocked (run_request_cache_mismatch ∷ [])
check_cache r unreadable = blocked (run_request_cache_mismatch ∷ [])
check_cache r (holds c) = do refuse_all (run_request_cache_violations r c); ok c

unfoldable pub resolve_b3_cache : RunRequest → Doc Cache → Outcome Cache × Doc Cache
resolve_b3_cache r f = (check_cache r (rebuild r f), rebuild r f)
