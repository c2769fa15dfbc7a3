-- ===== src/Validation/Request.antt =====
-- The first blocks of violations_for_authority (pilot/adoption_authority.py), on the authority and
-- the ledger, and the lookups in the store. Each block of `if test: block(code)` statements is a
-- list of tests with their codes, and `report` keeps the codes of those that fire.
use agent_capability_forge.Prelude.{
  Bool, true, false, not, ◌&&◌, ◌||◌, Option, none, some, List, [], ◌∷◌, ◌++◌, ◌==◌, ◌!=◌,
  if◌then◌else◌, string_eq, bool_eq, option_eq, list_eq, any, find, report, get?,
}
use agent_capability_forge.Code.{
  Code, request_metadata_missing, authority_id_mismatch, authority_binding_mismatch,
  untrusted_issuer, integrity_store_corrupted, revoked_decision,
}
use agent_capability_forge.Records.{
  Text, Provenance, Authority, Decision, Run, Policy, Candidate, Lifecycle, Revocation, Store,
  provenance_eq, authority_eq, run_eq, policy_eq, lifecycle_eq,
}
use agent_capability_forge.Disk.{Disk}
use agent_capability_forge.Host.{Host, authority_id_for}
use agent_capability_forge.Integrity.{hardened_mode, store_integrity_mode}
use agent_capability_forge.Ledger.{issuer_allowed, load_authority_record, load_authority_events}

-- `x in (None, "", {})`, and Python's `not x`, on a text.
unfoldable pub empty_text : Text → Bool
empty_text none = true
empty_text (some t) = t == ""

abbrev pub no_provenance : Provenance
no_provenance = record {
  policy = none;
  evidence_manifest = none;
  run_ids = none;
  immutable_artifact_refs = none;
}

unfoldable pub empty_provenance : Option Provenance → Bool
empty_provenance none = true
empty_provenance (some p) = p == no_provenance

-- Whether one of AUTHORITY_FIELDS is missing.
unfoldable pub metadata_missing : Authority → Bool
metadata_missing a =
    empty_text a.candidate_id
    || empty_text a.candidate_version
    || empty_text a.promotion_decision_id
    || empty_text a.evaluation_run_id
    || empty_text a.policy_version
    || empty_text a.artifact_digest
    || empty_provenance a.provenance

-- `x not in (None, y)`
abbrev pub conflicts : Text → Text → Bool
conflicts none y = false
conflicts (some x) y = some x != y

abbrev pub authority_tests : Host → Authority → List (Bool × Code)
authority_tests h a =
    (metadata_missing a, request_metadata_missing)
    ∷ (
      a.authority_id
          != some (authority_id_for h a.candidate_id a.candidate_version a.promotion_decision_id),
      authority_id_mismatch,
    )
    ∷ (conflicts a.decision_id a.promotion_decision_id, authority_binding_mismatch)
    ∷ (not (issuer_allowed h a.issuer_id), untrusted_issuer)
    ∷ []

-- REVOCABLE_STATUSES
unfoldable pub revocable : Text → Bool
revocable status = status == some "REVOKED" || status == some "SUPERSEDED"

abbrev pub differs : Option Authority → Authority → Bool
differs none a = false
differs (some r) a = r != a

-- The record and the events of the ledger; `none` is the exception of a file that cannot be read.
unfoldable pub ledger_file_violations :
    Authority → Option (Option Authority) → Option (List Revocation) → List Code
ledger_file_violations a none es = authority_binding_mismatch ∷ []
ledger_file_violations a (some r) none = authority_binding_mismatch ∷ []
ledger_file_violations a (some r) (some es) = report (
    (differs r a, authority_binding_mismatch)
    ∷ (any (λ (e : Revocation). revocable e.status) es, revoked_decision)
    ∷ [])

unfoldable pub ledger_violations : Authority → Text → Disk → List Code
ledger_violations a none d = []
ledger_violations a (some id) d =
    if id == ""
    then []
    else ledger_file_violations a (load_authority_record d id) (load_authority_events d id)

-- The blocks on the ledger; without a registry root they are skipped.
unfoldable pub root_violations : Authority → Store → Option Disk → List Code
root_violations a s none = []
root_violations a s (some d) =
    report (
      (store_integrity_mode s == hardened_mode && not d.has_ledger, integrity_store_corrupted) ∷ [])
    ++ ledger_violations a a.authority_id d

unfoldable pub find_decision : Store → Text → Option Decision
find_decision s id = find (λ (d : Decision). d.decision_id == id) s.decisions

unfoldable pub find_run : Store → Text → Option Run
find_run s id = find (λ (r : Run). r.run_id == id) s.runs

unfoldable pub find_policy : Store → Text → Option Policy
find_policy s ref = get? ref s.policies

unfoldable pub find_lifecycle : Store → Text → Option Lifecycle
find_lifecycle s id = get? id s.lifecycle

abbrev pub no_candidate : Candidate
no_candidate = record { version = none; created_at = none; forged_artifact_digest = none }

abbrev pub or_no_candidate : Option Candidate → Candidate
or_no_candidate none = no_candidate
or_no_candidate (some c) = c

-- `(store.get("candidates", {}) or {}).get(cand_id, {})`
unfoldable pub find_candidate : Store → Text → Candidate
find_candidate s id = or_no_candidate (get? id s.candidates)
