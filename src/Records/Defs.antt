-- ===== src/Records/Defs.antt =====
-- The dicts inside adoption_store.json, and the store itself.
use agent_capability_forge.Prelude.{String, Bool, false, Option, none, List, [], Map}

abbrev pub Text : Type 0
Text = Option String

pub record Provenance : Type 0 where
  pub policy : Option Bool
  pub evidence_manifest : Option Bool
  pub run_ids : Option (List String)
  pub immutable_artifact_refs : Option (List String)

-- The dict that issue_authority builds and that the ledger keeps.
pub record Authority : Type 0 where
  pub authority_id : Text
  pub candidate_id : Text
  pub candidate_version : Text
  pub promotion_decision_id : Text
  pub evaluation_run_id : Text
  pub policy_version : Text
  pub artifact_digest : Text
  pub provenance : Option Provenance
  pub issued_at : Text
  pub status : Text
  pub issuer_id : Text
  pub issuer_type : Text
  pub decision_id : Text
  pub artifact_identity : Text
  pub seal_digest : Text

pub record Decision : Type 0 where
  pub decision_id : Text
  pub candidate_id : Text
  pub candidate_version : Text
  pub run_id : Text
  pub policy_ref : Text
  pub policy_version : Text
  pub artifact_digest : Text
  pub value : Text
  pub gate_result : Text
  pub created_at : Text
  pub recorded_hash : Text
  pub current_hash : Text
  -- whether `created_at` is there with a null; `created_at` is then `none`
  pub null_created : Bool

pub record Run : Type 0 where
  pub run_id : Text
  pub candidate_id : Text
  pub candidate_version : Text
  pub artifact_digest : Text
  pub policy_ref : Text
  pub policy_version : Text
  pub status : Text
  pub created_at : Text

pub record Policy : Type 0 where
  pub policy_id : Text
  pub version : Text
  pub registered : Option Bool
  pub frozen : Option Bool
  pub content_ref : Text

pub record Candidate : Type 0 where
  pub version : Text
  pub created_at : Text
  pub forged_artifact_digest : Text

-- `from` and `to` of one allowed lifecycle transition.
pub record Transition : Type 0 where
  pub source : Text
  pub target : Text

pub record Lifecycle : Type 0 where
  -- whether the dict has any key
  pub has_keys : Bool
  pub status : Text
  pub transitions : List Transition

pub record Evidence : Type 0 where
  pub evidence_id : Text
  pub run_id : Text
  pub recorded_hash : Text
  pub current_hash : Text

-- A revocation event, in the ledger's event files and in the store's copy.
pub record Revocation : Type 0 where
  pub event : Text
  pub revocation_id : Text
  pub authority_id : Text
  pub candidate_id : Text
  pub candidate_version : Text
  pub decision_id : Text
  pub promotion_decision_id : Text
  pub status : Text
  pub issuer_id : Text
  pub reason : Text
  pub revoked_at : Text

pub record Metadata : Type 0 where
  pub schema_version : Text
  pub integrity_mode : Text
  pub store_id : Text
  -- whether trust_anchor_sealed is True
  pub sealed : Bool

pub record RunRequest : Type 0 where
  pub name : Text
  pub capability_id : Text
  pub candidate_id : Text
  pub candidate_version : Text
  pub artifact_digest : Text
  pub seal_digest : Text
  pub promotion_decision_id : Text
  pub created_at : Text

pub record Store : Type 0 where
  pub metadata : Metadata
  pub policies : Map Policy
  pub candidates : Map Candidate
  pub runs : List Run
  pub evidence : List Evidence
  pub provenance : Map Provenance
  pub decisions : List Decision
  pub lifecycle : Map Lifecycle
  -- `none` is an element that is not a dict
  pub revocations : List (Option Revocation)
  pub authorities : List Authority
  pub run_request : Option RunRequest

abbrev pub no_metadata : Metadata
no_metadata = record {
  schema_version = none;
  integrity_mode = none;
  store_id = none;
  sealed = false;
}

-- `{}`, to which issue_authority adds its sections.
abbrev pub empty_store : Store
empty_store = record {
  metadata = no_metadata;
  policies = [];
  candidates = [];
  runs = [];
  evidence = [];
  provenance = [];
  decisions = [];
  lifecycle = [];
  revocations = [];
  authorities = [];
  run_request = none;
}
