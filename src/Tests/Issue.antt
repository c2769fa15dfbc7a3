-- ===== src/Tests/Issue.antt =====
-- The candidate of the fixtures gets its authority, in a registry without a store.
use agent_capability_forge.Prelude.{String, true, none, some, [], false}
use agent_capability_forge.Disk.{missing, Disk}
use agent_capability_forge.Frozen.{FrozenStore}
use agent_capability_forge.Producer.Prepare.{Issuance, Writer, issue_authority}
use agent_capability_forge.Producer.Confirmed.{Authorises, issue_authority-Authorises}
use agent_capability_forge.Tests.Fixtures.{host}
use agent_capability_forge.Tests.Agents.{sealer, promotion, evaluation, manifest}

abbrev issuance : Issuance
issuance = record {
  candidate = record promotion.candidate {
    manifest = some (record manifest { forge_timestamp = some "2026-01-01T00:00:00.000Z" });
  };
  evaluation = some evaluation;
  frozen_root = none;
  confirm = some (record { confirmed = true; issuer_id = none; operator = some "operator" });
  policy = none;
  decision = none;
  run = none;
  provenance = none;
  evidence = none;
  lifecycle = none;
  issuer_id = none;
  issuer_type = some "operator";
}

abbrev writer : Writer
writer = record { dumps_evaluation = λ e. "evaluation"; digits = λ n. "1" }

abbrev no_frozen : String → FrozenStore
no_frozen root = record { records = []; snapshots = [] }

abbrev no_files : Disk
no_files = record {
  store = missing;
  anchor = missing;
  has_ledger = false;
  records = [];
  events = [];
  open_lines = [];
  lacking_keys = [];
}

issue_authority-Authorises_example :
    Authorises host issuance
      (issue_authority (λ d. d) host sealer writer no_frozen issuance no_files)
issue_authority-Authorises_example =
    issue_authority-Authorises (λ d. d) host sealer writer no_frozen issuance no_files
