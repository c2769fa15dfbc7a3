-- ===== src/Lib.antt =====
-- The adoption control plane of the agent capability forge: who may promote a formed candidate to an
-- agent of the registry, who may revoke that, and what is checked again before the agent's artifact is
-- run.
--
-- The parts and their files:
--
-- - Records, Code: the JSON dicts of adoption_store.json and of the ledger, and the violation codes.
--   A dict is a record type, `d.get(key)` an optional field. Messages are left out.
-- - Disk, Host: the files under one registry root, each missing, unreadable or holding a record. Disk
--   also says which event files end without a newline, so that the next event is joined to their
--   last line, and which records lack a key that the code subscripts. Host is what the
--   program takes from Python: SHA-256, the JSON printer, the clock, fresh identifiers, the trusted
--   issuers of the environment. It is a parameter of every definition that uses it; the one
--   hypothesis on it is that an identifier of uuid4 is not in use yet (Fleet). An exception is the
--   value `raised`, AdoptionBlocked and a refusal code are `blocked`.
-- - Integrity: the external trust anchor (pilot/adoption_authority.py, integrity_anchor_violations,
--   write_trust_anchor, seal_trust_anchor).
-- - Ledger: authorities/<id>.json and the event files (write_authority_record,
--   append_authority_event). The write-once record takes a function `others`, which is all that other
--   processes do between the existence test and the link.
-- - Revocations, Revoke: revocation records, revoke_authority.
-- - Validation: violations_for_authority, one list of tests with their codes for each block of the
--   source, and validate. Admission states what it should decide (Admission/Spec) and proves that.
-- - Frozen: src/forge/capabilityizer.py, the exact artifact layout, the digests and the verification of
--   frozen candidates. Sealer is its parameter: SHA-256, the canonical printer and two path tests.
--   Sealed has its theorems.
-- - Registry: pilot/registry.py, promote, discover and discover_version over a World (the disk, the
--   frozen stores, the agents and the copied artifacts); `others` as above, between the look at the
--   entry and its exclusive creation. Promotion has its theorems.
-- - Guard: pilot/runtime_adoption_guard.py, the activation checks, adopt, verify_at_mount,
--   mark_promoted, the run intent and its cache, and the isolation check of the snapshot. System is
--   its parameter: the user, owners and modes, Path.resolve. Activation has its theorems.
-- - Producer: issue_authority of pilot/adoption_authority_producer.py. Producer/Prepare has its guards
--   and the records it makes, Producer itself what it does with them to the disk. Writer is its
--   parameter: the printer of an evaluation and of an integer.
-- - Managed: pilot/managed_runtime.py, the events of versions, deployments and instances, reconcile,
--   upgrade, revoke_version. State holds the three append-only files, with the events that _append
--   wrote, oldest first; Site the state root and the registries. Manager (Host, Sealer, the printer of a snapshot identity) and
--   Runtime (what starts and stops a container) are parameters. Timestamps that nothing reads and the
--   free text of reports are left out. Fleet has its theorems; Fleet/Life has the calls as a step
--   relation, in which an identifier of uuid4 is one that is not used yet, and Fleet/Logs, Fleet/Active
--   and Fleet/Moves count the active instances.
-- - Tests: one candidate on its way from the store to the mount, and the theorems at that candidate.
--
-- Producer, registry, guard and revocation meet in the disk: promote and adopt read the same store,
-- ledger and anchor that issue_authority, revoke_authority and mark_promoted write; revoke_version
-- calls revoke_authority, and reconcile reads the ledger's events. No definition runs on fuel; every
-- loop is structural. A write of one file is atomic, and its failure in the operating system is not
-- modelled.
--
-- Not modelled: reject of the registry, the DockerRuntime of the managed runtime, the harness and the
-- formation of candidates, which mostly drive other processes and copy files; research and archived
-- documents.
pub mod Prelude
pub mod Code
pub mod Records
pub mod Disk
pub mod Host
pub mod Integrity
pub mod Ledger
pub mod Revocations
pub mod Validation
pub mod Admission
pub mod Revoke
pub mod Frozen
pub mod Sealed
pub mod Registry
pub mod Promotion
pub mod Guard
pub mod Activation
pub mod Producer
pub mod Managed
pub mod Fleet
pub mod Tests
