-- ===== src/Integrity.antt =====
-- The integrity anchor of the store: pilot/adoption_authority.py, from store_integrity_mode to
-- seal_trust_anchor. The theorems are in the modules below.
pub mod Accepts
pub mod Sealing
pub mod Frame
use Prim.Native.String.{◌++◌ as text_append}
use agent_capability_forge.Prelude.{
  ℕ, ◌+◌, String, Bool, true, false, not, ◌&&◌, Option, none, some, List, [], ◌∷◌, ◌++◌, Map, ◌==◌,
  ◌!=◌, if◌then◌else◌, string_eq, bool_eq, option_eq, conj, report,
}
use agent_capability_forge.Code.{
  Code, integrity_store_corrupted, trust_anchor_config_invalid, trust_anchor_already_exists,
  trust_anchor_corrupted, missing_adoption_store,
}
use agent_capability_forge.Records.{Text, Authority, Revocation, Metadata, Store}
use agent_capability_forge.Disk.{
  Doc, missing, unreadable, holds, Outcome, ok, blocked, raised, exists, read, Revision, absent,
  malformed, number, Anchor, Disk, is_listed,
}
use agent_capability_forge.Host.{Host, sha256}

abbrev pub hardened_mode : String
hardened_mode = "hardened"

abbrev pub legacy_mode : String
legacy_mode = "legacy"

abbrev pub hardened_schema_version : String
hardened_schema_version = "adoption_store_v2"

abbrev pub anchor_schema_version : String
anchor_schema_version = "integrity_anchor_v1"

unfoldable pub store_integrity_mode : Store → String
store_integrity_mode s =
    if s.metadata.integrity_mode == some hardened_mode then hardened_mode else legacy_mode

abbrev pub or_text : Text → String → Text
or_text none d = some d
or_text (some t) d = some t

-- `store_metadata` keeps an identifier that it has, and gets a fresh one otherwise.
unfoldable pub mark_store_hardened : Host → Store → Store
mark_store_hardened h s = record s {
  metadata = record s.metadata {
    schema_version = some hardened_schema_version;
    integrity_mode = some hardened_mode;
    store_id = or_text s.metadata.store_id (text_append "store-" h.fresh);
  };
}

-- `{p.stem: _sha256(_canonical(json.loads(p.read_text())))}`; `none` is the exception of a record
-- that cannot be read.
unfoldable pub record_digests : Host → Map (Doc Authority) → Option (Map String)
record_digests h [] = some []
record_digests h ((id, missing) ∷ files) = record_digests h files
record_digests h ((id, unreadable) ∷ files) = none
record_digests h ((id, holds a) ∷ files) = elim (record_digests h files) [
  | none ↦ none
  | some m ↦ some ((id, sha256 h (h.dumps_authority a)) ∷ m)
]

unfoldable pub authority_manifest_digest : Host → Disk → Option String
authority_manifest_digest h d =
    if d.has_ledger
    then elim (record_digests h d.records) [
      | none ↦ none
      | some m ↦ some (sha256 h (h.dumps_manifest m))
    ]
    else some (sha256 h (h.dumps_manifest []))

unfoldable pub event_digests : Host → List String → Map (Doc (List Revocation)) → Map String
event_digests h opens [] = []
event_digests h opens ((id, missing) ∷ files) = event_digests h opens files
event_digests h opens ((id, unreadable) ∷ files) =
    (id, sha256 h (h.events_bytes (is_listed id opens) unreadable)) ∷ event_digests h opens files
event_digests h opens ((id, holds es) ∷ files) =
    (id, sha256 h (h.events_bytes (is_listed id opens) (holds es))) ∷ event_digests h opens files

unfoldable pub revocation_manifest_digest : Host → Disk → String
revocation_manifest_digest h d =
    sha256 h (h.dumps_manifest (if d.has_ledger then event_digests h d.open_lines d.events else []))

abbrev pub digest_tests : Host → Store → Disk → Anchor → String → List (Bool × Code)
digest_tests h s d a m =
    (a.store_digest != some (sha256 h (h.dumps_store s)), integrity_store_corrupted)
    ∷ (a.authority_manifest_digest != some m, integrity_store_corrupted)
    ∷ (
      a.revocation_manifest_digest != some (revocation_manifest_digest h d),
      integrity_store_corrupted,
    )
    ∷ []

-- The three anchored digests against the actual ones; `none` is the unreadable ledger.
unfoldable pub digest_violations : Host → Store → Disk → Anchor → Option String → List Code
digest_violations h s d a none = integrity_store_corrupted ∷ []
digest_violations h s d a (some m) = report (digest_tests h s d a m)

abbrev pub metadata_tests : Store → Anchor → List (Bool × Code)
metadata_tests s a =
    (store_integrity_mode s != hardened_mode, integrity_store_corrupted)
    ∷ (s.metadata.sealed != true, integrity_store_corrupted)
    ∷ (a.schema != some anchor_schema_version, integrity_store_corrupted)
    ∷ (a.store_id != s.metadata.store_id, integrity_store_corrupted)
    ∷ (a.schema_version != s.metadata.schema_version, integrity_store_corrupted)
    ∷ (a.integrity_mode != some hardened_mode, integrity_store_corrupted)
    ∷ []

unfoldable pub anchor_violations : Host → Store → Disk → Doc Anchor → List Code
anchor_violations h s d missing = if s.metadata.sealed then integrity_store_corrupted ∷ [] else []
anchor_violations h s d unreadable = integrity_store_corrupted ∷ []
anchor_violations h s d (holds a) =
    report (metadata_tests s a) ++ digest_violations h s d a (authority_manifest_digest h d)

unfoldable pub integrity_anchor_violations : Host → Store → Disk → List Code
integrity_anchor_violations h s d =
    if h.anchor_inside then integrity_store_corrupted ∷ [] else anchor_violations h s d d.anchor

-- `int(existing.get("anchor_revision", 0)) + 1 if existing else 1`
abbrev pub next_revision : Doc Anchor → Option ℕ
next_revision missing = some 1
next_revision unreadable = none
next_revision (holds a) = elim a.anchor_revision [
  | absent ↦ some 1
  | malformed ↦ none
  | number n ↦ some (n + 1)
]

unfoldable pub anchor_of : Host → Store → Disk → String → ℕ → Anchor
anchor_of h s d manifest revision = record {
  schema = some anchor_schema_version;
  store_id = s.metadata.store_id;
  integrity_mode = some hardened_mode;
  schema_version = s.metadata.schema_version;
  store_digest = some (sha256 h (h.dumps_store s));
  authority_manifest_digest = some manifest;
  revocation_manifest_digest = some (revocation_manifest_digest h d);
  anchor_created_at = some h.now;
  anchor_revision = number revision;
}

-- Whether the existing anchor already has the new one's content.
abbrev pub content_tests : Anchor → Anchor → List Bool
content_tests e a =
    (e.store_id == a.store_id)
    ∷ (e.store_digest == a.store_digest)
    ∷ (e.authority_manifest_digest == a.authority_manifest_digest)
    ∷ (e.revocation_manifest_digest == a.revocation_manifest_digest)
    ∷ []

unfoldable pub same_content : Doc Anchor → Anchor → Bool
same_content missing a = false
same_content unreadable a = false
same_content (holds e) a = conj (content_tests e a)

-- The end of write_trust_anchor, from the new revision (`none` where `int` refuses the old one) and
-- the ledger's digest (`none` where a record cannot be read).
unfoldable pub put_revision :
    Host → Store → Disk → Option ℕ → Option String → Outcome (Unit {0}) × Disk
put_revision h s d none m = (blocked (trust_anchor_corrupted ∷ []), d)
put_revision h s d (some r) none = (raised, d)
put_revision h s d (some r) (some m) =
    if same_content d.anchor (anchor_of h s d m r)
    then (ok tt, d)
    else (ok tt, record d { anchor = holds (anchor_of h s d m r) })

-- The part of write_trust_anchor behind its guards on the paths.
unfoldable pub put_anchor : Host → Store → Disk → Outcome (Unit {0}) × Disk
put_anchor h s d =
    if store_integrity_mode s != hardened_mode
    then (blocked (integrity_store_corrupted ∷ []), d)
    else put_revision h s d (next_revision d.anchor) (authority_manifest_digest h d)

-- The store that a call works on: the one that it is given, or the one on disk.
abbrev pub given_or_loaded : Option Store → Disk → Option (Option Store)
given_or_loaded (some s) d = some (some s)
given_or_loaded none d = read d.store

-- Goes on with the store that was found. `none` is the exception of an unreadable store file.
unfoldable pub on_store :
    Option (Option Store) → Disk → (Store → Outcome (Unit {0}) × Disk) → Outcome (Unit {0}) × Disk
on_store none d k = (raised, d)
on_store (some none) d k = (blocked (missing_adoption_store ∷ []), d)
on_store (some (some s)) d k = k s

unfoldable pub write_trust_anchor : Host → Option Store → Bool → Disk → Outcome (Unit {0}) × Disk
write_trust_anchor h given create_only d =
    if h.anchor_inside
    then (blocked (trust_anchor_config_invalid ∷ []), d)
    else if create_only && exists d.anchor
    then (blocked (trust_anchor_already_exists ∷ []), d)
    else if not create_only && not (exists d.anchor)
    then (ok tt, d)
    else on_store (given_or_loaded given d) d (λ s. put_anchor h s d)

abbrev pub seal_metadata : Store → Store
seal_metadata s = record s { metadata = record s.metadata { sealed = true } }

-- The store file is written only behind an anchor that was created.
unfoldable pub commit_seal : Store → Outcome (Unit {0}) × Disk → Outcome (Unit {0}) × Disk
commit_seal s (ok u, d) = (ok tt, record d { store = holds s })
commit_seal s (blocked cs, d) = (blocked cs, d)
commit_seal s (raised, d) = (raised, d)

-- The rest of seal_trust_anchor, once the store is found.
unfoldable pub seal_found : Host → Store → Disk → Outcome (Unit {0}) × Disk
seal_found h s d =
    if store_integrity_mode s != hardened_mode
    then (blocked (integrity_store_corrupted ∷ []), d)
    else commit_seal (seal_metadata s) (write_trust_anchor h (some (seal_metadata s)) true d)

unfoldable pub seal_trust_anchor : Host → Option Store → Disk → Outcome (Unit {0}) × Disk
seal_trust_anchor h given d =
    if h.anchor_inside
    then (blocked (trust_anchor_config_invalid ∷ []), d)
    else if exists d.anchor
    then (blocked (trust_anchor_already_exists ∷ []), d)
    else on_store (given_or_loaded given d) d (λ s. seal_found h s d)
