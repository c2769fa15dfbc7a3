-- ===== src/Guard/Adopt.antt =====
-- adopt and verify_at_mount of pilot/runtime_adoption_guard.py. What the guard takes from the
-- operating system is a parameter: the user, the owners and modes under a frozen root, and
-- Path.resolve.
use Prim.Native.String.{◌++◌ as text_append}
use agent_capability_forge.Prelude.{
  String, Bool, false, not, ◌||◌, Option, none, some, List, [], ◌∷◌, ◌==◌, ◌!=◌, if◌then◌else◌,
  string_eq, option_eq, lookup,
}
use agent_capability_forge.Code.{
  Code, missing_adoption_store, authority_binding_mismatch, integrity_store_corrupted,
  unissued_authority, artifact_identity_mismatch, missing_frozen_candidate,
  canonical_identity_mismatch, artifact_digest_mismatch, runtime_binding_mismatch,
}
use agent_capability_forge.Records.{Text, Authority, Store, authority_eq}
use agent_capability_forge.Disk.{
  Outcome, ok, blocked, Disk, ◌>>=◌, ◌>>◌, refuse_if, refuse_all, or_raise, or_refuse,
}
use agent_capability_forge.Host.{Host, shown, authority_id_for}
use agent_capability_forge.Integrity.{
  hardened_mode, store_integrity_mode, integrity_anchor_violations,
}
use agent_capability_forge.Ledger.{load_store, load_authority_record}
use agent_capability_forge.Validation.{empty_text, is_none, differs}
use agent_capability_forge.Frozen.{Sealer, frozen_checks, evaluation_binding_violations}
use agent_capability_forge.Registry.{
  Adoption, Entry, World, or_no_adoption, canonical_identity, is_canonical, checked_record,
  legacy_digest,
}
use agent_capability_forge.Guard.Access.{Place, User, isolation_violations}
use agent_capability_forge.Guard.Binding.{violations_for_runtime_activation, find_authority}
use agent_capability_forge.Guard.Intent.{Identity, identity_violations}

pub record System : Type 0 where
  -- os.getuid and os.getgroups, or the runtime_uid that is given
  pub user : User
  -- the owners and modes under a frozen root, for a candidate
  pub place : String → String → Place
  -- str(Path(path).resolve())
  pub resolve : String → String

-- The arguments of adopt but the runtime user.
pub record Activation : Type 0 where
  pub entry : Entry
  pub artifact_dir : String
  pub frozen_root : Text

-- What adopt answers with the verdict ALLOW.
pub record Verified : Type 0 where
  pub authority_id : Text
  pub candidate_id : Text
  pub candidate_version : Text
  pub artifact_digest : Text
  pub seal_digest : Text
  pub verified_artifact_dir : String

abbrev pub empty_authority : Authority
empty_authority = record {
  authority_id = none;
  candidate_id = none;
  candidate_version = none;
  promotion_decision_id = none;
  evaluation_run_id = none;
  policy_version = none;
  artifact_digest = none;
  provenance = none;
  issued_at = none;
  status = none;
  issuer_id = none;
  issuer_type = none;
  decision_id = none;
  artifact_identity = none;
  seal_digest = none;
}

-- A record that cannot be read becomes `{}`, which is refused like a file that holds `{}`.
unfoldable pub readable_record : Option (Option Authority) → Outcome (Option Authority)
readable_record none = blocked (authority_binding_mismatch ∷ [])
readable_record (some none) = ok none
readable_record (some (some r)) =
    if r == empty_authority then blocked (authority_binding_mismatch ∷ []) else ok (some r)

unfoldable pub file_authority : Host → Disk → Adoption → Outcome (Option Authority)
file_authority h d b =
    if empty_text b.candidate_id
      || empty_text b.candidate_version
      || empty_text b.promotion_decision_id
    then ok none
    else readable_record (
        load_authority_record d
          (authority_id_for h b.candidate_id b.candidate_version b.promotion_decision_id))

-- A hardened store wants the ledger directory and the record.
unfoldable pub ledger_guard : Disk → Store → Option Authority → Outcome (Unit {0})
ledger_guard d st file =
    if store_integrity_mode st == hardened_mode
    then (do
      refuse_if (not d.has_ledger) integrity_store_corrupted
      refuse_if (is_none file) unissued_authority)
    else ok tt

abbrev pub records_differ : Option Authority → Option Authority → Bool
records_differ file none = false
records_differ file (some a) = differs file a

abbrev pub record_or_stored : Option Authority → Option Authority → Option Authority
record_or_stored none stored = stored
record_or_stored (some a) stored = some a

-- The record of the ledger, or the store's authority where the ledger has none.
unfoldable pub adopted_authority : Host → Disk → Store → Adoption → Outcome (Option Authority)
adopted_authority h d st b = do
  file ← file_authority h d b
  ledger_guard d st file
  refuse_if (records_differ file (find_authority st b.promotion_decision_id))
      authority_binding_mismatch
  ok (record_or_stored file (find_authority st b.promotion_decision_id))

-- `frozen_root` or the entry's
abbrev pub given_root : Text → Text → Text
given_root none own = own
given_root (some r) own = some r

unfoldable pub identity_match : Entry → Text → Option Authority → Outcome (Unit {0})
identity_match e root none = ok tt
identity_match e root (some a) =
    if is_canonical a
    then (do
      refuse_if (e.artifact_identity != some canonical_identity) artifact_identity_mismatch
      refuse_if (is_none root) missing_frozen_candidate)
    else refuse_if (e.artifact_identity == some canonical_identity || not (is_none root))
        artifact_identity_mismatch

abbrev pub snapshot_dir : String → String → String
snapshot_dir root id = text_append root (text_append "/frozen/" (text_append id "/artifact"))

-- The frozen path: record, seal, evaluation and owner isolation; the digest is the record's.
unfoldable pub frozen_artifact :
    System → Sealer → World → Entry → Authority → String → Outcome (Text × String)
frozen_artifact y s w e a root = do
  found ←
      checked_record
        (frozen_checks s (w.frozen root) (shown (or_no_adoption e.adoption).candidate_id))
  refuse_if (a.seal_digest != found.0.seal_digest) canonical_identity_mismatch
  refuse_all (evaluation_binding_violations e.evaluation found.0)
  isolation ←
      isolation_violations y.user (y.place root (shown (or_no_adoption e.adoption).candidate_id))
        (y.place root (shown (or_no_adoption e.adoption).candidate_id)).root
        (or_no_adoption e.adoption).candidate_id
  refuse_all isolation
  ok (
    found.0.artifact_digest,
    y.resolve (snapshot_dir root (shown (or_no_adoption e.adoption).candidate_id)),
  )

unfoldable pub legacy_artifact : Host → System → World → String → Outcome (Text × String)
legacy_artifact h y w dir = ok (legacy_digest h (lookup dir w.artifacts), y.resolve dir)

unfoldable pub artifact_of :
    Host → System → Sealer → World → Activation → Text → Option Authority → Outcome (Text × String)
artifact_of h y s w q root none = legacy_artifact h y w q.artifact_dir
artifact_of h y s w q root (some a) =
    if is_canonical a
    then (do dir ← or_raise root; frozen_artifact y s w q.entry a dir)
    else legacy_artifact h y w q.artifact_dir

abbrev pub verified_of : Text × String → Authority → Verified
verified_of found a = record {
  authority_id = a.authority_id;
  candidate_id = a.candidate_id;
  candidate_version = a.candidate_version;
  artifact_digest = found.0;
  seal_digest = a.seal_digest;
  verified_artifact_dir = found.1;
}

unfoldable pub adopt : Host → System → Sealer → World → Activation → Outcome Verified
adopt h y s w q = do
  loaded ← or_raise (load_store w.disk)
  st ← or_refuse loaded missing_adoption_store
  refuse_all (integrity_anchor_violations h st w.disk)
  authority ← adopted_authority h w.disk st (or_no_adoption q.entry.adoption)
  identity_match q.entry (given_root q.frozen_root q.entry.frozen_root) authority
  found ← artifact_of h y s w q (given_root q.frozen_root q.entry.frozen_root) authority
  refuse_all (violations_for_runtime_activation h q.entry authority st found.0 (some w.disk))
  a ← or_raise authority
  ok (verified_of found a)

-- The optional arguments of verify_at_mount.
pub record Expected : Type 0 where
  pub digest : Text
  pub identity : Option Identity
  pub mount_source : Text

abbrev pub identity_of : Verified → Identity
identity_of v = record {
  candidate_id = v.candidate_id;
  candidate_version = v.candidate_version;
  artifact_digest = v.artifact_digest;
  seal_digest = v.seal_digest;
}

abbrev pub expected_violations : Option Identity → Verified → List Code
expected_violations none v = []
expected_violations (some x) v = identity_violations x (identity_of v)

abbrev pub moved : System → Text → Verified → Bool
moved y none v = false
moved y (some p) v = y.resolve p != v.verified_artifact_dir

abbrev pub changed_digest : Text → Verified → Bool
changed_digest none v = false
changed_digest (some x) v = v.artifact_digest != some x

unfoldable pub verify_at_mount :
    Host → System → Sealer → World → Activation → Expected → Outcome Verified
verify_at_mount h y s w q x = do
  v ← adopt h y s w q
  refuse_all (expected_violations x.identity v)
  refuse_if (changed_digest x.digest v) artifact_digest_mismatch
  refuse_if (moved y x.mount_source v) runtime_binding_mismatch
  ok v
