-- ===== src/Managed/Versions.antt =====
-- Versions: create_version of pilot/managed_runtime.py, and the two tests of a version.
use Prim.Native.String.{◌++◌ as text_append}
use agent_capability_forge.Prelude.{
  ℕ, String, Bool, true, false, ◌&&◌, ◌||◌, Option, none, some, List, [], ◌∷◌, ◌==◌, ◌!=◌,
  if◌then◌else◌, string_eq, option_eq, any,
}
use agent_capability_forge.Code.{
  candidate_not_frozen, registry_entry_missing, legacy_migration_required, candidate_id_mismatch,
  authority_missing, version_revoked, missing_run_request, run_request_mismatch, authority_mismatch,
  version_conflict,
}
use agent_capability_forge.Records.{Text, Authority, Revocation, RunRequest}
use agent_capability_forge.Disk.{
  Outcome, ok, blocked, raised, Disk, ◌>>=◌, ◌>>◌, refuse_if, or_raise, or_refuse,
}
use agent_capability_forge.Host.{Host, shown, authority_id_for}
use agent_capability_forge.Ledger.{load_authority_record, load_authority_events}
use agent_capability_forge.Validation.{revocable}
use agent_capability_forge.Frozen.{FrozenRecord, Checked, verified, rejected, frozen_checks}
use agent_capability_forge.Registry.{Adoption, Entry, World, canonical_identity, discover_version}
use agent_capability_forge.Guard.{load_trusted_run_request}
use agent_capability_forge.Managed.Log.{append_event, latest}
use agent_capability_forge.Managed.Defs.{Version, State, Site, Manager, snapshot_identity, at_root}

-- `agent_id is None or rec.get("agent_id") == agent_id`
abbrev pub fits_agent : Text → Text → Bool
fits_agent none id = true
fits_agent (some a) id = id == some a

-- _latest_version
unfoldable pub latest_version : State → Text → String → Option Version
latest_version s agent_id version_id =
    latest (λ (v : Version). v.version_id == version_id && fits_agent agent_id v.agent_id)
      s.versions

-- An event log that cannot be read counts as revoked.
unfoldable pub revoked_events : Option (List Revocation) → Bool
revoked_events none = true
revoked_events (some es) = any (λ (e : Revocation). revocable e.status) es

unfoldable pub is_revoked_version : Site → Version → Bool
is_revoked_version t v =
    if v.withdrawn
    then true
    else revoked_events
        (load_authority_events (at_root t v.registry_root).disk (shown v.authority_id))

-- _snapshot_binding_violation
unfoldable pub snapshot_binding_violation : Manager → Version → Bool
snapshot_binding_violation m v =
    v.execution_snapshot_identity
    != snapshot_identity m v.candidate_id v.artifact_digest v.seal_digest

-- _authority: a record that cannot be read is none.
abbrev pub readable : Option (Option Authority) → Option Authority
readable none = none
readable (some r) = r

unfoldable pub version_authority : Manager → Disk → Adoption → Option Authority
version_authority m d b = readable (
    load_authority_record d
      (authority_id_for m.host b.candidate_id b.candidate_version b.promotion_decision_id))

unfoldable pub frozen_record : Checked → Outcome FrozenRecord
frozen_record (verified r c) = ok r
frozen_record (rejected cs) = blocked (candidate_not_frozen ∷ [])

abbrev pub version_text : Manager → Option ℕ → String
version_text m none = "vNone"
version_text m (some n) = text_append "v" (m.digits n)

-- The entry of the registry and its canonical adoption; an adoption `{}` reads as none.
unfoldable pub canonical_adoption : Entry → Outcome Adoption
canonical_adoption e = do
  refuse_if (e.artifact_identity != some canonical_identity) legacy_migration_required
  or_refuse e.adoption legacy_migration_required

-- The four comparisons of the run request and of the authority with the adoption, in their order.
unfoldable pub identity_guards_of : RunRequest → Authority → Adoption → Outcome (Unit {0})
identity_guards_of r a b = do
  refuse_if (r.candidate_id != b.candidate_id) run_request_mismatch
  refuse_if (a.candidate_id != b.candidate_id) authority_mismatch
  refuse_if (r.candidate_version != b.candidate_version) run_request_mismatch
  refuse_if (a.candidate_version != b.candidate_version) authority_mismatch
  refuse_if (r.artifact_digest != b.artifact_digest) run_request_mismatch
  refuse_if (a.artifact_digest != b.artifact_digest) authority_mismatch
  refuse_if (r.seal_digest != a.seal_digest) run_request_mismatch

unfoldable pub version_of :
    Manager
    → String
    → String
    → String
    → String
    → FrozenRecord
    → Entry
    → Adoption
    → Authority
    → Version
version_of m registry_root frozen_root family candidate_id r e b a = record {
  withdrawn = false;
  version_id = version_text m r.version;
  agent_id = e.capability_id;
  name = r.name;
  family = family;
  candidate_id = some candidate_id;
  candidate_version = b.candidate_version;
  artifact_digest = b.artifact_digest;
  seal_digest = a.seal_digest;
  execution_snapshot_identity =
      snapshot_identity m (some candidate_id) b.artifact_digest a.seal_digest;
  authority_id = a.authority_id;
  promotion_decision_id = b.promotion_decision_id;
  evaluation_run_id = b.evaluation_run_id;
  registry_root = registry_root;
  frozen_root = frozen_root;
  revocation_id = none;
}

-- The call of guard.load_trusted_run_request with the registry root and a version key.
abbrev pub Loader : Type 0
Loader = Disk → String → Outcome (Option RunRequest)

abbrev pub version_key : Entry → Adoption → String
version_key e b = text_append (shown e.capability_id) (text_append "|" (shown b.candidate_version))

-- The arguments of create_version.
pub record Publication : Type 0 where
  pub registry_root : String
  pub frozen_root : String
  pub candidate_id : String
  pub family : String

-- All that create_version checks, with the event it is about to append.
unfoldable pub version_checks : Manager → Loader → World → Publication → Outcome Version
version_checks m load w p = do
  r ← frozen_record (frozen_checks m.sealer (w.frozen p.frozen_root) p.candidate_id)
  found ← or_raise (discover_version w p.family (shown r.name) (version_text m r.version))
  e ← or_refuse found registry_entry_missing
  b ← canonical_adoption e
  refuse_if (b.candidate_id != some p.candidate_id) candidate_id_mismatch
  a ← or_refuse (version_authority m w.disk b) authority_missing
  id ← or_raise a.authority_id
  events ← or_raise (load_authority_events w.disk id)
  refuse_if (any (λ (x : Revocation). revocable x.status) events) version_revoked
  request ← load w.disk (version_key e b)
  r' ← or_refuse request missing_run_request
  refuse_if (r'.name != e.name || r'.capability_id != e.capability_id) run_request_mismatch
  identity_guards_of r' a b
  refuse_if (some (version_text m r.version) != b.candidate_version) version_conflict
  ok (version_of m p.registry_root p.frozen_root p.family p.candidate_id r e b a)

abbrev pub same_content_as : Version → Version → Bool
same_content_as v u =
    v.candidate_id == u.candidate_id
    && (v.artifact_digest == u.artifact_digest
        && (v.seal_digest == u.seal_digest
            && v.execution_snapshot_identity == u.execution_snapshot_identity))

-- A version is written once; the same content again is the event that is there.
unfoldable pub publish_version : Version → Option Version → State → Outcome Version × State
publish_version v none s = (ok v, record s { versions = append_event s.versions v })
publish_version v (some u) s =
    if same_content_as u v then (ok u, s) else (blocked (version_conflict ∷ []), s)

unfoldable pub publish_checked : Outcome Version → State → Outcome Version × State
publish_checked (ok v) s = publish_version v (latest_version s v.agent_id v.version_id) s
publish_checked (blocked cs) s = (blocked cs, s)
publish_checked raised s = (raised, s)

-- create_version with the loader that it calls.
unfoldable pub create_version_by : Manager → Loader → Site → Publication → Outcome Version × State
create_version_by m load t p =
    publish_checked (version_checks m load (at_root t p.registry_root) p) t.state

-- An argument of a call of the guard: a registry root, given by the disk it has, or a text.
pub data Argument : Type 0 where
  root_argument : Disk → Argument
  text_argument : String → Argument

-- Python's call of a function with one parameter: any other number of arguments is a TypeError.
unfoldable pub call_unary : {A : Type 0} → (Argument → Outcome A) → List Argument → Outcome A
call_unary f [] = raised
call_unary f (x ∷ []) = f x
call_unary f (x ∷ y ∷ xs) = raised

-- guard.load_trusted_run_request(registry_root); a text is no root of a store.
unfoldable pub load_of_guard : Host → Argument → Outcome (Option RunRequest)
load_of_guard h (root_argument d) = load_trusted_run_request h d
load_of_guard h (text_argument t) = raised

-- The call guard.load_trusted_run_request(registry_root, version_key).
unfoldable pub guard_loader : Host → Loader
guard_loader h d key = call_unary (load_of_guard h) (root_argument d ∷ text_argument key ∷ [])

unfoldable pub create_version : Manager → Site → Publication → Outcome Version × State
create_version m t p = create_version_by m (guard_loader m.host) t p
