-- ===== src/Fleet/Backing.antt =====
-- What stands behind a version of pilot/managed_runtime.py, from the checks of create_version.
use agent_capability_forge.Prelude.{
  String, false, ◌||◌, some, List, ◌≡◌, refl, sym, ◌∙◌, ap, ◌!=◌, ne-false_iff, or-false_iff,
  string_eq, option_eq, All, any, any-false, Option,
}
use agent_capability_forge.Code.{
  registry_entry_missing, legacy_migration_required, candidate_id_mismatch, authority_missing,
  version_revoked, missing_run_request, run_request_mismatch, authority_mismatch, version_conflict,
}
use agent_capability_forge.Records.{Authority, Revocation, RunRequest}
use agent_capability_forge.Disk.{
  ok, refuse_if, or_raise, or_refuse, >>=-eq-ok, ok-eq-ok, refuse_if-ok, or_raise-ok, or_refuse-ok,
}
use agent_capability_forge.Host.{shown}
use agent_capability_forge.Ledger.{load_authority_events}
use agent_capability_forge.Validation.{revocable}
use agent_capability_forge.Frozen.{FrozenRecord, Core, Checked, verified, rejected, frozen_checks}
use agent_capability_forge.Sealed.{IsFrozen, frozen_checks-IsFrozen}
use agent_capability_forge.Registry.{Adoption, Entry, World, canonical_identity, discover_version}
use agent_capability_forge.Managed.{
  Version, Manager, Loader, Publication, frozen_record, version_text, canonical_adoption,
  version_authority, version_key, identity_guards_of, version_of, snapshot_identity,
}

-- The run request, the authority and the adoption name the same candidate, version and digests.
pub record IsAgreed (q : RunRequest) (a : Authority) (b : Adoption) : Type 0 where
  pub request_candidate : q.candidate_id ≡ b.candidate_id
  pub authority_candidate : a.candidate_id ≡ b.candidate_id
  pub request_version : q.candidate_version ≡ b.candidate_version
  pub authority_version : a.candidate_version ≡ b.candidate_version
  pub request_artifact : q.artifact_digest ≡ b.artifact_digest
  pub authority_artifact : a.artifact_digest ≡ b.artifact_digest
  pub request_seal : q.seal_digest ≡ a.seal_digest

guards-IsAgreed :
    (q : RunRequest) (a : Authority) (b : Adoption) {u : Unit {0}}
    → identity_guards_of q a b ≡ ok u
    → IsAgreed q a b
unfolding identity_guards_of
guards-IsAgreed q a b e =
    let (_, e1, f1) =
      >>=-eq-ok (refuse_if (q.candidate_id != b.candidate_id) run_request_mismatch) _ e in
    let (_, e2, f2) =
      >>=-eq-ok (refuse_if (a.candidate_id != b.candidate_id) authority_mismatch) _ f1 in
    let (_, e3, f3) =
      >>=-eq-ok (refuse_if (q.candidate_version != b.candidate_version) run_request_mismatch) _
        f2 in
    let (_, e4, f4) =
      >>=-eq-ok (refuse_if (a.candidate_version != b.candidate_version) authority_mismatch) _ f3 in
    let (_, e5, f5) =
      >>=-eq-ok (refuse_if (q.artifact_digest != b.artifact_digest) run_request_mismatch) _ f4 in
    let (_, e6, f6) =
      >>=-eq-ok (refuse_if (a.artifact_digest != b.artifact_digest) authority_mismatch) _ f5 in
    record {
      request_candidate =
          (ne-false_iff q.candidate_id _).0 (refuse_if-ok _ run_request_mismatch e1);
      authority_candidate =
          (ne-false_iff a.candidate_id _).0 (refuse_if-ok _ authority_mismatch e2);
      request_version =
          (ne-false_iff q.candidate_version _).0 (refuse_if-ok _ run_request_mismatch e3);
      authority_version =
          (ne-false_iff a.candidate_version _).0 (refuse_if-ok _ authority_mismatch e4);
      request_artifact =
          (ne-false_iff q.artifact_digest _).0 (refuse_if-ok _ run_request_mismatch e5);
      authority_artifact =
          (ne-false_iff a.artifact_digest _).0 (refuse_if-ok _ authority_mismatch e6);
      request_seal = (ne-false_iff q.seal_digest _).0 (refuse_if-ok _ run_request_mismatch f6);
    }

-- What stands behind a version: a frozen candidate that is sealed, the entry of the registry with
-- its canonical adoption, a stored authority that no event has revoked, and the run request that
-- the loader answered; all of them name the same candidate, version and digests.
pub record Backing (m : Manager) (load : Loader) (w : World) (p : Publication) : Type 0 where
  pub frozen : FrozenRecord
  pub core : Core
  pub sealed : IsFrozen m.sealer (w.frozen p.frozen_root) p.candidate_id frozen core
  pub entry : Entry
  pub found :
      discover_version w p.family (shown frozen.name) (version_text m frozen.version)
      ≡ some (some entry)
  pub canonical : entry.artifact_identity ≡ some canonical_identity
  pub adoption : Adoption
  pub adopted : entry.adoption ≡ some adoption
  pub authority : Authority
  pub stored : version_authority m w.disk adoption ≡ some authority
  pub authority_id : String
  pub identified : authority.authority_id ≡ some authority_id
  pub events : List Revocation
  pub logged : load_authority_events w.disk authority_id ≡ some events
  pub unrevoked : All (λ (x : Revocation). revocable x.status ≡ false) events
  pub request : RunRequest
  pub loaded : load w.disk (version_key entry adoption) ≡ ok (some request)
  pub same_name : request.name ≡ entry.name
  pub same_capability : request.capability_id ≡ entry.capability_id
  pub agreed : IsAgreed request authority adoption
  pub candidate : adoption.candidate_id ≡ some p.candidate_id
  pub version : adoption.candidate_version ≡ some (version_text m frozen.version)

-- A version whose content is that of its backing.
pub record IsBound (m : Manager) (load : Loader) (w : World) (p : Publication) (v : Version)
    : Type 0 where
  pub backing : Backing m load w p
  pub of_candidate : v.candidate_id ≡ some p.candidate_id
  pub of_artifact : v.artifact_digest ≡ backing.adoption.artifact_digest
  pub of_seal : v.seal_digest ≡ backing.authority.seal_digest
  pub of_snapshot :
      v.execution_snapshot_identity
      ≡ snapshot_identity m
          (some p.candidate_id)
          backing.adoption.artifact_digest
          backing.authority.seal_digest

frozen_record-ok :
    (c : Checked) {r : FrozenRecord}
    → frozen_record c ≡ ok r
    → (core : Core) × (c ≡ verified r core)
unfolding frozen_record
frozen_record-ok (verified r core) e = (core, ap (λ x. verified x core) (ok-eq-ok e))
frozen_record-ok (rejected cs) e = cc

canonical_adoption-ok :
    (e : Entry) {b : Adoption}
    → canonical_adoption e ≡ ok b
    → (e.artifact_identity ≡ some canonical_identity) × (e.adoption ≡ some b)
unfolding canonical_adoption
canonical_adoption-ok e k =
    let (_, e1, f1) =
      >>=-eq-ok
        (refuse_if (e.artifact_identity != some canonical_identity) legacy_migration_required) _
        k in
    (
      (ne-false_iff e.artifact_identity _).0 (refuse_if-ok _ legacy_migration_required e1),
      or_refuse-ok e.adoption legacy_migration_required f1,
    )

module _ (m : Manager) (load : Loader) (w : World) (p : Publication) where
  -- The checks of create_version, each with its answer, make the backing.
  pub assemble :
      (r : FrozenRecord) (o : Option Entry) (g : Entry) (b : Adoption) (a : Authority) (k : String)
      (es : List Revocation) (o' : Option RunRequest) (q : RunRequest) {u u' u'' u3 u4 : Unit {0}}
      → frozen_record (frozen_checks m.sealer (w.frozen p.frozen_root) p.candidate_id) ≡ ok r
      → or_raise (discover_version w p.family (shown r.name) (version_text m r.version)) ≡ ok o
      → or_refuse o registry_entry_missing ≡ ok g
      → canonical_adoption g ≡ ok b
      → refuse_if (b.candidate_id != some p.candidate_id) candidate_id_mismatch ≡ ok u
      → or_refuse (version_authority m w.disk b) authority_missing ≡ ok a
      → or_raise a.authority_id ≡ ok k
      → or_raise (load_authority_events w.disk k) ≡ ok es
      → refuse_if (any (λ (x : Revocation). revocable x.status) es) version_revoked ≡ ok u'
      → load w.disk (version_key g b) ≡ ok o'
      → or_refuse o' missing_run_request ≡ ok q
      → refuse_if (q.name != g.name || q.capability_id != g.capability_id) run_request_mismatch
        ≡ ok u''
      → identity_guards_of q a b ≡ ok u3
      → refuse_if (some (version_text m r.version) != b.candidate_version) version_conflict ≡ ok u4
      → IsBound m load w p
          (version_of m p.registry_root p.frozen_root p.family p.candidate_id r g b a)
  unfolding version_of
  assemble r o g b a k es o' q e1 e2 e3 e4 e5 e6 e7 e8 e9 e10 e11 e12 e13 e14 =
      let c =
        frozen_record-ok (frozen_checks m.sealer (w.frozen p.frozen_root) p.candidate_id) e1 in
      let n =
        (or-false_iff (q.name != g.name) (q.capability_id != g.capability_id)).0
          (refuse_if-ok _ run_request_mismatch e12) in
      let backing : Backing m load w p = record {
        frozen = r;
        core = c.0;
        sealed = frozen_checks-IsFrozen m.sealer (w.frozen p.frozen_root) p.candidate_id r c.0 c.1;
        entry = g;
        found = or_raise-ok _ e2 ∙ ap some (or_refuse-ok o registry_entry_missing e3);
        canonical = (canonical_adoption-ok g e4).0;
        adoption = b;
        adopted = (canonical_adoption-ok g e4).1;
        authority = a;
        stored = or_refuse-ok (version_authority m w.disk b) authority_missing e6;
        authority_id = k;
        identified = or_raise-ok a.authority_id e7;
        events = es;
        logged = or_raise-ok (load_authority_events w.disk k) e8;
        unrevoked =
            any-false (λ (x : Revocation). revocable x.status) es
              (refuse_if-ok _ version_revoked e9);
        request = q;
        loaded = e10 ∙ ap ok (or_refuse-ok o' missing_run_request e11);
        same_name = (ne-false_iff q.name g.name).0 n.0;
        same_capability = (ne-false_iff q.capability_id g.capability_id).0 n.1;
        agreed = guards-IsAgreed q a b e13;
        candidate = (ne-false_iff b.candidate_id _).0 (refuse_if-ok _ candidate_id_mismatch e5);
        version = sym (
            (ne-false_iff (some (version_text m r.version)) _).0
              (refuse_if-ok _ version_conflict e14));
      } in
      record {
        backing = backing;
        of_candidate = refl;
        of_artifact = refl;
        of_seal = refl;
        of_snapshot = refl;
      }
