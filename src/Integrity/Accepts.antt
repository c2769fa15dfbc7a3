-- ===== src/Integrity/Accepts.antt =====
-- What the anchor check accepts: integrity_anchor_violations against a plain description.
use agent_capability_forge.Prelude.{
  String, true, false, Option, none, some, [], ◌≡◌, ◌↔◌, refl, arith, ne-false_iff, append-nil_iff,
  report-nil, report-clear, report, string_eq, bool_eq, option_eq, ==_iff, AllClear,
}
use agent_capability_forge.Records.{Store}
use agent_capability_forge.Disk.{Doc, missing, unreadable, holds, Anchor, Disk}
use agent_capability_forge.Host.{Host, sha256}
use agent_capability_forge.Integrity.{
  hardened_mode, anchor_schema_version, store_integrity_mode, authority_manifest_digest,
  revocation_manifest_digest, digest_tests, digest_violations, metadata_tests, anchor_violations,
  integrity_anchor_violations,
}

-- The store is in hardened mode exactly when its metadata says so.
pub mode_iff :
    (s : Store)
    → (store_integrity_mode s ≡ hardened_mode) ↔ (s.metadata.integrity_mode ≡ some hardened_mode)
unfolding store_integrity_mode
mode_iff s = ground (
  arith,
  ==_iff s.metadata.integrity_mode (some hardened_mode),
  ==_iff {A = String} "legacy" "hardened",
)

-- The anchored digests are those of the store and of the ledger.
pub record DigestsAgree (h : Host) (s : Store) (d : Disk) (a : Anchor) : Type 0 where
  pub store_agrees : a.store_digest ≡ some (sha256 h (h.dumps_store s))
  pub manifest : String
  pub manifest_read : authority_manifest_digest h d ≡ some manifest
  pub manifest_agrees : a.authority_manifest_digest ≡ some manifest
  pub events_agree : a.revocation_manifest_digest ≡ some (revocation_manifest_digest h d)

-- The anchor describes this hardened and sealed store.
pub record Describes (s : Store) (a : Anchor) : Type 0 where
  pub hardened : s.metadata.integrity_mode ≡ some hardened_mode
  pub sealed : s.metadata.sealed ≡ true
  pub schema : a.schema ≡ some anchor_schema_version
  pub store_id : a.store_id ≡ s.metadata.store_id
  pub schema_version : a.schema_version ≡ s.metadata.schema_version
  pub integrity_mode : a.integrity_mode ≡ some hardened_mode

-- An unsealed store has no anchor; a sealed one has an anchor that matches it in every part.
abbrev pub AnchorAgrees : Host → Store → Disk → Doc Anchor → Type 0
AnchorAgrees h s d missing = s.metadata.sealed ≡ false
AnchorAgrees h s d unreadable = ⊥
AnchorAgrees h s d (holds a) = Describes s a × DigestsAgree h s d a

digests_agree :
    (h : Host) (s : Store) (d : Disk) (a : Anchor) (m : Option String)
    → authority_manifest_digest h d ≡ m
    → digest_violations h s d a m ≡ []
    → DigestsAgree h s d a
unfolding digest_violations
digests_agree h s d a none r e = cc
digests_agree h s d a (some m) r e =
    let t = report-nil (digest_tests h s d a m) e in
    record {
      store_agrees = (ne-false_iff a.store_digest _).0 t.0;
      manifest = m;
      manifest_read = r;
      manifest_agrees = (ne-false_iff a.authority_manifest_digest _).0 t.1.0;
      events_agree = (ne-false_iff a.revocation_manifest_digest _).0 t.1.1.0;
    }

agreeing_digests :
    (h : Host) (s : Store) (d : Disk) (a : Anchor)
    → DigestsAgree h s d a
    → digest_violations h s d a (authority_manifest_digest h d) ≡ []
unfolding digest_violations
agreeing_digests h s d a g =
    rw (g.manifest_read, digest_violations)
      (report-clear (digest_tests h s d a g.manifest) (
        (ne-false_iff a.store_digest _).1 g.store_agrees,
        (
          (ne-false_iff a.authority_manifest_digest _).1 g.manifest_agrees,
          ((ne-false_iff a.revocation_manifest_digest _).1 g.events_agree, tt),
        ),
      ))

metadata-Describes : (s : Store) (a : Anchor) → AllClear (metadata_tests s a) → Describes s a
metadata-Describes s a t = record {
  hardened = (mode_iff s).0 ((ne-false_iff (store_integrity_mode s) _).0 t.0);
  sealed = (ne-false_iff s.metadata.sealed _).0 t.1.0;
  schema = (ne-false_iff a.schema _).0 t.1.1.0;
  store_id = (ne-false_iff a.store_id _).0 t.1.1.1.0;
  schema_version = (ne-false_iff a.schema_version _).0 t.1.1.1.1.0;
  integrity_mode = (ne-false_iff a.integrity_mode _).0 t.1.1.1.1.1.0;
}

described_metadata : (s : Store) (a : Anchor) → Describes s a → AllClear (metadata_tests s a)
described_metadata s a g = (
  (ne-false_iff (store_integrity_mode s) _).1 ((mode_iff s).1 g.hardened),
  (
    (ne-false_iff s.metadata.sealed _).1 g.sealed,
    (
      (ne-false_iff a.schema _).1 g.schema,
      (
        (ne-false_iff a.store_id _).1 g.store_id,
        (
          (ne-false_iff a.schema_version _).1 g.schema_version,
          ((ne-false_iff a.integrity_mode _).1 g.integrity_mode, tt),
        ),
      ),
    ),
  ),
)

anchor_violations-AnchorAgrees :
    (h : Host) (s : Store) (d : Disk) (f : Doc Anchor)
    → (anchor_violations h s d f ≡ []) ↔ AnchorAgrees h s d f
unfolding anchor_violations
anchor_violations-AnchorAgrees h s d missing = ground arith
anchor_violations-AnchorAgrees h s d unreadable = ground arith
anchor_violations-AnchorAgrees h s d (holds a) = (
  λ e.
      let parts = (append-nil_iff (report (metadata_tests s a)) _).0 e in
      (
        metadata-Describes s a (report-nil (metadata_tests s a) parts.0),
        digests_agree h s d a (authority_manifest_digest h d) refl parts.1,
      ),
  λ g. (append-nil_iff (report (metadata_tests s a)) _).1 (
    report-clear (metadata_tests s a) (described_metadata s a g.0),
    agreeing_digests h s d a g.1,
  ),
)

-- The anchor check reports nothing exactly when the anchor lies outside the store directory and
-- either the store is unsealed and there is no anchor file, or the anchor file is readable, the
-- store is hardened and sealed, and the anchor agrees with it in schema, identifier, mode and the
-- digests of the store, of the authority ledger and of the revocation events.
pub integrity_accepts :
    (h : Host) (s : Store) (d : Disk)
    → (integrity_anchor_violations h s d ≡ [])
      ↔ ((h.anchor_inside ≡ false) × AnchorAgrees h s d d.anchor)
unfolding integrity_anchor_violations
integrity_accepts h s d = ground (arith, anchor_violations-AnchorAgrees h s d d.anchor)
