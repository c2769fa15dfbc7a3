-- ===== src/Integrity/Sealing.antt =====
-- Sealing a store, and refreshing its anchor: what the two writers of the anchor leave behind.
use agent_capability_forge.Prelude.{
  ℕ, String, Bool, true, false, Option, none, some, [], ◌≡◌, refl, ◌∙◌, sym, arith, ==_iff,
  conj-true, Bool-cases, inl, inr, ne-false_iff, if◌then◌else◌, ◌!=◌, if_cases, subst, option_eq,
  string_eq,
}
use agent_capability_forge.Records.{Store}
use agent_capability_forge.Disk.{
  Doc, missing, unreadable, holds, Outcome, ok, blocked, raised, exists, Anchor, Disk,
}
use agent_capability_forge.Host.{Host}
use agent_capability_forge.Integrity.{
  hardened_mode, anchor_schema_version, store_integrity_mode, authority_manifest_digest,
  revocation_manifest_digest, digest_violations, on_store, seal_found, anchor_violations,
  integrity_anchor_violations, next_revision, anchor_of, content_tests, same_content, put_revision,
  put_anchor, write_trust_anchor, seal_metadata, commit_seal, seal_trust_anchor, given_or_loaded,
}
use agent_capability_forge.Integrity.Accepts.{
  mode_iff, DigestsAgree, Describes, AnchorAgrees, integrity_accepts,
}

-- An anchor fits a store whatever identifier the two have.
pub record Fits (s : Store) (a : Anchor) : Type 0 where
  pub hardened : s.metadata.integrity_mode ≡ some hardened_mode
  pub sealed : s.metadata.sealed ≡ true
  pub schema : a.schema ≡ some anchor_schema_version
  pub schema_version : a.schema_version ≡ s.metadata.schema_version
  pub integrity_mode : a.integrity_mode ≡ some hardened_mode

-- Two stores with the same mode, seal and schema; the identifier and the sections may differ.
pub record SameForm (s s' : Store) : Type 0 where
  pub integrity_mode : s'.metadata.integrity_mode ≡ s.metadata.integrity_mode
  pub sealed : s'.metadata.sealed ≡ s.metadata.sealed
  pub schema_version : s'.metadata.schema_version ≡ s.metadata.schema_version

Describes-Fits : (s s' : Store) (a : Anchor) → SameForm s s' → Describes s a → Fits s' a
Describes-Fits s s' a e g = record {
  hardened = e.integrity_mode ∙ g.hardened;
  sealed = e.sealed ∙ g.sealed;
  schema = g.schema;
  schema_version = g.schema_version ∙ sym e.schema_version;
  integrity_mode = g.integrity_mode;
}

module _ (h : Host) (s : Store) where
  -- The new anchor describes the store and has the digests of the disk that it is written on.
  anchor_of-Describes :
      (d : Disk) (m : String) (r : ℕ)
      → s.metadata.integrity_mode ≡ some hardened_mode
      → s.metadata.sealed ≡ true
      → Describes s (anchor_of h s d m r)
  unfolding anchor_of
  anchor_of-Describes d m r hard seal = record {
    hardened = hard;
    sealed = seal;
    schema = refl;
    store_id = refl;
    schema_version = refl;
    integrity_mode = refl;
  }

  anchor_of-DigestsAgree :
      (d : Disk) (m : String) (r : ℕ)
      → authority_manifest_digest h d ≡ some m
      → DigestsAgree h s (record d { anchor = holds (anchor_of h s d m r) }) (anchor_of h s d m r)
  unfolding anchor_of authority_manifest_digest revocation_manifest_digest
  anchor_of-DigestsAgree d m r e = record {
    store_agrees = refl;
    manifest = m;
    manifest_read = e;
    manifest_agrees = refl;
    events_agree = refl;
  }

  -- An anchor that is kept because its content is the new one's has the disk's digests.
  same_content-DigestsAgree :
      (d : Disk) (a : Anchor) (m : String) (r : ℕ)
      → authority_manifest_digest h d ≡ some m
      → same_content (holds a) (anchor_of h s d m r) ≡ true
      → DigestsAgree h s d a
  unfolding same_content anchor_of
  same_content-DigestsAgree d a m r e same =
      let t = conj-true (content_tests a (anchor_of h s d m r)) same in
      record {
        store_agrees = (==_iff a.store_digest _).0 t.1.0;
        manifest = m;
        manifest_read = e;
        manifest_agrees = (==_iff a.authority_manifest_digest _).0 t.1.1.0;
        events_agree = (==_iff a.revocation_manifest_digest _).0 t.1.1.1.0;
      }

  -- An anchor that fits the store, and is kept because its content is the new one's, describes it:
  -- the content has the identifier.
  same_content-Describes :
      (d : Disk) (a : Anchor) (m : String) (r : ℕ)
      → Fits s a
      → same_content (holds a) (anchor_of h s d m r) ≡ true
      → Describes s a
  unfolding same_content anchor_of
  same_content-Describes d a m r g same = record {
    hardened = g.hardened;
    sealed = g.sealed;
    schema = g.schema;
    store_id = (==_iff a.store_id _).0 (conj-true (content_tests a (anchor_of h s d m r)) same).0;
    schema_version = g.schema_version;
    integrity_mode = g.integrity_mode;
  }

  -- What write_trust_anchor leaves: an anchor that checks, and nothing else changed; or the disk as
  -- it was.
  abbrev pub Anchors : Disk → Outcome (Unit {0}) × Disk → Type 0
  Anchors d (ok _, d') =
      (integrity_anchor_violations h s d' ≡ []) × (d' ≡ record d { anchor = d'.anchor })
  Anchors d (blocked cs, d') = d' ≡ d
  Anchors d (raised, d') = d' ≡ d

  module _ (outside : h.anchor_inside ≡ false)
      (hard : s.metadata.integrity_mode ≡ some hardened_mode)
      (seal : s.metadata.sealed ≡ true) where
    -- An anchor that is kept agrees with the store, if it fits the store.
    kept-AnchorAgrees :
        (d : Disk) (f : Doc Anchor) (m : String) (r : ℕ)
        → authority_manifest_digest h d ≡ some m
        → ((a : Anchor) → f ≡ holds a → Fits s a)
        → same_content f (anchor_of h s d m r) ≡ true
        → AnchorAgrees h s d f
    unfolding same_content
    kept-AnchorAgrees d missing m r k old same = cc
    kept-AnchorAgrees d unreadable m r k old same = cc
    kept-AnchorAgrees d (holds a) m r k old same =
        (same_content-Describes d a m r (old a refl) same, same_content-DigestsAgree d a m r k same)

    if-Anchors :
        (d : Disk) (b : Bool) (a : Anchor)
        → (b ≡ true → AnchorAgrees h s d d.anchor)
        → AnchorAgrees h s (record d { anchor = holds a }) (holds a)
        → Anchors d (if b then (ok tt, d) else (ok tt, record d { anchor = holds a }))
    if-Anchors d true a kept new = ((integrity_accepts h s d).1 (outside, kept refl), refl)
    if-Anchors d false a kept new =
        ((integrity_accepts h s (record d { anchor = holds a })).1 (outside, new), refl)

    put_revision-Anchors :
        (d : Disk) (r : Option ℕ) (m : Option String)
        → authority_manifest_digest h d ≡ m
        → ((a : Anchor) → d.anchor ≡ holds a → Fits s a)
        → Anchors d (put_revision h s d r m)
    unfolding put_revision
    put_revision-Anchors d none m k old = refl
    put_revision-Anchors d (some r) none k old = refl
    put_revision-Anchors d (some r) (some m) k old =
        if-Anchors d (same_content d.anchor (anchor_of h s d m r)) (anchor_of h s d m r)
          (kept-AnchorAgrees d d.anchor m r k old)
          (anchor_of-Describes d m r hard seal, anchor_of-DigestsAgree d m r k)

    pub put_anchor-Anchors :
        (d : Disk) → ((a : Anchor) → d.anchor ≡ holds a → Fits s a) → Anchors d (put_anchor h s d)
    unfolding put_anchor
    put_anchor-Anchors d old =
        rw ((ne-false_iff (store_integrity_mode s) hardened_mode).1 ((mode_iff s).1 hard))
          (put_revision-Anchors d (next_revision d.anchor) (authority_manifest_digest h d) refl old)

-- What seal_trust_anchor leaves: a sealed store on disk beside an anchor that checks; or, when it
-- refuses or raises, the disk as it was.
abbrev pub Seals : Host → Disk → Outcome (Unit {0}) × Disk → Type 0
Seals h d (ok _, d') =
    (s : Store) × (d'.store ≡ holds s)
    × (s.metadata.sealed ≡ true)
    × (integrity_anchor_violations h s d' ≡ [])
Seals h d (blocked cs, d') = d' ≡ d
Seals h d (raised, d') = d' ≡ d

anchor_violations-store :
    (h : Host) (s : Store) (d : Disk) (f : Doc Store) (a : Doc Anchor)
    → anchor_violations h s (record d { store = f }) a ≡ anchor_violations h s d a
unfolding anchor_violations digest_violations authority_manifest_digest revocation_manifest_digest
anchor_violations-store h s d f missing = refl
anchor_violations-store h s d f unreadable = refl
anchor_violations-store h s d f (holds a) = refl

-- The anchor check of a store value does not read the store file.
pub integrity-store :
    (h : Host) (s : Store) (d : Disk) (f : Doc Store)
    → integrity_anchor_violations h s (record d { store = f }) ≡ integrity_anchor_violations h s d
unfolding integrity_anchor_violations
integrity-store h s d f = rw anchor_violations-store

commit_seal-Seals :
    (h : Host) (s : Store) (d : Disk) (r : Outcome (Unit {0}) × Disk)
    → s.metadata.sealed ≡ true
    → Anchors h s d r
    → Seals h d (commit_seal s r)
unfolding commit_seal
commit_seal-Seals h s d (ok u, d') seal a = (s, refl, seal, integrity-store h s d' (holds s) ∙ a.0)
commit_seal-Seals h s d (blocked cs, d') seal a = a
commit_seal-Seals h s d (raised, d') seal a = a

write-create :
    (h : Host) (s : Store) (d : Disk)
    → h.anchor_inside ≡ false
    → exists d.anchor ≡ false
    → write_trust_anchor h (some s) true d ≡ put_anchor h s d
unfolding write_trust_anchor on_store
write-create h s d o m = rw (o, m)

no_anchor : (f : Doc Anchor) (a : Anchor) → exists f ≡ false → f ≡ holds a → ⊥
no_anchor missing a m e = cc
no_anchor unreadable a m e = cc
no_anchor (holds b) a m e = cc

seal_found-Seals :
    (h : Host) (s : Store) (d : Disk)
    → h.anchor_inside ≡ false
    → exists d.anchor ≡ false
    → Seals h d (seal_found h s d)
unfolding seal_found
seal_found-Seals h s d o m = elim (Bool-cases (store_integrity_mode s != hardened_mode)) [
  | inl soft ↦ rw soft refl
  | inr hard ↦
      rw (hard, write-create h (seal_metadata s) d o m)
        (commit_seal-Seals h (seal_metadata s) d (put_anchor h (seal_metadata s) d) refl (
          put_anchor-Anchors h (seal_metadata s) o
            ((mode_iff s).0 ((ne-false_iff (store_integrity_mode s) hardened_mode).0 hard)) refl d
            (λ a e. absurd (no_anchor d.anchor a m e))))
]

on_store-Seals :
    (h : Host) (d : Disk) (g : Option (Option Store))
    → h.anchor_inside ≡ false
    → exists d.anchor ≡ false
    → Seals h d (on_store g d (λ s. seal_found h s d))
unfolding on_store
on_store-Seals h d none o m = refl
on_store-Seals h d (some none) o m = refl
on_store-Seals h d (some (some s)) o m = seal_found-Seals h s d o m

-- Sealing is all or nothing: when seal_trust_anchor succeeds, the store file holds a sealed store
-- which the anchor check accepts on the new disk; when it refuses or raises, no file has changed.
pub seal-Seals :
    (h : Host) (given : Option Store) (d : Disk) → Seals h d (seal_trust_anchor h given d)
unfolding seal_trust_anchor
seal-Seals h given d =
    if_cases (Seals h d) h.anchor_inside (λ _. refl)
      (λ outside.
        if_cases (Seals h d) (exists d.anchor) (λ _. refl)
          (λ gone. on_store-Seals h d (given_or_loaded given d) outside gone))

-- The writer as a refresh: no anchor means nothing to do.
write-refresh :
    (h : Host) (s : Store) (d : Disk)
    → h.anchor_inside ≡ false
    → write_trust_anchor h (some s) false d
      ≡ (if exists d.anchor then put_anchor h s d else (ok tt, d))
unfolding write_trust_anchor on_store
write-refresh h s d o = ground arith

holds_injective : (a b : Anchor) → ◌≡◌ {A = Doc Anchor} (holds a) (holds b) → a ≡ b
holds_injective a b e = ground arith

refresh-Anchors :
    (h : Host) (s s' : Store) (d d' : Disk) (f : Doc Anchor)
    → d.anchor ≡ f
    → d'.anchor ≡ f
    → SameForm s s'
    → h.anchor_inside ≡ false
    → AnchorAgrees h s d f
    → Anchors h s' d' (if exists f then put_anchor h s' d' else (ok tt, d'))
refresh-Anchors h s s' d d' missing e e' m o g =
    ((integrity_accepts h s' d').1 (o, rw e' (m.sealed ∙ g)), refl)
refresh-Anchors h s s' d d' unreadable e e' m o g = absurd g
refresh-Anchors h s s' d d' (holds a) e e' m o g =
    put_anchor-Anchors h s' o (m.integrity_mode ∙ g.0.hardened) (m.sealed ∙ g.0.sealed) d'
      (λ b k. rw (holds_injective a b (sym e' ∙ k)) at (Describes-Fits s s' a m g.0))

-- Where the anchor check accepted a store and the ledger, and then the sections or the identifier
-- of the store changed, or any other file, but not the anchor file nor the store's integrity mode,
-- seal flag and schema version: refreshing the anchor makes the check accept the new state, or
-- fails and leaves the disk as it was.
pub refresh_keeps_seal :
    (h : Host) (s s' : Store) (d d' : Disk)
    → integrity_anchor_violations h s d ≡ []
    → d'.anchor ≡ d.anchor
    → SameForm s s'
    → Anchors h s' d' (write_trust_anchor h (some s') false d')
refresh_keeps_seal h s s' d d' clean same m =
    let g = (integrity_accepts h s d).0 clean in
    rw (write-refresh h s' d' g.0) (
      refresh-Anchors h s s' d d' d'.anchor (sym same) refl m g.0
        (subst (AnchorAgrees h s d) (sym same) g.1))
