-- ===== src/Integrity/Frame.antt =====
-- What the writers of the anchor leave alone.
use agent_capability_forge.Prelude.{
  ℕ, String, Bool, not, ◌&&◌, Option, none, some, ◌≡◌, refl, if_cases, ◌!=◌, string_eq,
}
use agent_capability_forge.Records.{Store}
use agent_capability_forge.Disk.{Outcome, exists, Disk}
use agent_capability_forge.Host.{Host}
use agent_capability_forge.Integrity.{
  hardened_mode, store_integrity_mode, authority_manifest_digest, next_revision, anchor_of,
  same_content, put_revision, put_anchor, on_store, given_or_loaded, write_trust_anchor,
}

-- Every file but the anchor is the same.
pub record SameFiles (d d' : Disk) : Type 0 where
  pub store : d'.store ≡ d.store
  pub has_ledger : d'.has_ledger ≡ d.has_ledger
  pub records : d'.records ≡ d.records
  pub events : d'.events ≡ d.events

abbrev all_same : (d : Disk) → SameFiles d d
all_same d = record { store = refl; has_ledger = refl; records = refl; events = refl }

put_revision-SameFiles :
    (h : Host) (s : Store) (d : Disk) (r : Option ℕ) (m : Option String)
    → SameFiles d (put_revision h s d r m).1
unfolding put_revision
put_revision-SameFiles h s d none m = all_same d
put_revision-SameFiles h s d (some r) none = all_same d
put_revision-SameFiles h s d (some r) (some m) =
    if_cases (λ (x : Outcome (Unit {0}) × Disk). SameFiles d x.1)
      (same_content d.anchor (anchor_of h s d m r)) (λ _. all_same d)
      (λ _. record { store = refl; has_ledger = refl; records = refl; events = refl })

put_anchor-SameFiles : (h : Host) (s : Store) (d : Disk) → SameFiles d (put_anchor h s d).1
unfolding put_anchor
put_anchor-SameFiles h s d =
    if_cases (λ (x : Outcome (Unit {0}) × Disk). SameFiles d x.1)
      (store_integrity_mode s != hardened_mode) (λ _. all_same d)
      (λ _. put_revision-SameFiles h s d (next_revision d.anchor) (authority_manifest_digest h d))

on_store-SameFiles :
    (h : Host) (d : Disk) (g : Option (Option Store))
    → SameFiles d (on_store g d (λ s. put_anchor h s d)).1
unfolding on_store
on_store-SameFiles h d none = all_same d
on_store-SameFiles h d (some none) = all_same d
on_store-SameFiles h d (some (some s)) = put_anchor-SameFiles h s d

pub write-SameFiles :
    (h : Host) (given : Option Store) (create_only : Bool) (d : Disk)
    → SameFiles d (write_trust_anchor h given create_only d).1
unfolding write_trust_anchor
write-SameFiles h given create_only d =
    let P = λ (x : Outcome (Unit {0}) × Disk). SameFiles d x.1 in
    if_cases P h.anchor_inside (λ _. all_same d)
      (λ _.
        if_cases P (create_only && exists d.anchor) (λ _. all_same d)
          (λ _.
            if_cases P (not create_only && not (exists d.anchor)) (λ _. all_same d)
              (λ _. on_store-SameFiles h d (given_or_loaded given d))))
