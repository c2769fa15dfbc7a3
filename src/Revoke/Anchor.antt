-- ===== src/Revoke/Anchor.antt =====
-- A revocation and the anchor of the store.
use agent_capability_forge.Prelude.{
  String, false, not, Option, none, some, List, [], ◌∷◌, ◌++◌, ◌≡◌, refl, if_cases, ap, subst,
}
use agent_capability_forge.Code.{Code}
use agent_capability_forge.Records.{Authority, Revocation, Metadata, Store, no_metadata}
use agent_capability_forge.Disk.{
  Doc, missing, unreadable, holds, Outcome, ok, blocked, raised, Disk, read, is_listed,
}
use agent_capability_forge.Host.{Host}
use agent_capability_forge.Integrity.{integrity_anchor_violations, write_trust_anchor}
use agent_capability_forge.Integrity.Frame.{write-SameFiles}
use agent_capability_forge.Integrity.Sealing.{Anchors, refresh_keeps_seal}
use agent_capability_forge.Ledger.{issuer_allowed, load_store, append_authority_event}
use agent_capability_forge.Revoke.{
  Request, is_revocable, event_of, normalize_all, answer, sync_normalized, sync_store,
  revoke_record, revoke_loaded, revoke_checked, start_violations, revoke_from, revoke_authority,
}

-- What a revocation that was answered leaves of a store with metadata `m`: the store file holds a
-- store with that metadata, which the anchor check accepts.
abbrev pub Keeps : Host → Metadata → Outcome Revocation × Disk → Type 0
Keeps h m (ok e, d') =
    (s : Store) × (d'.store ≡ holds s)
    × (s.metadata ≡ m)
    × (integrity_anchor_violations h s d' ≡ [])
Keeps h m (blocked cs, d') = Unit
Keeps h m (raised, d') = Unit

answer-Keeps :
    (h : Host) (e : Revocation) (s : Store) (d : Disk) (r : Outcome (Unit {0}) × Disk)
    → Anchors h s d r
    → r.1.store ≡ holds s
    → Keeps h s.metadata (answer e r)
answer-Keeps h e s d (ok u, d') a st = (s, st, refl, a.0)
answer-Keeps h e s d (blocked cs, d') a st = tt
answer-Keeps h e s d (raised, d') a st = tt

append-anchor :
    (id : String) (e : Revocation) (d : Disk) → (append_authority_event id e d).anchor ≡ d.anchor
unfolding append_authority_event
append-anchor id e d = refl

module _ (h : Host) (s : Store) (d : Disk) (clean : integrity_anchor_violations h s d ≡ []) where
  sync-Keeps :
      (e : Revocation) (d' : Disk) (n : Option (List (Option Revocation)))
      → d'.anchor ≡ d.anchor
      → Keeps h s.metadata (sync_normalized h s e d' n)
  unfolding sync_normalized
  sync-Keeps e d' none same = tt
  sync-Keeps e d' (some rs) same =
      let s' : Store = record s { revocations = rs ++ some e ∷ [] } in
      let d2 : Disk = record d' { store = holds s' } in
      answer-Keeps h e s' d2 (write_trust_anchor h (some s') false d2)
        (refresh_keeps_seal h s s' d d2 clean same
          (record { integrity_mode = refl; sealed = refl; schema_version = refl }))
        ((write-SameFiles h (some s') false d2).store)

  record-Keeps : (q : Request) (a : Authority) → Keeps h s.metadata (revoke_record h q (some s) d a)
  unfolding revoke_record sync_store
  record-Keeps q a =
      if_cases (Keeps h s.metadata) (not (is_revocable q.status)) (λ _. tt)
        (λ _.
          if_cases (Keeps h s.metadata) (not (issuer_allowed h (some q.issuer_id))) (λ _. tt)
            (λ _.
              if_cases (Keeps h s.metadata) (is_listed q.authority_id d.lacking_keys) (λ _. tt)
                (λ _.
                  sync-Keeps (event_of h q a)
                    (append_authority_event q.authority_id (event_of h q a) d)
                    (normalize_all s.revocations)
                    (append-anchor q.authority_id (event_of h q a) d))))

  loaded-Keeps :
      (q : Request) (r : Option (Option Authority))
      → Keeps h s.metadata (revoke_loaded h q (some s) d r)
  unfolding revoke_loaded
  loaded-Keeps q none = tt
  loaded-Keeps q (some none) = tt
  loaded-Keeps q (some (some a)) = record-Keeps q a

checked-Keeps :
    (h : Host) (q : Request) (s : Store) (d : Disk) (cs : List Code)
    → integrity_anchor_violations h s d ≡ cs
    → Keeps h s.metadata (revoke_checked h q (some s) d cs)
unfolding revoke_checked
checked-Keeps h q s d [] clean = loaded-Keeps h s d clean q _
checked-Keeps h q s d (c ∷ cs) clean = tt

abbrev metadata_of : Doc Store → Metadata
metadata_of missing = no_metadata
metadata_of unreadable = no_metadata
metadata_of (holds s) = s.metadata

from-Keeps :
    (h : Host) (q : Request) (s : Store) (d : Disk) (f : Doc Store)
    → f ≡ holds s
    → Keeps h s.metadata (revoke_from h q d (read f))
unfolding revoke_from start_violations
from-Keeps h q s d missing e = cc
from-Keeps h q s d unreadable e = cc
from-Keeps h q s d (holds x) e =
    subst (λ m. Keeps h m (revoke_checked h q (some x) d (integrity_anchor_violations h x d)))
      (ap metadata_of e) (checked-Keeps h q x d (integrity_anchor_violations h x d) refl)

-- Revoking on a store that the anchor covers keeps the anchor valid: when revoke_authority answers
-- REVOKED, the store file holds a store with the same metadata, which the anchor check accepts
-- together with the ledger that now has the event.
pub revoke-Keeps :
    (h : Host) (q : Request) (s : Store) (d : Disk)
    → d.store ≡ holds s
    → Keeps h s.metadata (revoke_authority h q d)
unfolding revoke_authority load_store
revoke-Keeps h q s d e = from-Keeps h q s d d.store e
