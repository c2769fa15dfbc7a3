-- ===== src/Revoke/Effects.antt =====
-- What a revocation leaves on disk.
use agent_capability_forge.Prelude.{
  String, true, false, not, Option, none, some, List, [], ◌∷◌, ◌++◌, ◌≡◌, ◌⊎◌, inl, inr, refl, sym,
  ◌∙◌, subst, arith, string_eq, if_cases, lookup, lookup-insert_self, lookup-insert_ne, any, Exists,
  not-false_iff, ◌≢◌, ap, Bool,
}
use agent_capability_forge.Code.{Code}
use agent_capability_forge.Records.{Authority, Revocation, Store}
use agent_capability_forge.Disk.{
  Doc, missing, unreadable, holds, Outcome, ok, blocked, raised, Disk, or_missing, is_listed,
}
use agent_capability_forge.Host.{Host}
use agent_capability_forge.Integrity.{write_trust_anchor}
use agent_capability_forge.Integrity.Frame.{write-SameFiles}
use agent_capability_forge.Ledger.{
  issuer_allowed, read_lines, load_authority_events, append_line, append_authority_event,
}
use agent_capability_forge.Validation.{revocable}
use agent_capability_forge.Revoke.{
  Request, is_revocable, event_of, normalize_all, answer, sync_normalized, sync_store,
  revoke_record, revoke_loaded, revoke_checked, start_violations, revoke_from, revoke_authority,
}

-- The event file of an authority has a revoking event, or can no longer be read.
abbrev pub HasRevocation : Option (List Revocation) → Type 0
HasRevocation none = Unit
HasRevocation (some es) = Exists (λ (e : Revocation). revocable e.status ≡ true) es

abbrev pub IsRevoked : String → Disk → Type 0
IsRevoked id d = HasRevocation (load_authority_events d id)

-- The file of `id` behind a new event, where it could be read before and its last line had ended:
-- the events that were there and the new one. Elsewhere it cannot be read.
abbrev pub EndsWith : Bool → Doc (List Revocation) → Revocation → Option (List Revocation) → Type 0
EndsWith joined missing e after = after ≡ some (e ∷ [])
EndsWith joined unreadable e after = after ≡ none
EndsWith true (holds es) e after = after ≡ none
EndsWith false (holds es) e after = after ≡ some (es ++ e ∷ [])

append_line-EndsWith :
    (joined : Bool) (f : Doc (List Revocation)) (e : Revocation)
    → EndsWith joined f e (read_lines (append_line joined f e))
append_line-EndsWith joined missing e = refl
append_line-EndsWith joined unreadable e = refl
append_line-EndsWith true (holds es) e = refl
append_line-EndsWith false (holds es) e = refl

abbrev pub Logs : String → Revocation → Disk → Disk → Type 0
Logs id e d d' =
    EndsWith (is_listed id d.open_lines) (or_missing (lookup id d.events)) e
      (load_authority_events d' id)

append-Logs :
    (id : String) (e : Revocation) (d : Disk) → Logs id e d (append_authority_event id e d)
unfolding load_authority_events append_authority_event
append-Logs id e d =
    let f = or_missing (lookup id d.events) in
    let joined = is_listed id d.open_lines in
    subst (λ o. EndsWith joined f e (read_lines (or_missing o)))
      (sym (lookup-insert_self id (append_line joined f e) d.events))
      (append_line-EndsWith joined f e)

append-others :
    (id : String) (e : Revocation) (d : Disk) (j : String)
    → j ≢ id
    → load_authority_events (append_authority_event id e d) j ≡ load_authority_events d j
unfolding load_authority_events append_authority_event
append-others id e d j other =
    ap (λ o. read_lines (or_missing o))
      (lookup-insert_ne j id
        (append_line (is_listed id d.open_lines) (or_missing (lookup id d.events)) e) d.events
        other)

-- A status that the call accepts is one that the validator reads as a revocation.
pub revocable_lem : (status : String) → is_revocable status ≡ true → revocable (some status) ≡ true
unfolding is_revocable any revocable
revocable_lem status h = ground arith

-- The event `e` of the asked authority and status is a revocation and on disk, behind the events
-- that were there; all other event files read as before, and the records are the same.
pub record Records (q : Request) (d : Disk) (e : Revocation) (d' : Disk) : Type 0 where
  pub authority : e.authority_id ≡ some q.authority_id
  pub status : e.status ≡ some q.status
  pub revokes : revocable e.status ≡ true
  pub logged : Logs q.authority_id e d d'
  pub others :
      (j : String) → j ≢ q.authority_id → load_authority_events d' j ≡ load_authority_events d j
  pub records : d'.records ≡ d.records

-- What a call leaves: the event that it answers; or, without an answer, no change or one event.
abbrev pub Revokes : Request → Disk → Outcome Revocation × Disk → Type 0
Revokes q d (ok e, d') = Records q d e d'
Revokes q d (blocked cs, d') = (d' ≡ d) ⊎ ((e : Revocation) × Records q d e d')
Revokes q d (raised, d') = (d' ≡ d) ⊎ ((e : Revocation) × Records q d e d')

-- The store and the anchor do not matter to it.
keep-Records :
    (q : Request) (e : Revocation) (d d' d'' : Disk)
    → d''.events ≡ d'.events
    → d''.records ≡ d'.records
    → Records q d e d'
    → Records q d e d''
unfolding load_authority_events
keep-Records q e d d' d'' ev rec r = record {
  authority = r.authority;
  status = r.status;
  revokes = r.revokes;
  logged =
      subst
        (λ m.
          EndsWith (is_listed q.authority_id d.open_lines)
            (or_missing (lookup q.authority_id d.events)) e
            (read_lines (or_missing (lookup q.authority_id m))))
        (sym ev) r.logged;
  others = λ j other. ap (λ m. read_lines (or_missing (lookup j m))) ev ∙ r.others j other;
  records = rec ∙ r.records;
}

answer-Revokes :
    (q : Request) (d : Disk) (e : Revocation) (r : Outcome (Unit {0}) × Disk)
    → Records q d e r.1
    → Revokes q d (answer e r)
answer-Revokes q d e (ok u, d') r = r
answer-Revokes q d e (blocked cs, d') r = inr (e, r)
answer-Revokes q d e (raised, d') r = inr (e, r)

sync_normalized-Revokes :
    (h : Host) (q : Request) (s : Store) (e : Revocation) (d d' : Disk)
    (n : Option (List (Option Revocation)))
    → Records q d e d'
    → Revokes q d (sync_normalized h s e d' n)
unfolding sync_normalized
sync_normalized-Revokes h q s e d d' none r = inr (e, r)
sync_normalized-Revokes h q s e d d' (some rs) r =
    let s' : Store = record s { revocations = rs ++ some e ∷ [] } in
    let same = write-SameFiles h (some s') false (record d' { store = holds s' }) in
    let o = write_trust_anchor h (some s') false (record d' { store = holds s' }) in
    answer-Revokes q d e o (keep-Records q e d d' o.1 same.events same.records r)

sync_store-Revokes :
    (h : Host) (q : Request) (s : Option Store) (e : Revocation) (d d' : Disk)
    → Records q d e d'
    → Revokes q d (sync_store h s e d')
unfolding sync_store
sync_store-Revokes h q none e d d' r = r
sync_store-Revokes h q (some s) e d d' r =
    sync_normalized-Revokes h q s e d d' (normalize_all s.revocations) r

append-Records :
    (h : Host) (q : Request) (a : Authority) (d : Disk)
    → is_revocable q.status ≡ true
    → Records q d (event_of h q a) (append_authority_event q.authority_id (event_of h q a) d)
unfolding append_authority_event event_of
append-Records h q a d good = record {
  authority = refl;
  status = refl;
  revokes = revocable_lem q.status good;
  logged = append-Logs q.authority_id (event_of h q a) d;
  others = append-others q.authority_id (event_of h q a) d;
  records = refl;
}

revoke_record-Revokes :
    (h : Host) (q : Request) (s : Option Store) (d : Disk) (a : Authority)
    → Revokes q d (revoke_record h q s d a)
unfolding revoke_record
revoke_record-Revokes h q s d a =
    if_cases (Revokes q d) (not (is_revocable q.status)) (λ _. inl refl)
      (λ good.
        if_cases (Revokes q d) (not (issuer_allowed h (some q.issuer_id))) (λ _. inl refl)
          (λ _.
            if_cases (Revokes q d) (is_listed q.authority_id d.lacking_keys) (λ _. inl refl)
              (λ _.
                sync_store-Revokes h q s (event_of h q a) d
                  (append_authority_event q.authority_id (event_of h q a) d)
                  (append-Records h q a d ((not-false_iff _).0 good)))))

revoke_loaded-Revokes :
    (h : Host) (q : Request) (s : Option Store) (d : Disk) (r : Option (Option Authority))
    → Revokes q d (revoke_loaded h q s d r)
unfolding revoke_loaded
revoke_loaded-Revokes h q s d none = inl refl
revoke_loaded-Revokes h q s d (some none) = inl refl
revoke_loaded-Revokes h q s d (some (some a)) = revoke_record-Revokes h q s d a

revoke_checked-Revokes :
    (h : Host) (q : Request) (s : Option Store) (d : Disk) (cs : List Code)
    → Revokes q d (revoke_checked h q s d cs)
unfolding revoke_checked
revoke_checked-Revokes h q s d [] = revoke_loaded-Revokes h q s d _
revoke_checked-Revokes h q s d (c ∷ cs) = inl refl

revoke_from-Revokes :
    (h : Host) (q : Request) (d : Disk) (s : Option (Option Store))
    → Revokes q d (revoke_from h q d s)
unfolding revoke_from
revoke_from-Revokes h q d none = inl refl
revoke_from-Revokes h q d (some s) = revoke_checked-Revokes h q s d (start_violations h s d)

-- When revoke_authority answers REVOKED, the answered event names the asked authority and status and
-- is a revocation, and it is on disk: the authority's event file reads as the events that were there
-- before and then this one, and only a file that could not be read, or whose last line had no
-- newline, cannot be read behind the call. Every other event file reads as before and the authority
-- records are the same. When it refuses or raises, either nothing has changed or just such an event
-- is on disk in that way.
pub revoke-Revokes : (h : Host) (q : Request) (d : Disk) → Revokes q d (revoke_authority h q d)
unfolding revoke_authority
revoke-Revokes h q d = revoke_from-Revokes h q d _
