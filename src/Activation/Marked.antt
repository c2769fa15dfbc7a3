-- ===== src/Activation/Marked.antt =====
-- What mark_promoted leaves on disk.
use agent_capability_forge.Prelude.{
  Bool, true, false, ◌&&◌, Option, none, some, [], ◌∷◌, ◌≡◌, refl, sym, ap, ◌∙◌, subst,
  if◌then◌else◌, ◌==◌, ◌!=◌, ==_iff, string_eq, option_eq, any, lookup-insert_self, get?,
}
use agent_capability_forge.Code.{invalid_lifecycle, registry_state_not_promoted, missing_lifecycle}
use agent_capability_forge.Records.{Text, Lifecycle, RunRequest, Store}
use agent_capability_forge.Disk.{
  Doc, missing, unreadable, holds, Outcome, ok, blocked, raised, Disk, read, refuse_if, refuse_all,
  or_raise, or_refuse, >>=-eq-ok, refuse_all-ok, or_raise-ok, or_refuse-ok,
}
use agent_capability_forge.Host.{Host}
use agent_capability_forge.Integrity.{integrity_anchor_violations, write_trust_anchor}
use agent_capability_forge.Integrity.Frame.{write-SameFiles}
use agent_capability_forge.Integrity.Sealing.{Anchors, refresh_keeps_seal}
use agent_capability_forge.Ledger.{load_store}
use agent_capability_forge.Validation.{find_lifecycle, promotes}
use agent_capability_forge.Registry.{Entry, or_no_adoption}
use agent_capability_forge.Guard.{
  find_authority, promoted_lifecycle, recorded_intent, with_promoted, marked_store, mark_checks,
  commit_marked, mark_promoted,
}

-- The lifecycle of the candidate in a store is PROMOTED.
abbrev pub IsPromoted : Text → Store → Type 0
IsPromoted id s = (l : Lifecycle) × (find_lifecycle s id ≡ some l) × (l.status ≡ some "PROMOTED")

-- A disk whose store is promoted for a candidate and agrees with its anchor.
abbrev pub Promotes : Host → Text → Outcome (Unit {0}) × Disk → Type 0
Promotes h id (ok u, d) =
    (s : Store) × (d.store ≡ holds s) × IsPromoted id s × (integrity_anchor_violations h s d ≡ [])
Promotes h id (blocked cs, d) = Unit
Promotes h id (raised, d) = Unit

ok-injective : (x y : Lifecycle × Bool) → ◌≡◌ {A = Outcome (Lifecycle × Bool)} (ok x) (ok y) → x ≡ y
ok-injective x y p = cc

-- The lifecycle is PROMOTED, and the old one where it did not change.
abbrev Moved : Lifecycle → Lifecycle × Bool → Type 0
Moved l x = (x.0.status ≡ some "PROMOTED") × (x.1 ≡ false → x.0 ≡ l)

promoted_lifecycle_lem :
    (l : Lifecycle) (r : Lifecycle × Bool) → promoted_lifecycle l ≡ ok r → Moved l r
unfolding promoted_lifecycle
promoted_lifecycle_lem l r e =
    move (l.status == some "PROMOTED") (l.status == some "PROMOTABLE" && any promotes l.transitions)
      (λ t. (==_iff l.status (some "PROMOTED")).0 t) e
  where
    move :
        (b c : Bool)
        → (b ≡ true → l.status ≡ some "PROMOTED")
        → (if b
            then ok (l, false)
            else if c
            then ok (record l { status = some "PROMOTED" }, true)
            else blocked (invalid_lifecycle ∷ []))
          ≡ ok r
        → Moved l r
    move true c f k = subst (Moved l) (ok-injective (l, false) r k) (f refl, λ _. refl)
    move false true f k =
        subst (Moved l) (ok-injective (record l { status = some "PROMOTED" }, true) r k)
          (refl, λ p. cc (p))
    move false false f k = cc

with_promoted-IsPromoted :
    (s : Store) (id : Text) (old l : Lifecycle) (intent : Option RunRequest)
    → find_lifecycle s id ≡ some old
    → l.status ≡ some "PROMOTED"
    → IsPromoted id (with_promoted s id l intent)
unfolding find_lifecycle get?
with_promoted-IsPromoted s none old l intent f st = cc
with_promoted-IsPromoted s (some x) old l intent f st = (l, lookup-insert_self x l s.lifecycle, st)

read-holds : (f : Doc Store) (s : Store) → read f ≡ some (some s) → f ≡ holds s
read-holds missing s e = cc
read-holds unreadable s e = cc
read-holds (holds x) s e = cc

-- The store is loaded and agrees with its anchor, and the lifecycle is found.
module _ (h : Host) (d : Disk) (s : Store) (id : Text) (old : Lifecycle)
    (loaded : d.store ≡ holds s) (clean : integrity_anchor_violations h s d ≡ [])
    (found : find_lifecycle s id ≡ some old) where
  refreshed :
      (s' : Store) (r : Outcome (Unit {0}) × Disk)
      → IsPromoted id s'
      → r.1.store ≡ holds s'
      → Anchors h s' (record d { store = holds s' }) r
      → Promotes h id r
  refreshed s' (ok u, d') p st a = (s', st, p, a.0)
  refreshed s' (blocked cs, d') p st a = tt
  refreshed s' (raised, d') p st a = tt

  committed :
      (l : Lifecycle × Bool) (intent : Option RunRequest × Bool)
      → l.0.status ≡ some "PROMOTED"
      → (l.1 ≡ false → l.0 ≡ old)
      → Promotes h id (commit_marked h d (ok (marked_store s id l intent)))
  unfolding commit_marked marked_store
  committed (l, true) (intent, c) st keep =
      let s' = with_promoted s id l intent in
      let d2 : Disk = record d { store = holds s' } in
      refreshed s' (write_trust_anchor h (some s') false d2)
        (with_promoted-IsPromoted s id old l intent found st)
        ((write-SameFiles h (some s') false d2).store)
        (refresh_keeps_seal h s s' d d2 clean refl
          (record { integrity_mode = refl; sealed = refl; schema_version = refl }))
  committed (l, false) (intent, true) st keep =
      let s' = with_promoted s id l intent in
      let d2 : Disk = record d { store = holds s' } in
      refreshed s' (write_trust_anchor h (some s') false d2)
        (with_promoted-IsPromoted s id old l intent found st)
        ((write-SameFiles h (some s') false d2).store)
        (refresh_keeps_seal h s s' d d2 clean refl
          (record { integrity_mode = refl; sealed = refl; schema_version = refl }))
  committed (l, false) (intent, false) st keep =
      (s, loaded, (l, found ∙ ap some (sym (keep refl)), st), clean)

checks-Promotes :
    (h : Host) (e : Entry) (d : Disk) (m : Outcome (Option Store))
    → mark_checks h d e ≡ m
    → Promotes h (or_no_adoption e.adoption).candidate_id (commit_marked h d m)
unfolding mark_checks commit_marked load_store
checks-Promotes h e d (ok m) k =
    let id = (or_no_adoption e.adoption).candidate_id in
    let (opened, e1, f1) = >>=-eq-ok (or_raise (load_store d)) _ k in
    let (st, e2, f2) = >>=-eq-ok (or_refuse opened _) _ f1 in
    let (_, e3, f3) = >>=-eq-ok (refuse_all (integrity_anchor_violations h st d)) _ f2 in
    let (_, e4, f4) =
      >>=-eq-ok (refuse_if (e.state != some "promoted") registry_state_not_promoted) _ f3 in
    let (old, e5, f5) = >>=-eq-ok (or_refuse (find_lifecycle st id) missing_lifecycle) _ f4 in
    let (l, e6, f6) = >>=-eq-ok (promoted_lifecycle old) _ f5 in
    let p = promoted_lifecycle_lem old l e6 in
    subst (λ x. Promotes h id (commit_marked h d x)) f6
      (committed h d st id old
        (read-holds d.store st (or_raise-ok _ e1 ∙ ap some (or_refuse-ok opened _ e2)))
        (refuse_all-ok _ e3) (or_refuse-ok _ _ e5) l
        (recorded_intent e (find_authority st (or_no_adoption e.adoption).promotion_decision_id)
          st.run_request)
        p.0 p.1)
checks-Promotes h e d (blocked cs) k = tt
checks-Promotes h e d raised k = tt

-- When mark_promoted returns, the store on disk holds the candidate's lifecycle as PROMOTED, and
-- the store agrees with its anchor, whether the call had to write or found all as it should be.
pub mark-Promotes :
    (h : Host) (e : Entry) (d : Disk)
    → Promotes h (or_no_adoption e.adoption).candidate_id (mark_promoted h e d)
unfolding mark_promoted
mark-Promotes h e d = checks-Promotes h e d (mark_checks h d e) refl
