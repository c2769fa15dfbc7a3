-- ===== src/Guard/Promoted.antt =====
-- mark_promoted of pilot/runtime_adoption_guard.py: the lifecycle becomes PROMOTED and a canonical
-- entry's run intent is recorded, after which the store is written and the anchor refreshed.
use agent_capability_forge.Prelude.{
  Bool, true, false, ◌&&◌, ◌||◌, Option, none, some, [], ◌∷◌, ◌==◌, ◌!=◌, if◌then◌else◌, string_eq,
  option_eq, any, insert,
}
use agent_capability_forge.Code.{
  missing_adoption_store, registry_state_not_promoted, missing_lifecycle, invalid_lifecycle,
}
use agent_capability_forge.Records.{Text, Authority, Lifecycle, RunRequest, Store, run_request_eq}
use agent_capability_forge.Disk.{
  holds, Outcome, ok, blocked, raised, Disk, ◌>>=◌, ◌>>◌, refuse_if, refuse_all, or_raise,
  or_refuse,
}
use agent_capability_forge.Host.{Host, shown}
use agent_capability_forge.Integrity.{integrity_anchor_violations, write_trust_anchor}
use agent_capability_forge.Ledger.{load_store}
use agent_capability_forge.Validation.{find_lifecycle, promotes}
use agent_capability_forge.Registry.{Entry, or_no_adoption, is_canonical}
use agent_capability_forge.Guard.Binding.{find_authority}
use agent_capability_forge.Guard.Intent.{run_request_of}

-- The lifecycle and whether it changed.
unfoldable pub promoted_lifecycle : Lifecycle → Outcome (Lifecycle × Bool)
promoted_lifecycle l =
    if l.status == some "PROMOTED"
    then ok (l, false)
    else if l.status == some "PROMOTABLE" && any promotes l.transitions
    then ok (record l { status = some "PROMOTED" }, true)
    else blocked (invalid_lifecycle ∷ [])

-- The store's run_request, and whether it changed.
unfoldable pub recorded_intent :
    Entry → Option Authority → Option RunRequest → Option RunRequest × Bool
recorded_intent e none old = (old, false)
recorded_intent e (some a) old =
    if is_canonical a && old != some (run_request_of e a)
    then (some (run_request_of e a), true)
    else (old, false)

abbrev pub with_promoted : Store → Text → Lifecycle → Option RunRequest → Store
with_promoted s id l intent = record s {
  lifecycle = insert (shown id) l s.lifecycle;
  run_request = intent;
}

-- The store that is written, or `none` where nothing changed.
unfoldable pub marked_store :
    Store → Text → Lifecycle × Bool → Option RunRequest × Bool → Option Store
marked_store s id l intent =
    if l.1 || intent.1 then some (with_promoted s id l.0 intent.0) else none

-- All that mark_promoted checks, with the store it writes.
unfoldable pub mark_checks : Host → Disk → Entry → Outcome (Option Store)
mark_checks h d e = do
  loaded ← or_raise (load_store d)
  st ← or_refuse loaded missing_adoption_store
  refuse_all (integrity_anchor_violations h st d)
  refuse_if (e.state != some "promoted") registry_state_not_promoted
  old ← or_refuse (find_lifecycle st (or_no_adoption e.adoption).candidate_id) missing_lifecycle
  l ← promoted_lifecycle old
  ok (
      marked_store st (or_no_adoption e.adoption).candidate_id l (
        recorded_intent e (find_authority st (or_no_adoption e.adoption).promotion_decision_id)
          st.run_request))

unfoldable pub commit_marked : Host → Disk → Outcome (Option Store) → Outcome (Unit {0}) × Disk
commit_marked h d (ok none) = (ok tt, d)
commit_marked h d (ok (some s)) = write_trust_anchor h (some s) false (record d { store = holds s })
commit_marked h d (blocked cs) = (blocked cs, d)
commit_marked h d raised = (raised, d)

unfoldable pub mark_promoted : Host → Entry → Disk → Outcome (Unit {0}) × Disk
mark_promoted h e d = commit_marked h d (mark_checks h d e)
