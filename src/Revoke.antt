-- ===== src/Revoke.antt =====
-- Revoking an issued authority: revoke_authority of pilot/adoption_authority.py. The event goes to
-- the ledger first; the store's copy and the anchor follow.
pub mod Effects
pub mod Anchor
pub mod Blocks
use Prim.Native.String.{◌++◌ as text_append}
use agent_capability_forge.Prelude.{
  String, Bool, true, false, not, ◌&&◌, Option, none, some, List, [], ◌∷◌, ◌++◌, ◌==◌,
  if◌then◌else◌, string_eq, any,
}
use agent_capability_forge.Code.{
  Code, integrity_store_corrupted, authority_binding_mismatch, missing_authority,
  invalid_authority_status, untrusted_issuer,
}
use agent_capability_forge.Records.{Text, Authority, Revocation, Store}
use agent_capability_forge.Disk.{Doc, holds, Outcome, ok, blocked, raised, exists, Disk, is_listed}
use agent_capability_forge.Host.{Host}
use agent_capability_forge.Integrity.{integrity_anchor_violations, write_trust_anchor}
use agent_capability_forge.Validation.{empty_text}
use agent_capability_forge.Ledger.{
  issuer_allowed, load_store, load_authority_record, append_authority_event,
}

-- The arguments of a call.
pub record Request : Type 0 where
  pub authority_id : String
  pub status : String
  pub issuer_id : String
  pub reason : String

-- `status not in REVOCABLE_STATUSES`
unfoldable pub is_revocable : String → Bool
is_revocable status = any (λ s. status == s) ("REVOKED" ∷ "SUPERSEDED" ∷ [])

-- `status.lower()`, on a status that has passed the test above
abbrev pub lower_status : String → String
lower_status status = if status == "REVOKED" then "revoked" else "superseded"

unfoldable pub event_of : Host → Request → Authority → Revocation
event_of h q a = record {
  event = some (text_append "authority_" (lower_status q.status));
  revocation_id = some (text_append "rev-" h.fresh);
  authority_id = some q.authority_id;
  candidate_id = a.candidate_id;
  candidate_version = a.candidate_version;
  decision_id = a.decision_id;
  promotion_decision_id = a.promotion_decision_id;
  status = some q.status;
  issuer_id = some q.issuer_id;
  reason = some q.reason;
  revoked_at = some h.now;
}

abbrev pub or_promotion : Text → Text → Text
or_promotion d p = if empty_text d && not (empty_text p) then p else d

-- `if not old.get("decision_id") and old.get("promotion_decision_id")`, on each older record;
-- `none` is the exception that an element which is no dict raises.
unfoldable pub normalize_all : List (Option Revocation) → Option (List (Option Revocation))
normalize_all [] = some []
normalize_all (none ∷ rs) = none
normalize_all (some r ∷ rs) = elim (normalize_all rs) [
  | none ↦ none
  | some rest ↦
      some (
        some (record r { decision_id = or_promotion r.decision_id r.promotion_decision_id }) ∷ rest)
]

-- What the call answers after the refresh of the anchor.
abbrev pub answer : Revocation → Outcome (Unit {0}) × Disk → Outcome Revocation × Disk
answer e (ok u, d) = (ok e, d)
answer e (blocked cs, d) = (blocked cs, d)
answer e (raised, d) = (raised, d)

-- The copy in the store: normalise, append, write the store, refresh the anchor.
unfoldable pub sync_normalized :
    Host → Store → Revocation → Disk → Option (List (Option Revocation)) → Outcome Revocation × Disk
sync_normalized h s e d none = (raised, d)
sync_normalized h s e d (some rs) =
    let s' : Store = record s { revocations = rs ++ some e ∷ [] } in
    answer e (write_trust_anchor h (some s') false (record d { store = holds s' }))

unfoldable pub sync_store : Host → Option Store → Revocation → Disk → Outcome Revocation × Disk
sync_store h none e d = (ok e, d)
sync_store h (some s) e d = sync_normalized h s e d (normalize_all s.revocations)

-- Behind the record: the guards on the status and the issuer, the KeyError of a record that lacks a
-- subscripted key, then the event. A key that is there may be null.
unfoldable pub revoke_record :
    Host → Request → Option Store → Disk → Authority → Outcome Revocation × Disk
revoke_record h q store d a =
    if not (is_revocable q.status)
    then (blocked (invalid_authority_status ∷ []), d)
    else if not (issuer_allowed h (some q.issuer_id))
    then (blocked (untrusted_issuer ∷ []), d)
    else if is_listed q.authority_id d.lacking_keys
    then (raised, d)
    else sync_store h store (event_of h q a)
        (append_authority_event q.authority_id (event_of h q a) d)

unfoldable pub revoke_loaded :
    Host → Request → Option Store → Disk → Option (Option Authority) → Outcome Revocation × Disk
revoke_loaded h q store d none = (blocked (authority_binding_mismatch ∷ []), d)
revoke_loaded h q store d (some none) = (blocked (missing_authority ∷ []), d)
revoke_loaded h q store d (some (some a)) = revoke_record h q store d a

-- `v = anchor_violations[0]`
unfoldable pub revoke_checked :
    Host → Request → Option Store → Disk → List Code → Outcome Revocation × Disk
revoke_checked h q store d [] = revoke_loaded h q store d (load_authority_record d q.authority_id)
revoke_checked h q store d (c ∷ cs) = (blocked (c ∷ []), d)

-- A store that is missing must not have an anchor.
unfoldable pub start_violations : Host → Option Store → Disk → List Code
start_violations h none d = if exists d.anchor then integrity_store_corrupted ∷ [] else []
start_violations h (some s) d = integrity_anchor_violations h s d

unfoldable pub revoke_from :
    Host → Request → Disk → Option (Option Store) → Outcome Revocation × Disk
revoke_from h q d none = (raised, d)
revoke_from h q d (some store) = revoke_checked h q store d (start_violations h store d)

unfoldable pub revoke_authority : Host → Request → Disk → Outcome Revocation × Disk
revoke_authority h q d = revoke_from h q d (load_store d)
