-- ===== src/Admission/Request.antt =====
-- The blocks on the authority and the ledger, read back: no code means that the description holds.
use Prim.Native.Char.{Char}
use Prim.Native.String.{◌++◌ as text_append}
use Prim.Native.String.append
use agent_capability_forge.Code.{
  Code, authority_binding_mismatch, revoked_decision, integrity_store_corrupted,
}
use agent_capability_forge.Prelude.{
  String, Bool, true, false, not, ◌||◌, Option, none, some, List, [], ◌∷◌, ◌≡◌, ◌≢◌, refl, sym, ◌∙◌,
  arith, ==_iff, ◌==◌, beq-false, ne-false_iff, not-false_iff, string_eq, option_eq, report,
  report-nil, append-nil_iff, any, any-false, subst, ◌&&◌,
}
use agent_capability_forge.Records.{
  Text, Provenance, Authority, Revocation, Store, provenance_eq, authority_eq,
}
use agent_capability_forge.Disk.{Disk}
use agent_capability_forge.Host.{Host}
use agent_capability_forge.Integrity.{hardened_mode, store_integrity_mode}
use agent_capability_forge.Integrity.Accepts.{mode_iff}
use agent_capability_forge.Ledger.{load_authority_record, load_authority_events}
use agent_capability_forge.Validation.{
  empty_text, no_provenance, empty_provenance, metadata_missing, conflicts, authority_tests,
  differs, revocable, ledger_file_violations, ledger_violations, root_violations,
}
use agent_capability_forge.Admission.Spec.{
  Filled, FilledProvenance, AgreesIfThere, IsComplete, SameIfThere, LedgerAgrees,
}

pub filled : (t : Text) → empty_text t ≡ false → Filled t
unfolding empty_text
filled none h = cc
filled (some x) h = (x, refl, beq-false x "" h)

filled_provenance : (p : Option Provenance) → empty_provenance p ≡ false → FilledProvenance p
unfolding empty_provenance
filled_provenance none h = cc
filled_provenance (some p) h = (p, refl, beq-false p no_provenance h)

pub agrees_if_there : (x y : Text) → conflicts x y ≡ false → AgreesIfThere x y
agrees_if_there none y h = tt
agrees_if_there (some x) y h = (ne-false_iff (some x) y).0 h

-- A chain of alternatives that all fail.
or_all :
    (a b c d e f g : Bool)
    → (a || b || c || d || e || f || g) ≡ false
    → (a ≡ false)
      × (b ≡ false)
      × (c ≡ false)
      × (d ≡ false)
      × (e ≡ false)
      × (f ≡ false)
      × (g ≡ false)
or_all a b c d e f g h = ground arith

pub authority-IsComplete :
    (h : Host) (a : Authority) → report (authority_tests h a) ≡ [] → IsComplete h a
unfolding metadata_missing
authority-IsComplete h a e =
    let t = report-nil (authority_tests h a) e in
    let m = or_all _ _ _ _ _ _ _ t.0 in
    record {
      candidate_id = filled a.candidate_id m.0;
      candidate_version = filled a.candidate_version m.1;
      promotion_decision_id = filled a.promotion_decision_id m.2;
      evaluation_run_id = filled a.evaluation_run_id m.3;
      policy_version = filled a.policy_version m.4;
      artifact_digest = filled a.artifact_digest m.5;
      provenance = filled_provenance a.provenance m.6;
      authority_id = (ne-false_iff a.authority_id _).0 t.1.0;
      decision_id = agrees_if_there a.decision_id a.promotion_decision_id t.1.1.0;
      issuer = (not-false_iff _).0 t.1.1.1.0;
    }

same_if_there : (r : Option Authority) (a : Authority) → differs r a ≡ false → SameIfThere r a
same_if_there none a h = tt
same_if_there (some r) a h = (ne-false_iff r a).0 h

-- An identifier that the producer makes is not empty.
pub prefixed-ne-empty : (x : String) → (text_append "auth-" x) ≢ ""
prefixed-ne-empty x e =
    let c : Char = "a" in let rest : String = "uth-" in cc (append.cons c rest x)

ledger_files-agree :
    (a : Authority) (s : Store) (d : Disk) (id : String) (r : Option (Option Authority))
    (es : Option (List Revocation))
    → (s.metadata.integrity_mode ≡ some hardened_mode → d.has_ledger ≡ true)
    → load_authority_record d id ≡ r
    → load_authority_events d id ≡ es
    → ledger_file_violations a r es ≡ []
    → LedgerAgrees a s d id
unfolding ledger_file_violations
ledger_files-agree a s d id none es l p q e = cc
ledger_files-agree a s d id (some r) none l p q e = cc
ledger_files-agree a s d id (some r) (some es) l p q e =
    let t =
      report-nil
        ((differs r a, authority_binding_mismatch)
          ∷ (any (λ (x : Revocation). revocable x.status) es, revoked_decision)
          ∷ [])
        e in
    record {
      directory = l;
      kept = r;
      kept_read = p;
      same = same_if_there r a t.0;
      events = es;
      events_read = q;
      unrevoked = any-false (λ (x : Revocation). revocable x.status) es t.1.0;
    }

abbrev directory_tests : Store → Disk → List (Bool × Code)
directory_tests s d =
    (store_integrity_mode s == hardened_mode && not d.has_ledger, integrity_store_corrupted) ∷ []

directory_there :
    (s : Store) (d : Disk)
    → store_integrity_mode s ≡ hardened_mode
    → (store_integrity_mode s == hardened_mode && not d.has_ledger) ≡ false
    → d.has_ledger ≡ true
directory_there s d m e = ground (arith, (==_iff (store_integrity_mode s) hardened_mode).1 m)

ledger_violations_lem :
    (a : Authority) (d : Disk) (id : String)
    → id ≢ ""
    → ledger_violations a (some id) d
      ≡ ledger_file_violations a (load_authority_record d id) (load_authority_events d id)
unfolding ledger_violations
ledger_violations_lem a d id ne = ground (arith, ==_iff id "")

pub ledger-agrees :
    (a : Authority) (s : Store) (d : Disk) (id : String)
    → id ≢ ""
    → a.authority_id ≡ some id
    → root_violations a s (some d) ≡ []
    → LedgerAgrees a s d id
unfolding root_violations
ledger-agrees a s d id ne i e =
    let parts = (append-nil_iff (report (directory_tests s d)) _).0 e in
    let t = report-nil (directory_tests s d) parts.0 in
    ledger_files-agree a s d id (load_authority_record d id) (load_authority_events d id)
      (λ hard. directory_there s d ((mode_iff s).1 hard) t.0) refl refl
      (sym (ledger_violations_lem a d id ne) ∙ subst (λ t. ledger_violations a t d ≡ []) i parts.1)
