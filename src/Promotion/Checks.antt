-- ===== src/Promotion/Checks.antt =====
-- What promote has checked when it returns an entry.
use agent_capability_forge.Prelude.{
  Bool, true, false, some, List, [], ◌≡◌, refl, ap, ◌∙◌, if◌then◌else◌,
}
use agent_capability_forge.Code.{Code}
use agent_capability_forge.Records.{Text, Authority, Store}
use agent_capability_forge.Disk.{
  Outcome, ok, blocked, raised, refuse_all, or_raise, or_refuse, >>=-eq-ok, refuse_all-ok,
  or_raise-ok, or_refuse-ok,
}
use agent_capability_forge.Host.{Host, authority_id_for}
use agent_capability_forge.Integrity.{integrity_anchor_violations}
use agent_capability_forge.Ledger.{load_store}
use agent_capability_forge.Validation.{Report, validate}
use agent_capability_forge.Admission.Spec.{IsBacked, LedgerAgrees}
use agent_capability_forge.Admission.Sound.{allowed-IsBacked, allowed-LedgerAgrees}
use agent_capability_forge.Frozen.{Sealer}
use agent_capability_forge.Registry.{
  Entry, World, Promotion, identity_guards, actual_digest, refuse_report, promote_checks,
  promote_checked, promote,
}

-- The store on disk backs the authority for the artifact that is being promoted, with an anchor
-- that agrees and a ledger that agrees.
pub record IsAdmitted (h : Host) (s : Sealer) (w : World) (p : Promotion) (a : Authority)
    : Type 0 where
  pub store : Store
  pub loaded : load_store w.disk ≡ some (some store)
  pub anchored : integrity_anchor_violations h store w.disk ≡ []
  pub digest : Text
  pub capability_id : Text
  pub measured : actual_digest h s w p a ≡ ok (digest, capability_id)
  pub backed : IsBacked h a store digest
  pub ledger :
      LedgerAgrees a store w.disk
        (authority_id_for h a.candidate_id a.candidate_version a.promotion_decision_id)

refuse_report-ok : (r : Report) {u : Unit {0}} → refuse_report r ≡ ok u → r.allowed ≡ true
refuse_report-ok r e = report_cases r.allowed r.violations e
  where
    report_cases :
        (b : Bool) (cs : List Code) {u : Unit {0}}
        → (if b then ok tt else blocked cs) ≡ ok u
        → b ≡ true
    report_cases true cs e = refl
    report_cases false cs e = cc

pub checks-IsAdmitted :
    (h : Host) (s : Sealer) (w : World) (p : Promotion) (a : Authority) {found : Text × Text}
    → promote_checks h s w p a ≡ ok found
    → IsAdmitted h s w p a
unfolding promote_checks
checks-IsAdmitted h s w p a e =
    let (loaded, e1, f1) = >>=-eq-ok (or_raise (load_store w.disk)) _ e in
    let (st, e2, f2) = >>=-eq-ok (or_refuse loaded _) _ f1 in
    let (_, e3, f3) = >>=-eq-ok (refuse_all (integrity_anchor_violations h st w.disk)) _ f2 in
    let (_, e4, f4) = >>=-eq-ok (identity_guards p a) _ f3 in
    let (found, e5, f5) = >>=-eq-ok (actual_digest h s w p a) _ f4 in
    let (_, e6, f6) = >>=-eq-ok (refuse_report (validate h a st found.0 (some w.disk))) _ f5 in
    let allowed = refuse_report-ok (validate h a st found.0 (some w.disk)) e6 in
    record {
      store = st;
      loaded = or_raise-ok _ e1 ∙ ap some (or_refuse-ok loaded _ e2);
      anchored = refuse_all-ok _ e3;
      digest = found.0;
      capability_id = found.1;
      measured = e5;
      backed = allowed-IsBacked h a st found.0 (some w.disk) allowed;
      ledger = allowed-LedgerAgrees h a st found.0 w.disk allowed;
    }

pub checked-ok :
    (others : World → World) (h : Host) (p : Promotion) (a : Authority) (m : Outcome (Text × Text))
    (w : World) {e : Entry}
    → (promote_checked others h p a m w).0 ≡ ok e
    → (found : Text × Text) × (m ≡ ok found)
unfolding promote_checked
checked-ok others h p a (ok found) w e = (found, refl)
checked-ok others h p a (blocked cs) w e = cc
checked-ok others h p a raised w e = cc

-- An entry is only promoted under an authority that is admitted: whatever other processes do while
-- the entry is written, if promote returns an entry then the store was readable, agreed with its
-- anchor and backed the authority for the digest computed for the artifact, and the ledger on disk
-- agreed.
pub promoted-IsAdmitted :
    (others : World → World) (h : Host) (s : Sealer) (p : Promotion) (a : Authority) (w : World)
    (e : Entry)
    → (promote others h s p (some a) w).0 ≡ ok e
    → IsAdmitted h s w p a
unfolding promote
promoted-IsAdmitted others h s p a w e r =
    checks-IsAdmitted h s w p a (checked-ok others h p a (promote_checks h s w p a) w r).1
