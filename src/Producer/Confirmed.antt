-- ===== src/Producer/Confirmed.antt =====
-- What issue_authority of pilot/adoption_authority_producer.py has been given where it answers an
-- authority.
use agent_capability_forge.Prelude.{
  String, Bool, true, false, not, ◌&&◌, Option, none, some, [], ◌∷◌, ◌≡◌, refl, sym, ◌∙◌, ap, subst,
  ◌!=◌, ne-false_iff, string_eq, option_eq, ◌⊎◌, inl, inr, if◌then◌else◌,
}
use agent_capability_forge.Code.{
  human_confirm_missing, evaluation_missing, untrusted_issuer, evaluation_not_pass,
}
use agent_capability_forge.Records.{Text, Authority}
use agent_capability_forge.Disk.{
  Outcome, ok, blocked, raised, Disk, refuse_if, or_refuse, >>=-eq-ok, ok-eq-ok, refuse_if-ok,
  or_refuse-ok,
}
use agent_capability_forge.Host.{Host}
use agent_capability_forge.Ledger.{issuer_allowed}
use agent_capability_forge.Validation.{empty_text}
use agent_capability_forge.Frozen.{Sealer, FrozenStore, Evaluation}
use agent_capability_forge.Producer.{Proposal, authority_for, issue}
use agent_capability_forge.Producer.Issued.{Issues, issue-Issues}
use agent_capability_forge.Producer.Prepare.{
  Confirm, Issuance, Writer, confirmation, issuer_of, is_given, issue_guards, issue_content,
  proposal_of, prepare, issue_prepared, issue_authority,
}

-- The operator has confirmed, and the evaluation passed unless a decision was given.
abbrev pub IsConfirmed : Host → Issuance → Text → Type 0
IsConfirmed h q issuer_id =
    ((c : Confirm) × (q.confirm ≡ some c) × (c.confirmed ≡ true))
    × ((e : Evaluation) × (q.evaluation ≡ some e)
        × ((is_given q.decision ≡ true) ⊎ (e.verdict ≡ some "PASS")))
    × (issuer_allowed h issuer_id ≡ true)

confirmation-ok :
    (o : Option Confirm) (c : Confirm) → confirmation o ≡ ok c → (o ≡ some c) × (c.confirmed ≡ true)
unfolding confirmation
confirmation-ok none c e = cc
confirmation-ok (some x) c e =
    let (t, same) = chosen x.confirmed x e in
    (ap some same, ap (λ (z : Confirm). z.confirmed) (sym same) ∙ t)
  where
    chosen :
        (b : Bool) (x : Confirm)
        → (if b then ok x else blocked (human_confirm_missing ∷ [])) ≡ ok c
        → (b ≡ true) × (x ≡ c)
    chosen true x e = (refl, cc)
    chosen false x e = cc

passed :
    (b : Bool) (v : Text) → (not b && v != some "PASS") ≡ false → (b ≡ true) ⊎ (v ≡ some "PASS")
passed true v e = inl refl
passed false v e = inr ((ne-false_iff v (some "PASS")).0 e)

guards-IsConfirmed :
    (h : Host) (q : Issuance) (e : Evaluation) (issuer_id : Text)
    → issue_guards h q ≡ ok (e, issuer_id)
    → IsConfirmed h q issuer_id
unfolding issue_guards
guards-IsConfirmed h q e issuer_id eq =
    let (c, e1, f1) = >>=-eq-ok (confirmation q.confirm) _ eq in
    let (v, e2, f2) = >>=-eq-ok (or_refuse q.evaluation evaluation_missing) _ f1 in
    let (_, e3, f3) = >>=-eq-ok (refuse_if (empty_text v.evaluation_id) evaluation_missing) _ f2 in
    let (_, e4, f4) =
      >>=-eq-ok (refuse_if (not (issuer_allowed h (issuer_of q c))) untrusted_issuer) _ f3 in
    let (_, e5, f5) =
      >>=-eq-ok
        (refuse_if (not (is_given q.decision) && v.verdict != some "PASS") evaluation_not_pass) _
        f4 in
    (
      (c, (confirmation-ok q.confirm c e1).0, (confirmation-ok q.confirm c e1).1),
      (
        v,
        or_refuse-ok q.evaluation evaluation_missing e2,
        passed (is_given q.decision) v.verdict (refuse_if-ok _ evaluation_not_pass e5),
      ),
      subst (λ i. issuer_allowed h i ≡ true) (ap (λ (p : Evaluation × Text). p.1) (ok-eq-ok f5))
          (allowed (issuer_allowed h (issuer_of q c)) (refuse_if-ok _ untrusted_issuer e4)),
    )
  where
    allowed : (b : Bool) → not b ≡ false → b ≡ true
    allowed true e = refl
    allowed false e = cc

prepare-IsConfirmed :
    (h : Host) (s : Sealer) (w : Writer) (frozen : String → FrozenStore) (q : Issuance)
    (p : Proposal)
    → prepare h s w frozen q ≡ ok p
    → IsConfirmed h q p.issuer_id
unfolding prepare proposal_of
prepare-IsConfirmed h s w frozen q p e =
    let (g, e1, f1) = >>=-eq-ok (issue_guards h q) _ e in
    let (c, e2, f2) = >>=-eq-ok (issue_content h s w frozen q g.0) _ f1 in
    subst (λ (p : Proposal). IsConfirmed h q p.issuer_id) (ok-eq-ok f2)
      (guards-IsConfirmed h q g.0 g.1 e1)

-- What an answer rests on.
abbrev pub Authorises : Host → Issuance → Outcome Authority × Disk → Type 0
Authorises h q (ok a, d) = IsConfirmed h q a.issuer_id × ((p : Proposal) × Issues h p (ok a, d))
Authorises h q (blocked cs, d) = Unit
Authorises h q (raised, d) = Unit

from_proposal :
    (h : Host) (q : Issuance) (p : Proposal) (o : Outcome Authority × Disk)
    → IsConfirmed h q p.issuer_id
    → Issues h p o
    → Authorises h q o
unfolding authority_for
from_proposal h q p (ok a, d) c i = (
  subst (λ (x : Authority). IsConfirmed h q x.issuer_id) {x = authority_for h p} (sym i.0) c,
  (p, i),
)
from_proposal h q p (blocked cs, d) c i = tt
from_proposal h q p (raised, d) c i = tt

-- Where issue_authority answers an authority, the operator has confirmed, the evaluation is there
-- and says PASS unless a decision was given, and the authority's issuer is allowed; the store that
-- was validated backs the authority, and the authority is on disk, in the store and in its ledger
-- record, whatever other processes do while the record is written.
pub issue_authority-Authorises :
    (others : Disk → Disk) (h : Host) (s : Sealer) (w : Writer) (frozen : String → FrozenStore)
    (q : Issuance) (d : Disk)
    → Authorises h q (issue_authority others h s w frozen q d)
unfolding issue_authority issue_prepared
issue_authority-Authorises others h s w frozen q d = by_proposal (prepare h s w frozen q) refl
  where
    by_proposal :
        (o : Outcome Proposal)
        → prepare h s w frozen q ≡ o
        → Authorises h q (issue_prepared others h o d)
    by_proposal (ok p) e =
        from_proposal h q p (issue others h p d) (prepare-IsConfirmed h s w frozen q p e)
          (issue-Issues others h p d)
    by_proposal (blocked cs) e = tt
    by_proposal raised e = tt
