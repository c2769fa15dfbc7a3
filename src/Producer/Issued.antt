-- ===== src/Producer/Issued.antt =====
-- What issue_authority of pilot/adoption_authority_producer.py leaves where it answers an authority.
use agent_capability_forge.Prelude.{
  String, Bool, true, false, Option, none, some, List, [], ◌∷◌, ◌++◌, ◌≡◌, refl, ◌∙◌, ap, subst,
  arith, ◌==◌, ◌!=◌, ne-false_iff, string_eq, option_eq, Exists, find, inl, inr, if◌then◌else◌,
  lookup,
}
use agent_capability_forge.Code.{Code, authority_binding_mismatch}
use agent_capability_forge.Records.{Authority, authority_eq, Store}
use agent_capability_forge.Disk.{
  Outcome, ok, blocked, raised, holds, Disk, or_raise, refuse_all, >>=-eq-ok, ok-eq-ok, or_missing,
}
use agent_capability_forge.Host.{Host, authority_id_for}
use agent_capability_forge.Integrity.{mark_store_hardened, write_trust_anchor}
use agent_capability_forge.Integrity.Frame.{SameFiles, write-SameFiles}
use agent_capability_forge.Ledger.{load_store, write_record_among}
use agent_capability_forge.Ledger.WriteOnce.{record_file, Writes, write_once, last_seen}
use agent_capability_forge.Registry.{refuse_report}
use agent_capability_forge.Validation.{validate}
use agent_capability_forge.Admission.Spec.{IsBacked}
use agent_capability_forge.Admission.Sound.{allowed-IsBacked}
use agent_capability_forge.Producer.{
  Proposal, merge_record, merge_store, authority_for, loaded_violations, or_empty, issue_checks,
  list_authority, answer_issued, write_store, issue_recorded, issue_checked, issue,
}

if-ok :
    (b : Bool) (cs : List Code) {u : Unit {0}} → (if b then ok tt else blocked cs) ≡ ok u → b ≡ true
if-ok true cs e = refl
if-ok false cs e = cc

issue_checks-ok :
    (h : Host) (p : Proposal) (d : Disk) (s : Store)
    → issue_checks h p d ≡ ok s
    → (validate h (authority_for h p) s p.artifact_digest (some d)).allowed ≡ true
unfolding issue_checks
issue_checks-ok h p d s e =
    let (loaded, e1, f1) = >>=-eq-ok (or_raise (load_store d)) _ e in
    let (_, e2, f2) = >>=-eq-ok (refuse_all (loaded_violations h d loaded)) _ f1 in
    let (s', e3, f3) = >>=-eq-ok (merge_store p (or_empty loaded)) _ f2 in
    let (_, e4, f4) =
      >>=-eq-ok (refuse_report (validate h (authority_for h p) s' p.artifact_digest (some d))) _
        f3 in
    subst
      (λ (st : Store).
        (validate h (authority_for h p) st p.artifact_digest (some d)).allowed ≡ true)
      (ok-eq-ok f4) (if-ok _ _ e4)

not_refused :
    {A : Type 0} (b : Bool) (c : Code) (old new : A)
    → (if b then blocked (c ∷ []) else ok old) ≡ ok new
    → (b ≡ false) × (old ≡ new)
not_refused true c old new e = cc
not_refused false c old new e = (refl, ok-eq-ok e)

module _ (a : Authority) where
  last-Exists : (xs : List Authority) → Exists (λ (x : Authority). x ≡ a) (xs ++ a ∷ [])
  last-Exists [] = inl refl
  last-Exists (x ∷ xs) = inr (last-Exists xs)

  find-Exists :
      (q : Authority → Bool) (x : Authority) (xs : List Authority)
      → find q xs ≡ some x
      → Exists (λ (y : Authority). y ≡ x) xs
  unfolding find
  find-Exists q x [] e = cc
  find-Exists q x (y ∷ ys) e = ground (arith, find-Exists q x ys)

  -- The list that is written holds the authority.
  listed-Exists :
      (before listed : List Authority)
      → list_authority a before ≡ ok listed
      → Exists (λ (x : Authority). x ≡ a) listed
  unfolding list_authority merge_record
  listed-Exists before listed e =
      by_cases (find (λ (x : Authority). x.authority_id == a.authority_id) before) refl e
    where
      by_cases :
          (o : Option Authority)
          → find (λ (x : Authority). x.authority_id == a.authority_id) before ≡ o
          → elim o [
            | none ↦ ok (before ++ a ∷ [])
            | some old ↦ if old != a then blocked (authority_binding_mismatch ∷ []) else ok before
          ]
            ≡ ok listed
          → Exists (λ (x : Authority). x ≡ a) listed
      by_cases none f g =
          subst (Exists (λ (x : Authority). x ≡ a)) (ok-eq-ok g) (last-Exists before)
      by_cases (some old) f g =
          let (same, written) = not_refused (old != a) authority_binding_mismatch before listed g in
          subst (Exists (λ (x : Authority). x ≡ a)) written (
            subst (λ z. Exists (λ (x : Authority). x ≡ z) before) ((ne-false_iff old a).0 same)
              (find-Exists (λ (x : Authority). x.authority_id == a.authority_id) old before f))

-- What the answer of an authority means, with the store `s` that was validated.
abbrev pub Issues : Host → Proposal → Outcome Authority × Disk → Type 0
Issues h p (ok a, d) =
    (a ≡ authority_for h p)
    × ((s : Store) × IsBacked h a s p.artifact_digest
        × ((listed : List Authority) × Exists (λ (x : Authority). x ≡ a) listed
            × (d.store ≡ holds (mark_store_hardened h (record s { authorities = listed })))))
    × ((id : String) × (a.authority_id ≡ some id) × (record_file id d ≡ holds a))
Issues h p (blocked cs, d) = Unit
Issues h p (raised, d) = Unit

module _ (h : Host) (p : Proposal) (s : Store)
    (backed : IsBacked h (authority_for h p) s p.artifact_digest) where
  abbrev a : Authority
  a = authority_for h p

  abbrev name : String
  name =
      authority_id_for h p.decision.candidate_id p.decision.candidate_version p.decision.decision_id

  answered-Issues :
      (listed : List Authority) (d : Disk) (o : Outcome (Unit {0}) × Disk)
      → Exists (λ (x : Authority). x ≡ a) listed
      → record_file name d ≡ holds a
      → SameFiles
          (record d { store = holds (mark_store_hardened h (record s { authorities = listed })) })
          o.1
      → Issues h p (answer_issued a o)
  unfolding authority_for
  answered-Issues listed d (ok u, e) there there_too same = (
    refl,
    (s, backed, (listed, there, same.store)),
    (name, refl, ap (λ m. or_missing (lookup name m)) same.records ∙ there_too),
  )
  answered-Issues listed d (blocked cs, e) there there_too same = tt
  answered-Issues listed d (raised, e) there there_too same = tt

  write_store-Issues :
      (o : Outcome (List Authority)) (d : Disk)
      → list_authority a s.authorities ≡ o
      → record_file name d ≡ holds a
      → Issues h p (write_store h a s o d)
  unfolding write_store
  write_store-Issues (ok listed) d e there =
      let t = mark_store_hardened h (record s { authorities = listed }) in
      answered-Issues listed d (write_trust_anchor h (some t) false (record d { store = holds t }))
        (listed-Exists a s.authorities listed e) there
        (write-SameFiles h (some t) false (record d { store = holds t }))
  write_store-Issues (blocked cs) d e there = tt
  write_store-Issues raised d e there = tt

  recorded-Issues :
      (b : Disk) (o : Outcome (Unit {0}) × Disk)
      → Writes name a b o
      → Issues h p (issue_recorded h a s o)
  unfolding issue_recorded
  recorded-Issues b (ok u, d) w = write_store-Issues (list_authority a s.authorities) d refl w.0
  recorded-Issues b (blocked cs, d) w = tt
  recorded-Issues b (raised, d) w = tt

-- An authority that issue_authority answers is the one of the proposal. The store that was validated
-- backs it; the store on disk is that one, hardened, with the authority among its authorities; and
-- the authority is in its ledger record on disk, whatever other processes do while it is written.
pub issue-Issues :
    (others : Disk → Disk) (h : Host) (p : Proposal) (d : Disk) → Issues h p (issue others h p d)
unfolding issue issue_checked authority_for
issue-Issues others h p d = by_checks (issue_checks h p d) refl
  where
    by_checks :
        (o : Outcome Store) → issue_checks h p d ≡ o → Issues h p (issue_checked others h p o d)
    by_checks (ok s) e =
        let a = authority_for h p in
        let id =
          authority_id_for h p.decision.candidate_id p.decision.candidate_version
            p.decision.decision_id in
        recorded-Issues h p s
          (allowed-IsBacked h a s p.artifact_digest (some d) (issue_checks-ok h p d s e))
          (last_seen others (record_file id d) d) (write_record_among others (some id) a d)
          (write_once others id a d)
    by_checks (blocked cs) e = tt
    by_checks raised e = tt
