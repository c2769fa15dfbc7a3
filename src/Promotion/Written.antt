-- ===== src/Promotion/Written.antt =====
-- What promote leaves on disk.
use agent_capability_forge.Prelude.{
  String, Bool, true, false, ◌&&◌, Option, none, some, [], ◌∷◌, ◌≡◌, ◌≢◌, refl, ap, ◌∙◌,
  if◌then◌else◌, if_cases, lookup, lookup-insert_self, arith, beq_refl, string_eq, option_eq, conj,
  true-conj, Bool-cases, inl, inr,
}
use agent_capability_forge.Code.{entry_binding_conflict}
use agent_capability_forge.Records.{Text, Authority, provenance_eq}
use agent_capability_forge.Disk.{
  Doc, missing, unreadable, holds, Outcome, ok, blocked, raised, or_missing,
}
use agent_capability_forge.Host.{Host}
use agent_capability_forge.Validation.{empty_text}
use agent_capability_forge.Frozen.{Tree, Manifest, Sealer}
use agent_capability_forge.Registry.{
  Entry, World, Locator, legacy, versioned, agent_key, agent_at, or_no_agent, put_in_agent,
  entry_at, put_entry, same_binding, binding_tests, adoption_of, Promotion, locator_of,
  promote_checks, entry_of, artifact_dst, copy_artifact, existing_entry, link_entry, write_entry,
  create_entry, on_entry, capability_for, is_canonical, promote_checked, promote,
}

entry_at-put_entry :
    (w : World) (key : String) (at : Locator) (e : Doc Entry)
    → entry_at (put_entry w key at e) key at ≡ e
unfolding entry_at put_entry
entry_at-put_entry w key legacy e =
    ap (λ o. (or_no_agent o).legacy)
      (lookup-insert_self key (put_in_agent (agent_at w key) legacy e) w.agents)
entry_at-put_entry w key (versioned v) e =
    ap (λ o. or_missing (lookup v (or_no_agent o).versions))
      (lookup-insert_self key (put_in_agent (agent_at w key) (versioned v) e) w.agents)
    ∙ ap or_missing (lookup-insert_self v e (agent_at w key).versions)

adoption-binds : (a : Authority) → conj (binding_tests (adoption_of a) a) ≡ true
adoption-binds a = true-conj (binding_tests (adoption_of a) a) (
  beq_refl a.candidate_id,
  (
    beq_refl a.candidate_version,
    (
      beq_refl a.promotion_decision_id,
      (
        beq_refl a.evaluation_run_id,
        (beq_refl a.policy_version, (beq_refl a.artifact_digest, (beq_refl a.provenance, tt))),
      ),
    ),
  ),
)

new-same_binding :
    (p : Promotion) (a : Authority) (key : String) (m : Manifest) (cid : Text)
    → same_binding (entry_of p a key m cid) a ≡ true
unfolding same_binding entry_of
new-same_binding p a key m cid = adoption-binds a

-- What a call of promote answers is the entry that is on disk under the authority's key, promoted
-- and bound to the authority.
abbrev pub Publishes : Authority → String → Outcome Entry × World → Type 0
Publishes a key (ok e, w) = (entry_at w key (locator_of a) ≡ holds e) × (same_binding e a ≡ true)
Publishes a key (blocked cs, w) = Unit
Publishes a key (raised, w) = Unit

existing-ok :
    (a : Authority) (f : Doc Entry) (e : Entry)
    → existing_entry a f ≡ ok (some e)
    → (f ≡ holds e) × (same_binding e a ≡ true)
unfolding existing_entry
existing-ok a missing e h = cc
existing-ok a unreadable e h = cc
existing-ok a (holds x) e h = elim (Bool-cases (same_binding x a)) [
  | inl same ↦ ground (arith, same, h)
  | inr other ↦ ground (arith, other, h)
]

module _ (a : Authority) (key : String) where
  link-Publishes :
      (n : Entry) (m : Outcome (Option Entry)) (w : World)
      → same_binding n a ≡ true
      → existing_entry a (entry_at w key (locator_of a)) ≡ m
      → Publishes a key (link_entry a key n m w)
  unfolding link_entry
  link-Publishes n (ok none) w new r = (entry_at-put_entry w key (locator_of a) (holds n), new)
  link-Publishes n (ok (some x)) w new r = existing-ok a _ x r
  link-Publishes n (blocked cs) w new r = tt
  link-Publishes n raised w new r = tt

  write-Publishes :
      (others : World → World) (e : Entry) (o : Option Tree) (w : World)
      → same_binding e a ≡ true
      → Publishes a key (write_entry others a key e o w)
  unfolding write_entry
  write-Publishes others e none w new = tt
  write-Publishes others e (some t) w new =
      link-Publishes e _ (others (copy_artifact (artifact_dst key (locator_of a)) t w)) new refl

  create-Publishes :
      (others : World → World) (h : Host) (p : Promotion) (frozen_id : Text) (o : Option Manifest)
      (w : World)
      → Publishes a key (create_entry others h p a key frozen_id o w)
  unfolding create_entry
  create-Publishes others h p frozen_id none w = tt
  create-Publishes others h p frozen_id (some m) w =
      if_cases (Publishes a key)
        (is_canonical a && empty_text (capability_for h a (agent_at w key) frozen_id)) (λ _. tt)
        (λ _.
          let cid = capability_for h a (agent_at w key) frozen_id in
          write-Publishes others (entry_of p a key m cid) p.candidate.artifact w
            (new-same_binding p a key m cid))

  entry-Publishes :
      (others : World → World) (h : Host) (p : Promotion) (frozen_id : Text)
      (m : Outcome (Option Entry)) (w : World)
      → existing_entry a (entry_at w key (locator_of a)) ≡ m
      → Publishes a key (on_entry others h p a key frozen_id m w)
  unfolding on_entry
  entry-Publishes others h p frozen_id (ok none) w r =
      create-Publishes others h p frozen_id p.candidate.manifest w
  entry-Publishes others h p frozen_id (ok (some x)) w r = existing-ok a _ x r
  entry-Publishes others h p frozen_id (blocked cs) w r = tt
  entry-Publishes others h p frozen_id raised w r = tt

checked-Publishes :
    (others : World → World) (h : Host) (p : Promotion) (a : Authority) (m : Outcome (Text × Text))
    (w : World)
    → Publishes a (agent_key p.family p.name) (promote_checked others h p a m w)
unfolding promote_checked
checked-Publishes others h p a (ok found) w =
    entry-Publishes a (agent_key p.family p.name) others h p found.1 _ w refl
checked-Publishes others h p a (blocked cs) w = tt
checked-Publishes others h p a raised w = tt

-- Whatever other processes do between the look at the entry and its creation: an entry that promote
-- returns is the one that is on disk afterwards, its state is promoted and its adoption block is
-- the authority's.
pub promote-Publishes :
    (others : World → World) (h : Host) (s : Sealer) (p : Promotion) (a : Authority) (w : World)
    → Publishes a (agent_key p.family p.name) (promote others h s p (some a) w)
unfolding promote
promote-Publishes others h s p a w = checked-Publishes others h p a (promote_checks h s w p a) w

existing-ne-none : (a : Authority) (f : Doc Entry) → f ≢ missing → existing_entry a f ≢ ok none
unfolding existing_entry
existing-ne-none a missing ne e = ne refl
existing-ne-none a unreadable ne e = cc
existing-ne-none a (holds x) ne e = holds_case (same_binding x a) e
  where
    holds_case :
        (b : Bool)
        → ◌≢◌ {A = Outcome (Option Entry)}
            (if b then ok (some x) else blocked (entry_binding_conflict ∷ []))
            (ok none)
    holds_case true k = cc
    holds_case false k = cc

there-unchanged :
    (others : World → World) (h : Host) (p : Promotion) (a : Authority) (key : String)
    (frozen_id : Text) (m : Outcome (Option Entry)) (w : World)
    → m ≢ ok none
    → (on_entry others h p a key frozen_id m w).1 ≡ w
unfolding on_entry
there-unchanged others h p a key frozen_id (ok none) w ne = absurd (ne refl)
there-unchanged others h p a key frozen_id (ok (some x)) w ne = refl
there-unchanged others h p a key frozen_id (blocked cs) w ne = refl
there-unchanged others h p a key frozen_id raised w ne = refl

checked-unchanged :
    (others : World → World) (h : Host) (p : Promotion) (a : Authority) (m : Outcome (Text × Text))
    (w : World)
    → entry_at w (agent_key p.family p.name) (locator_of a) ≢ missing
    → (promote_checked others h p a m w).1 ≡ w
unfolding promote_checked
checked-unchanged others h p a (ok found) w there =
    let key = agent_key p.family p.name in
    there-unchanged others h p a key found.1 (existing_entry a (entry_at w key (locator_of a))) w
      (existing-ne-none a (entry_at w key (locator_of a)) there)
checked-unchanged others h p a (blocked cs) w there = refl
checked-unchanged others h p a raised w there = refl

-- promote never changes anything where an entry is there already, readable or not: not the entry,
-- not the artifacts, not the store.
pub promote-keeps_entry :
    (others : World → World) (h : Host) (s : Sealer) (p : Promotion) (a : Authority) (w : World)
    → entry_at w (agent_key p.family p.name) (locator_of a) ≢ missing
    → (promote others h s p (some a) w).1 ≡ w
unfolding promote
promote-keeps_entry others h s p a w there =
    checked-unchanged others h p a (promote_checks h s w p a) w there
