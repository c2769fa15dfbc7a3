-- ===== src/Promotion/Again.antt =====
-- Repeating a promotion.
use agent_capability_forge.Prelude.{
  true, some, [], ◌∷◌, ◌≡◌, refl, ap, ◌∙◌, subst, Map, if◌then◌else◌,
}
use agent_capability_forge.Code.{entry_binding_conflict}
use agent_capability_forge.Records.{Text, Authority}
use agent_capability_forge.Disk.{Doc, holds, Outcome, ok, blocked}
use agent_capability_forge.Host.{Host}
use agent_capability_forge.Frozen.{Tree, Sealer}
use agent_capability_forge.Registry.{
  Entry, Agent, World, agent_key, entry_at, same_binding, Promotion, locator_of, actual_digest,
  frozen_digest, issued_guard, promote_checks, existing_entry, on_entry, promote_checked, promote,
}
use agent_capability_forge.Promotion.Checks.{checked-ok}
use agent_capability_forge.Promotion.Written.{Publishes, promote-Publishes}

-- A world with other agents and artifacts, and the same store, ledger and frozen stores.
abbrev pub with_agents : World → Map Agent → Map Tree → World
with_agents w agents artifacts = record w { agents = agents; artifacts = artifacts }

-- The checks read no entry and no copied artifact.
checks-with_agents :
    (h : Host) (s : Sealer) (w : World) (p : Promotion) (a : Authority) (agents : Map Agent)
    (artifacts : Map Tree)
    → promote_checks h s (with_agents w agents artifacts) p a ≡ promote_checks h s w p a
unfolding promote_checks actual_digest frozen_digest issued_guard
checks-with_agents h s w p a agents artifacts = refl

existing-same :
    (a : Authority) (e : Entry) (f : Doc Entry)
    → f ≡ holds e
    → same_binding e a ≡ true
    → existing_entry a f ≡ ok (some e)
unfolding existing_entry
existing-same a e f there same =
    ap (existing_entry a) there
    ∙ ap (λ b. if b then ok (some e) else blocked (entry_binding_conflict ∷ [])) same

again :
    (others : World → World) (h : Host) (p : Promotion) (a : Authority) (w : World) (e : Entry)
    (found : Text × Text)
    → Publishes a (agent_key p.family p.name) (ok e, w)
    → promote_checked others h p a (ok found) w ≡ (ok e, w)
unfolding promote_checked on_entry
again others h p a w e found there =
    let key = agent_key p.family p.name in
    ap (λ m. on_entry others h p a key found.1 m w)
      (existing-same a e (entry_at w key (locator_of a)) there.0 there.1)

-- A promotion can be repeated: if promote returned an entry, and the store, the ledger and the frozen
-- stores are still what they were when it was called, then the same call returns the same entry and
-- changes nothing, whatever other processes do meanwhile.
pub promote_again :
    (others others' : World → World) (h : Host) (s : Sealer) (p : Promotion) (a : Authority)
    (w : World) (e : Entry) (agents : Map Agent) (artifacts : Map Tree)
    → promote others h s p (some a) w ≡ (ok e, with_agents w agents artifacts)
    → promote others' h s p (some a) (with_agents w agents artifacts)
      ≡ (ok e, with_agents w agents artifacts)
unfolding promote
promote_again others others' h s p a w e agents artifacts r =
    let w' = with_agents w agents artifacts in
    let (found, c) =
      checked-ok others h p a (promote_checks h s w p a) w
        (ap (λ (x : Outcome Entry × World). x.0) r) in
    let there =
      subst (Publishes a (agent_key p.family p.name)) r (promote-Publishes others h s p a w) in
    ap (λ m. promote_checked others' h p a m w') (checks-with_agents h s w p a agents artifacts ∙ c)
    ∙ again others' h p a w' e found there
