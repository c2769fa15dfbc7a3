-- ===== src/Activation/Exclusive.antt =====
-- Promotion against activation, and revocation against activation, of one authority.
use agent_capability_forge.Prelude.{
  String, true, Option, none, some, [], ◌≡◌, ◌≢◌, sym, ap, ◌∙◌, subst,
}
use agent_capability_forge.Records.{Text, Authority, Lifecycle, Store}
use agent_capability_forge.Disk.{ok, Disk}
use agent_capability_forge.Host.{Host}
use agent_capability_forge.Validation.{validate}
use agent_capability_forge.Admission.Sound.{allowed-IsBacked}
use agent_capability_forge.Revoke.Effects.{HasRevocation, IsRevoked}
use agent_capability_forge.Revoke.Blocks.{clear_of, some_injective}
use agent_capability_forge.Frozen.{Sealer}
use agent_capability_forge.Registry.{Entry, World}
use agent_capability_forge.Guard.{
  System, Activation, Verified, violations_for_runtime_activation, adopt,
}
use agent_capability_forge.Activation.Sound.{clean-IsActive, adopt-IsAdopted}

abbrev status_of : Option Lifecycle → Text
status_of none = none
status_of (some l) = l.status

-- One store never lets an authority be both promoted and activated: where the validator allows, the
-- guard reports a violation, whatever the entry, the artifact and the ledger.
pub allowed-not_active :
    (h : Host) (e : Entry) (a : Authority) (s : Store) (x y : Text) (root : Option Disk) (d : Disk)
    → (validate h a s x root).allowed ≡ true
    → violations_for_runtime_activation h e (some a) s y (some d) ≢ []
allowed-not_active h e a s x y root d v k =
    let b = allowed-IsBacked h a s x root v in
    let g = clean-IsActive h e a s y d k in
    cc (b.promotable.status, g.status, ap status_of (sym b.promotable.found ∙ g.lifecycle_found))

-- The guard never activates under a revoked authority: if the event file of an authority reads as
-- revoked, no call of adopt answers ALLOW with that authority, whatever the store says.
pub revoked-not_adopted :
    (h : Host) (y : System) (s : Sealer) (w : World) (q : Activation) (v : Verified) (id : String)
    → IsRevoked id w.disk
    → v.authority_id ≡ some id
    → adopt h y s w q ≢ ok v
revoked-not_adopted h y s w q v id rev named e =
    let i = adopt-IsAdopted h y s w q v e in
    let same =
      some_injective _ _
        (sym named ∙ ap (λ (x : Verified). x.authority_id) i.answer ∙ i.active.named) in
    clear_of i.active.events
      (subst HasRevocation i.active.events_read (subst (λ x. IsRevoked x w.disk) same rev))
      i.active.unrevoked
