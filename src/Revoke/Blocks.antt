-- ===== src/Revoke/Blocks.antt =====
-- A revoked authority before the validator.
use agent_capability_forge.Prelude.{
  String, true, false, Option, some, List, [], ◌∷◌, ◌≡◌, inl, inr, sym, ◌∙◌, subst, Bool-cases, All,
  Exists,
}
use agent_capability_forge.Records.{Text, Authority, Revocation, Store}
use agent_capability_forge.Disk.{Disk}
use agent_capability_forge.Host.{Host}
use agent_capability_forge.Validation.{revocable, validate}
use agent_capability_forge.Admission.Sound.{allowed-IsBacked, allowed-LedgerAgrees}
use agent_capability_forge.Revoke.Effects.{HasRevocation, IsRevoked}

pub clear_of :
    (es : List Revocation)
    → Exists (λ (e : Revocation). revocable e.status ≡ true) es
    → All (λ (e : Revocation). revocable e.status ≡ false) es
    → ⊥
clear_of [] h a = h
clear_of (e ∷ es) (inl h) a = cc (h, a.0)
clear_of (e ∷ es) (inr h) a = clear_of es h a.1

no_revocation :
    (o : Option (List Revocation)) (es : List Revocation)
    → o ≡ some es
    → HasRevocation o
    → Exists (λ (e : Revocation). revocable e.status ≡ true) es
no_revocation o es e h = subst HasRevocation e h

pub some_injective : (x y : String) → ◌≡◌ {A = Text} (some x) (some y) → x ≡ y
some_injective x y e = cc

-- An authority whose event file reads as revoked is never allowed, whatever the store says and
-- whatever the artifact.
pub revoked-refused :
    (h : Host) (a : Authority) (s : Store) (actual : Text) (d : Disk) (id : String)
    → a.authority_id ≡ some id
    → IsRevoked id d
    → (validate h a s actual (some d)).allowed ≡ false
revoked-refused h a s actual d id i rev =
    elim (Bool-cases (validate h a s actual (some d)).allowed) [
      | inr no_ ↦ no_
      | inl yes_ ↦
          let b = allowed-IsBacked h a s actual (some d) yes_ in
          let l = allowed-LedgerAgrees h a s actual d yes_ in
          let same = some_injective _ _ (sym i ∙ b.complete.authority_id) in
          absurd (
            clear_of l.events
              (no_revocation _ l.events l.events_read (subst (λ x. IsRevoked x d) same rev))
              l.unrevoked)
    ]
