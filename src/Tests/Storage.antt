-- ===== src/Tests/Storage.antt =====
-- The theorems on the anchor, the ledger and revocations at the fixtures.
use agent_capability_forge.Prelude.{none, some, [], ◌≡◌, ◌↔◌, refl, false}
use agent_capability_forge.Integrity.{
  integrity_anchor_violations, anchor_violations, write_trust_anchor, seal_trust_anchor,
}
use agent_capability_forge.Integrity.Accepts.{AnchorAgrees, integrity_accepts}
use agent_capability_forge.Integrity.Sealing.{Anchors, Seals, seal-Seals, refresh_keeps_seal}
use agent_capability_forge.Ledger.{write_record_among}
use agent_capability_forge.Ledger.WriteOnce.{Writes, record_file, last_seen, write_once}
use agent_capability_forge.Revoke.{revoke_authority}
use agent_capability_forge.Revoke.Effects.{Revokes, revoke-Revokes}
use agent_capability_forge.Revoke.Anchor.{Keeps, revoke-Keeps}
use agent_capability_forge.Activation.Marked.{Promotes, mark-Promotes}
use agent_capability_forge.Guard.{mark_promoted}
use agent_capability_forge.Tests.Fixtures.{
  host, authority, authority_name, candidate_id, store, hardened, disk, request,
}
use agent_capability_forge.Tests.Agents.{entry, promoted_store}

-- The store is not sealed and there is no anchor.
unsealed : integrity_anchor_violations host store disk ≡ []
unfolding integrity_anchor_violations anchor_violations
unsealed = refl

integrity_accepts_example :
    (integrity_anchor_violations host store disk ≡ [])
    ↔ ((host.anchor_inside ≡ false) × AnchorAgrees host store disk disk.anchor)
integrity_accepts_example = integrity_accepts host store disk

seal-Seals_example : Seals host disk (seal_trust_anchor host none disk)
seal-Seals_example = seal-Seals host none disk

refresh_keeps_seal_example :
    Anchors host promoted_store disk (write_trust_anchor host (some promoted_store) false disk)
refresh_keeps_seal_example =
    refresh_keeps_seal host store promoted_store disk disk unsealed refl
      (record { integrity_mode = refl; sealed = refl; schema_version = refl })

write_once_example :
    Writes authority_name authority
      (last_seen (λ d. d) (record_file authority_name disk) disk)
      (write_record_among (λ d. d) (some authority_name) authority disk)
write_once_example = write_once (λ d. d) authority_name authority disk

revoke-Revokes_example : Revokes request disk (revoke_authority host request disk)
revoke-Revokes_example = revoke-Revokes host request disk

revoke-Keeps_example : Keeps host hardened (revoke_authority host request disk)
revoke-Keeps_example = revoke-Keeps host request store disk refl

mark-Promotes_example : Promotes host candidate_id (mark_promoted host entry disk)
mark-Promotes_example = mark-Promotes host entry disk
