-- ===== src/Registry/Promote.antt =====
-- The checks of promote in pilot/registry.py, in their order.
use agent_capability_forge.Prelude.{
  String, Bool, not, Option, none, some, ◌++◌, ◌==◌, ◌!=◌, if◌then◌else◌, string_eq, option_eq,
}
use agent_capability_forge.Code.{
  missing_adoption_store, canonical_candidate_requires_frozen_root, canonical_identity_missing,
  artifact_identity_mismatch, canonical_identity_mismatch, integrity_store_corrupted,
  unissued_authority,
}
use agent_capability_forge.Records.{Text, Authority, Store}
use agent_capability_forge.Disk.{
  Outcome, ok, blocked, ◌>>=◌, ◌>>◌, refuse_if, refuse_all, or_raise, or_refuse,
}
use agent_capability_forge.Host.{Host, shown, authority_id_for}
use agent_capability_forge.Integrity.{
  hardened_mode, store_integrity_mode, integrity_anchor_violations,
}
use agent_capability_forge.Ledger.{is_empty, load_store, load_authority_record}
use agent_capability_forge.Validation.{empty_text, is_none, Report, validate}
use agent_capability_forge.Frozen.{
  Tree, Core, FrozenRecord, Evaluation, Live, Sealer, Checked, verified, rejected, frozen_checks,
  evaluation_binding_violations, live_candidate_violations,
}
use agent_capability_forge.Registry.Defs.{
  World, Locator, legacy, versioned, dir_digest, canonical_identity,
}

-- The arguments of promote but the authority.
pub record Promotion : Type 0 where
  pub family : String
  pub name : String
  pub candidate : Live
  pub evaluation : Evaluation
  pub frozen_root : Text

unfoldable pub is_canonical : Authority → Bool
is_canonical a = a.artifact_identity == some canonical_identity

-- `adoption_authority.get("candidate_version") or "v1"`
abbrev pub or_v1 : Text → String
or_v1 none = "v1"
or_v1 (some v) = if v == "" then "v1" else v

unfoldable pub locator_of : Authority → Locator
locator_of a = if is_canonical a then versioned (or_v1 a.candidate_version) else legacy

-- The guards on the artifact identity, before any digest is taken.
unfoldable pub identity_guards : Promotion → Authority → Outcome (Unit {0})
identity_guards p a =
    if is_canonical a
    then (do
      refuse_if (is_none p.frozen_root) canonical_candidate_requires_frozen_root
      refuse_if (empty_text a.seal_digest) canonical_identity_missing)
    else (do
      refuse_if (not (is_none p.frozen_root)) artifact_identity_mismatch
      refuse_if (not (is_empty p.candidate.source_bundle_ids))
          canonical_candidate_requires_frozen_root)

abbrev pub checked_record : Checked → Outcome (FrozenRecord × Core)
checked_record (verified r c) = ok (r, c)
checked_record (rejected cs) = blocked cs

-- The frozen path: record, seal, evaluation and live layout, before any write. The digest and the
-- capability identifier are the frozen record's.
unfoldable pub frozen_digest :
    Sealer → World → Promotion → Authority → String → Outcome (Text × Text)
frozen_digest s w p a root = do
  found ← checked_record (frozen_checks s (w.frozen root) (shown a.candidate_id))
  refuse_if (a.seal_digest != found.0.seal_digest) canonical_identity_mismatch
  refuse_all (
      evaluation_binding_violations p.evaluation found.0
      ++ live_candidate_violations s found.0 found.1 p.candidate)
  ok (found.0.artifact_digest, found.0.capability_id)

abbrev pub legacy_digest : Host → Option Tree → Text
legacy_digest h none = none
legacy_digest h (some t) = some (dir_digest h t)

unfoldable pub actual_digest : Host → Sealer → World → Promotion → Authority → Outcome (Text × Text)
actual_digest h s w p a = elim p.frozen_root [
  | none ↦ ok (legacy_digest h p.candidate.artifact, none)
  | some root ↦ frozen_digest s w p a root
]

-- A hardened store wants the ledger directory and an issued record.
unfoldable pub issued_guard : Host → World → Store → Authority → Outcome (Unit {0})
issued_guard h w st a =
    if store_integrity_mode st == hardened_mode
    then (do
      refuse_if (not w.disk.has_ledger) integrity_store_corrupted
      found ← or_raise (
          load_authority_record w.disk
            (authority_id_for h a.candidate_id a.candidate_version a.promotion_decision_id))
      refuse_if (is_none found) unissued_authority)
    else ok tt

-- `if not report["allowed"]: raise AdoptionBlocked(report["violations"])`
abbrev pub refuse_report : Report → Outcome (Unit {0})
refuse_report r = if r.allowed then ok tt else blocked r.violations

-- Everything that promote checks before it looks at the entry.
unfoldable pub promote_checks :
    Host → Sealer → World → Promotion → Authority → Outcome (Text × Text)
promote_checks h s w p a = do
  loaded ← or_raise (load_store w.disk)
  st ← or_refuse loaded missing_adoption_store
  refuse_all (integrity_anchor_violations h st w.disk)
  identity_guards p a
  found ← actual_digest h s w p a
  refuse_report (validate h a st found.0 (some w.disk))
  issued_guard h w st a
  ok found
