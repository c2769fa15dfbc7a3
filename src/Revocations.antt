-- ===== src/Revocations.antt =====
-- Reading the store's copies of revocations: pilot/adoption_authority.py,
-- normalize_revocation_record and revocation_violations.
use agent_capability_forge.Prelude.{
  Bool, false, ◌&&◌, Option, none, some, List, [], ◌∷◌, ◌++◌, ◌==◌, ◌!=◌, if◌then◌else◌, string_eq,
  option_eq,
}
use agent_capability_forge.Code.{
  Code, invalid_revocation_record, revocation_record_conflict, revoked_decision,
}
use agent_capability_forge.Records.{Text, Revocation, Store}

-- The decision that a record revokes, or the code of a record that cannot be read.
pub data Normalized : Type 0 where
  canonical : Text → Normalized
  refused : Code → Normalized

unfoldable pub normalize_ids : Text → Text → Normalized
normalize_ids none none = refused invalid_revocation_record
normalize_ids none (some p) = canonical (some p)
normalize_ids (some d) none = canonical (some d)
normalize_ids (some d) (some p) =
    if d != p then refused revocation_record_conflict else canonical (some d)

unfoldable pub normalize_revocation_record : Option Revocation → Normalized
normalize_revocation_record none = refused invalid_revocation_record
normalize_revocation_record (some r) = normalize_ids r.decision_id r.promotion_decision_id

-- The candidate and version that a record names; an element that is no dict was refused before.
abbrev pub names_candidate : Option Revocation → Text → Text → Bool
names_candidate none id version = false
names_candidate (some r) id version = r.candidate_id == id && r.candidate_version == version

-- One record's violation, if it has one.
unfoldable pub record_violation : Normalized → Bool → Text → List Code
record_violation (refused code) matching decision_id = code ∷ []
record_violation (canonical c) matching decision_id =
    if matching && c == decision_id then revoked_decision ∷ [] else []

unfoldable pub revocation_list_violations :
    List (Option Revocation) → Text → Text → Text → List Code
revocation_list_violations [] id version decision_id = []
revocation_list_violations (r ∷ rs) id version decision_id =
    record_violation (normalize_revocation_record r) (names_candidate r id version) decision_id
    ++ revocation_list_violations rs id version decision_id

unfoldable pub revocation_violations : Store → Text → Text → Text → List Code
revocation_violations s id version decision_id =
    revocation_list_violations s.revocations id version decision_id
