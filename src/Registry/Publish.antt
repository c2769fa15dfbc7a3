-- ===== src/Registry/Publish.antt =====
-- The entry that promote of pilot/registry.py writes, and the readers of entries: promote,
-- discover and discover_version.
use Prim.Native.Nat.{◌*◌, ◌-◌}
use Prim.Native.String.{◌++◌ as text_append, compare}
use Prim.Native.Char.{code}
use text.Mathlib.Text.{is_lt}
use agent_capability_forge.Prelude.{
  ℕ, ◌+◌, String, not, ◌&&◌, Option, none, some, [], ◌∷◌, ◌==◌, ◌!=◌, if◌then◌else◌, string_eq,
  option_eq, Map, lookup, insert, nat_beq, leb,
}
use agent_capability_forge.Code.{
  missing_authority, canonical_identity_missing, entry_binding_conflict,
}
use agent_capability_forge.Records.{Text, Authority}
use agent_capability_forge.Disk.{Doc, missing, unreadable, holds, Outcome, ok, blocked, raised}
use agent_capability_forge.Host.{Host}
use agent_capability_forge.Validation.{empty_text}
use agent_capability_forge.Frozen.{Tree, Manifest, Sealer, present}
use agent_capability_forge.Registry.Defs.{
  Adoption, Entry, Agent, World, agent_key, agent_at, Locator, legacy, versioned, entry_at,
  put_entry, same_binding,
}
use agent_capability_forge.Registry.Promote.{Promotion, is_canonical, locator_of, promote_checks}

-- `int(text)` where every character is a digit; `none` where one is not, or there is none.
unfoldable pub digits : ℕ → String → Option ℕ
digits n String.[] = some n
digits n (String.◌∷◌ c rest) =
    if leb 48 (code c) && leb (code c) 57 then digits (n * 10 + (code c - 48)) rest else none

-- `int(v[1:]) if v.startswith("v") and v[1:].isdigit() else 1`, over ASCII digits
unfoldable pub version_number : String → ℕ
version_number String.[] = 1
version_number (String.◌∷◌ c rest) =
    if nat_beq (code c) 118 && not (rest == "")
    then elim (digits 0 rest) [ none ↦ 1 | some n ↦ n ]
    else 1

-- `sorted(versions_dir.glob("*.json"))`: the file names are compared, with their suffix.
abbrev pub file_of : String → String
file_of v = text_append v ".json"

unfoldable pub insert_sorted : String × Doc Entry → Map (Doc Entry) → Map (Doc Entry)
insert_sorted f [] = f ∷ []
insert_sorted f (g ∷ fs) =
    if is_lt (compare (file_of g.0) (file_of f.0)) then g ∷ insert_sorted f fs else f ∷ g ∷ fs

unfoldable pub sort_files : Map (Doc Entry) → Map (Doc Entry)
sort_files [] = []
sort_files (f ∷ fs) = insert_sorted f (sort_files fs)

-- `x or y`
abbrev pub or_else : Text → Text → Text
or_else x y = if empty_text x then y else x

-- The capability identifier of the first version that has one.
unfoldable pub first_capability : Text → Map (Doc Entry) → Text
first_capability default [] = default
first_capability default ((v, missing) ∷ fs) = first_capability default fs
first_capability default ((v, unreadable) ∷ fs) = first_capability default fs
first_capability default ((v, holds e) ∷ fs) =
    let rest = first_capability default fs in
    if empty_text e.capability_id then rest else e.capability_id

-- An agent that has a legacy entry keeps its identifier.
abbrev pub anchored_capability : Doc Entry → Text → Text
anchored_capability missing cid = cid
anchored_capability unreadable cid = cid
anchored_capability (holds e) cid = or_else e.capability_id cid

unfoldable pub capability_for : Host → Authority → Agent → Text → Text
capability_for h a agent frozen_id =
    if is_canonical a
    then anchored_capability agent.legacy (first_capability frozen_id (sort_files agent.versions))
    else some (text_append "cap-" h.fresh)

abbrev pub artifact_dst : String → Locator → String
artifact_dst key legacy = text_append key "/artifact"
artifact_dst key (versioned v) =
    text_append key (text_append "/versions/" (text_append v "/artifact"))

abbrev pub number_for : Locator → ℕ
number_for legacy = 1
number_for (versioned v) = version_number v

abbrev pub adoption_of : Authority → Adoption
adoption_of a = record {
  candidate_id = a.candidate_id;
  candidate_version = a.candidate_version;
  promotion_decision_id = a.promotion_decision_id;
  evaluation_run_id = a.evaluation_run_id;
  policy_version = a.policy_version;
  artifact_digest = a.artifact_digest;
  provenance = a.provenance;
}

unfoldable pub entry_of : Promotion → Authority → String → Manifest → Text → Entry
entry_of p a key manifest capability_id = record {
  capability_id = capability_id;
  name = some p.name;
  version = number_for (locator_of a);
  family = p.family;
  artifact_dir = artifact_dst key (locator_of a);
  artifact_identity = a.artifact_identity;
  frozen_root = if empty_text a.artifact_identity then none else p.frozen_root;
  manifest = some manifest;
  evaluation = p.evaluation;
  state = some "promoted";
  adoption = some (adoption_of a);
}

-- shutil.copytree, which leaves a directory that is there as it is.
unfoldable pub copy_artifact : String → Tree → World → World
copy_artifact dst t w =
    if present (lookup dst w.artifacts)
    then w
    else record w { artifacts = insert dst t w.artifacts }

-- An entry that is there: the same adoption is returned, another is a conflict.
unfoldable pub existing_entry : Authority → Doc Entry → Outcome (Option Entry)
existing_entry a missing = ok none
existing_entry a unreadable = raised
existing_entry a (holds e) =
    if same_binding e a then ok (some e) else blocked (entry_binding_conflict ∷ [])

-- os.link(tmp, entry_path): creates the entry if it is absent.
unfoldable pub link_entry :
    Authority → String → Entry → Outcome (Option Entry) → World → Outcome Entry × World
link_entry a key e (ok none) w = (ok e, put_entry w key (locator_of a) (holds e))
link_entry a key e (ok (some existing)) w = (ok existing, w)
link_entry a key e (blocked cs) w = (blocked cs, w)
link_entry a key e raised w = (raised, w)

-- The copy of the artifact and the exclusive creation of the entry, between which other processes
-- may act. A candidate without an artifact directory ends in the exception of the copy.
unfoldable pub write_entry :
    (World → World) → Authority → String → Entry → Option Tree → World → Outcome Entry × World
write_entry others a key e none w = (raised, w)
write_entry others a key e (some t) w =
    let w' = others (copy_artifact (artifact_dst key (locator_of a)) t w) in
    link_entry a key e (existing_entry a (entry_at w' key (locator_of a))) w'

-- Behind the checks and the first look at the entry: the manifest and the capability identifier.
unfoldable pub create_entry :
    (World → World)
    → Host
    → Promotion
    → Authority
    → String
    → Text
    → Option Manifest
    → World
    → Outcome Entry × World
create_entry others h p a key frozen_id none w = (raised, w)
create_entry others h p a key frozen_id (some manifest) w =
    let cid = capability_for h a (agent_at w key) frozen_id in
    if is_canonical a && empty_text cid
    then (blocked (canonical_identity_missing ∷ []), w)
    else write_entry others a key (entry_of p a key manifest cid) p.candidate.artifact w

unfoldable pub on_entry :
    (World → World)
    → Host
    → Promotion
    → Authority
    → String
    → Text
    → Outcome (Option Entry)
    → World
    → Outcome Entry × World
on_entry others h p a key frozen_id (ok none) w =
    create_entry others h p a key frozen_id p.candidate.manifest w
on_entry others h p a key frozen_id (ok (some existing)) w = (ok existing, w)
on_entry others h p a key frozen_id (blocked cs) w = (blocked cs, w)
on_entry others h p a key frozen_id raised w = (raised, w)

unfoldable pub promote_checked :
    (World → World)
    → Host
    → Promotion
    → Authority
    → Outcome (Text × Text)
    → World
    → Outcome Entry × World
promote_checked others h p a (ok found) w =
    let key = agent_key p.family p.name in
    on_entry others h p a key found.1 (existing_entry a (entry_at w key (locator_of a))) w
promote_checked others h p a (blocked cs) w = (blocked cs, w)
promote_checked others h p a raised w = (raised, w)

unfoldable pub promote :
    (World → World) → Host → Sealer → Promotion → Option Authority → World → Outcome Entry × World
promote others h s p none w = (blocked (missing_authority ∷ []), w)
promote others h s p (some a) w = promote_checked others h p a (promote_checks h s w p a) w

abbrev pub when_promoted : Doc Entry → Option (Option Entry)
when_promoted missing = some none
when_promoted unreadable = none
when_promoted (holds e) = if e.state != some "promoted" then some none else some (some e)

-- `none` is the exception of an entry that is not JSON.
unfoldable pub discover : World → String → String → Option (Option Entry)
discover w family name = when_promoted (entry_at w (agent_key family name) legacy)

unfoldable pub discover_version : World → String → String → String → Option (Option Entry)
discover_version w family name v = when_promoted (entry_at w (agent_key family name) (versioned v))
