-- ===== src/Ledger.antt =====
-- The authority ledger: pilot/adoption_authority.py, trusted_issuers to append_authority_event.
-- authorities/<id>.json is written once; authorities/<id>.events.jsonl only grows.
pub mod WriteOnce
use agent_capability_forge.Prelude.{
  String, Bool, true, false, not, ◌||◌, Option, none, some, List, [], ◌∷◌, ◌++◌, map, ◌==◌,
  if◌then◌else◌, string_eq, option_eq, any, select, lookup, insert,
}
use agent_capability_forge.Code.{authority_binding_mismatch}
use agent_capability_forge.Records.{Text, Authority, Revocation, Store, authority_eq}
use agent_capability_forge.Disk.{
  Doc, missing, unreadable, holds, Outcome, ok, blocked, raised, read, Disk, or_missing, is_listed,
}
use agent_capability_forge.Host.{Host}

-- `frozenset(x.strip() for x in raw.split(",") if x.strip())`
unfoldable pub trusted_issuers : Host → List String
trusted_issuers h = select (λ x. not (x == "")) (map h.strip h.issuer_entries)

abbrev pub is_empty {ℓ} : {A : Type ℓ} → List A → Bool
is_empty [] = true
is_empty (x ∷ xs) = false

-- An unset list of issuers allows every issuer.
unfoldable pub issuer_allowed : Host → Text → Bool
issuer_allowed h issuer_id =
    is_empty (trusted_issuers h) || any (λ t. some t == issuer_id) (trusted_issuers h)

unfoldable pub load_store : Disk → Option (Option Store)
load_store d = read d.store

unfoldable pub load_authority_record : Disk → String → Option (Option Authority)
load_authority_record d id = read (or_missing (lookup id d.records))

abbrev pub read_lines : Doc (List Revocation) → Option (List Revocation)
read_lines missing = some []
read_lines unreadable = none
read_lines (holds es) = some es

-- `none` is the exception of a line that is not JSON.
unfoldable pub load_authority_events : Disk → String → Option (List Revocation)
load_authority_events d id = read_lines (or_missing (lookup id d.events))

-- `None if existing == authority else "AUTHORITY_BINDING_MISMATCH"`, on a file that is there.
unfoldable pub compare_record : Option Authority → Authority → Outcome (Unit {0})
compare_record none a = blocked (authority_binding_mismatch ∷ [])
compare_record (some existing) a =
    if existing == a then ok tt else blocked (authority_binding_mismatch ∷ [])

-- os.link(tmp, path): creates the file if it is absent.
unfoldable pub link_record : String → Authority → Doc Authority → Disk → Outcome (Unit {0}) × Disk
link_record id a missing d = (ok tt, record d { records = insert id (holds a) d.records })
link_record id a unreadable d = (compare_record none a, d)
link_record id a (holds existing) d = (compare_record (some existing) a, d)

-- The first test of path.exists(). The new record is written to a temporary file and linked, and
-- `others` is what other processes do to the disk in between.
unfoldable pub check_record :
    (Disk → Disk) → String → Authority → Doc Authority → Disk → Outcome (Unit {0}) × Disk
check_record others id a missing d =
    link_record id a (or_missing (lookup id (others d).records)) (others d)
check_record others id a unreadable d = (compare_record none a, d)
check_record others id a (holds existing) d = (compare_record (some existing) a, d)

abbrev pub make_ledger : Disk → Disk
make_ledger d = record d { has_ledger = true }

-- `authority["authority_id"]` raises where the key is absent.
unfoldable pub write_record_among :
    (Disk → Disk) → Text → Authority → Disk → Outcome (Unit {0}) × Disk
write_record_among others none a d = (raised, d)
write_record_among others (some id) a d =
    check_record others id a (or_missing (lookup id d.records)) (make_ledger d)

unfoldable pub write_authority_record : Authority → Disk → Outcome (Unit {0}) × Disk
write_authority_record a d = write_record_among (λ e. e) a.authority_id a d

-- The event and its newline go behind what is there. Behind a last line without a newline, both
-- are one line, which is not JSON.
abbrev pub append_line : Bool → Doc (List Revocation) → Revocation → Doc (List Revocation)
append_line joined missing e = holds (e ∷ [])
append_line joined unreadable e = unreadable
append_line joined (holds es) e = if joined then unreadable else holds (es ++ e ∷ [])

-- The file is the one of the event's authority_id, which is `id`.
unfoldable pub append_authority_event : String → Revocation → Disk → Disk
append_authority_event id e d = record d {
  has_ledger = true;
  events =
      insert id (append_line (is_listed id d.open_lines) (or_missing (lookup id d.events)) e)
        d.events;
  open_lines = select (λ n. not (n == id)) d.open_lines;
}
