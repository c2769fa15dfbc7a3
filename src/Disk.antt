-- ===== src/Disk.antt =====
-- The files that the control plane reads and writes under one registry root, and what a call
-- returns. A file is missing, present but not readable as JSON, or holds a record: `path.exists()`,
-- `json.loads` and the `except (OSError, json.JSONDecodeError)` clauses distinguish just these.
-- Writes of one file are atomic (temporary file and os.replace or os.link); failures of the
-- operating system while it writes are not modelled.
use agent_capability_forge.Prelude.{
  ℕ, String, Bool, true, false, Option, none, some, List, [], ◌∷◌, ◌≡◌, refl, Map, any, ◌==◌,
  string_eq,
}
use agent_capability_forge.Code.{Code}
use agent_capability_forge.Records.{Text, Authority, Revocation, Store}

pub data Doc (A : Type 0) : Type 0 where
  missing unreadable : Doc A
  holds : A → Doc A

-- What a call returns, or the exception that leaves it: AdoptionBlocked with its codes, a refusal
-- code as a value, or another exception.
pub data Outcome (A : Type 0) : Type 0 where
  ok : A → Outcome A
  blocked : List Code → Outcome A
  raised : Outcome A

-- `path.exists()`
abbrev pub exists : {A : Type 0} → Doc A → Bool
exists missing = false
exists unreadable = true
exists (holds a) = true

-- `json.loads(path.read_text()) if path.exists() else None`; `none` is the JSON error.
abbrev pub read : {A : Type 0} → Doc A → Option (Option A)
read missing = some none
read unreadable = none
read (holds a) = some (some a)

-- `int(existing.get("anchor_revision", 0))`; `malformed` is what `int` refuses.
pub data Revision : Type 0 where
  absent malformed : Revision
  number : ℕ → Revision

-- The external integrity anchor.
pub record Anchor : Type 0 where
  pub schema : Text
  pub store_id : Text
  pub integrity_mode : Text
  pub schema_version : Text
  pub store_digest : Text
  pub authority_manifest_digest : Text
  pub revocation_manifest_digest : Text
  pub anchor_created_at : Text
  pub anchor_revision : Revision

pub record Disk : Type 0 where
  -- adoption_store.json
  pub store : Doc Store
  -- the file at integrity_anchor_path
  pub anchor : Doc Anchor
  -- whether authorities/ is a directory
  pub has_ledger : Bool
  -- authorities/<id>.json
  pub records : Map (Doc Authority)
  -- authorities/<id>.events.jsonl, one revocation to a line
  pub events : Map (Doc (List Revocation))
  -- the identifiers of the event files whose last line has no newline behind it
  pub open_lines : List String
  -- the identifiers of the records that lack a key which revoke_authority subscripts
  pub lacking_keys : List String

-- Whether a name is in a list of names.
unfoldable pub is_listed : String → List String → Bool
is_listed id names = any (λ n. n == id) names

abbrev pub or_missing : {A : Type 0} → Option (Doc A) → Doc A
or_missing none = missing
or_missing (some d) = d

-- A step that goes on only where the one before returned.
infixl 5 ◌>>=◌ ◌>>◌
abbrev pub ◌>>=◌ : {A B : Type 0} → Outcome A → (A → Outcome B) → Outcome B
ok a >>= f = f a
blocked cs >>= f = blocked cs
raised >>= f = raised

abbrev pub ◌>>◌ : {B : Type 0} → Outcome (Unit {0}) → Outcome B → Outcome B
m >> k = m >>= λ _. k

-- `if test: raise AdoptionBlocked([code])`
abbrev pub refuse_if : Bool → Code → Outcome (Unit {0})
refuse_if true c = blocked (c ∷ [])
refuse_if false c = ok tt

-- `if violations: raise AdoptionBlocked(violations)`
abbrev pub refuse_all : List Code → Outcome (Unit {0})
refuse_all [] = ok tt
refuse_all (c ∷ cs) = blocked (c ∷ cs)

-- What an exception of the JSON reader does to a call that does not catch it.
abbrev pub or_raise : {A : Type 0} → Option A → Outcome A
or_raise none = raised
or_raise (some a) = ok a

abbrev pub or_refuse : {A : Type 0} → Option A → Code → Outcome A
or_refuse none c = blocked (c ∷ [])
or_refuse (some a) c = ok a

pub >>=-eq-ok :
    {A B : Type 0} (m : Outcome A) (f : A → Outcome B) {b : B}
    → (m >>= f) ≡ ok b
    → (a : A) × (m ≡ ok a) × (f a ≡ ok b)
>>=-eq-ok (ok a) f e = (a, refl, e)
>>=-eq-ok (blocked cs) f e = cc
>>=-eq-ok raised f e = cc

pub ok-eq-ok : {A : Type 0} {a b : A} → ok a ≡ ok b → a ≡ b
ok-eq-ok e = cc

pub refuse_if-ok : (b : Bool) (c : Code) {u : Unit {0}} → refuse_if b c ≡ ok u → b ≡ false
refuse_if-ok true c e = cc
refuse_if-ok false c e = refl

pub refuse_all-ok : (cs : List Code) {u : Unit {0}} → refuse_all cs ≡ ok u → cs ≡ []
refuse_all-ok [] e = refl
refuse_all-ok (c ∷ cs) e = cc

pub or_raise-ok : {A : Type 0} (o : Option A) {a : A} → or_raise o ≡ ok a → o ≡ some a
or_raise-ok none e = cc
or_raise-ok (some x) e = cc

pub or_refuse-ok :
    {A : Type 0} (o : Option A) (c : Code) {a : A} → or_refuse o c ≡ ok a → o ≡ some a
or_refuse-ok none c e = cc
or_refuse-ok (some x) c e = cc
