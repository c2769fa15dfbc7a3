-- ===== src/Host.antt =====
-- What the program takes from Python, the process and the operating system: SHA-256, the JSON
-- printer, and the settings in environment variables. Nothing is assumed of them here; a theorem
-- that needs a fact about one of them takes it as a hypothesis.
use Prim.Native.String.{◌++◌, slice}
use agent_capability_forge.Prelude.{String, Bool, none, some, List, Map}
use agent_capability_forge.Records.{Text, Authority, Decision, Revocation, Store}
use agent_capability_forge.Disk.{Doc}

pub record Host : Type 0 where
  -- hashlib.sha256(text.encode("utf-8")).hexdigest()
  pub hexdigest : String → String
  -- json.dumps(obj, sort_keys=True, separators=(",", ":"), ensure_ascii=False), by kind of record
  pub dumps_store : Store → String
  pub dumps_authority : Authority → String
  pub dumps_decision : Decision → String
  pub dumps_manifest : Map String → String
  -- the bytes of an event file, by whether its last line has no newline, and by its events
  pub events_bytes : Bool → Doc (List Revocation) → String
  -- os.environ[PILOT_TRUSTED_ISSUERS].split(","), and str.strip
  pub issuer_entries : List String
  pub strip : String → String
  -- whether integrity_anchor_path lies inside the registry root, by PILOT_INTEGRITY_ANCHOR
  pub anchor_inside : Bool
  -- datetime.now in ISO form
  pub now : String
  -- uuid.uuid4().hex[:12]
  pub fresh : String

-- `_sha256`
unfoldable pub sha256 : Host → String → String
sha256 h bytes = "sha256:" ++ h.hexdigest bytes

-- An f-string's rendering of a text or None.
abbrev pub shown : Text → String
shown none = "None"
shown (some s) = s

unfoldable pub authority_id_for : Host → Text → Text → Text → String
authority_id_for h candidate_id candidate_version decision_id =
    "auth-"
    ++ slice
        (h.hexdigest
          (shown candidate_id ++ "|" ++ shown candidate_version ++ "|" ++ shown decision_id))
        0 16
