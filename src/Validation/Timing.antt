-- ===== src/Validation/Timing.antt =====
-- The last blocks of violations_for_authority (pilot/adoption_authority.py): when the authority was
-- issued, and whether a later decision overrides this one. Timestamps are ISO texts, which Python
-- compares as texts.
use Prim.Native.String.{compare}
use text.Mathlib.Text.{is_lt}
use agent_capability_forge.Prelude.{
  String, Bool, not, ◌&&◌, ◌||◌, none, some, List, [], ◌∷◌, ◌++◌, ◌==◌, ◌!=◌, if◌then◌else◌,
  string_eq, option_eq, any, report,
}
use agent_capability_forge.Code.{
  Code, authority_issued_at_mismatch, missing_decision_timestamp, stale_decision,
}
use agent_capability_forge.Records.{Text, Authority, Decision, Candidate, Store}
use agent_capability_forge.Validation.Request.{empty_text, conflicts}

-- `str(d.get("created_at", ""))`: Python's text of null is None.
abbrev pub stamp : Decision → String
stamp d = elim d.created_at [ none ↦ if d.null_created then "None" else "" | some t ↦ t ]

abbrev pub before : String → String → Bool
before x y = is_lt (compare x y)

-- A timestamp that is there, which both are where they are compared as they stand.
abbrev pub given_text : Text → String
given_text none = ""
given_text (some t) = t

-- `candidate.created_at and decision.created_at < candidate.created_at`
unfoldable pub predates : Decision → Candidate → Bool
predates d c =
    not (empty_text c.created_at) && before (given_text d.created_at) (given_text c.created_at)

-- Another and later decision on the same candidate and version.
unfoldable pub follows : Text → Text → Decision → Decision → Bool
follows id version d e =
    e.decision_id != d.decision_id
    && e.candidate_id == id
    && e.candidate_version == version
    && before (stamp d) (stamp e)

-- NON_PROMOTE_VALUES
unfoldable pub non_promote : Text → Bool
non_promote v = any (λ x. v == some x) ("HOLD" ∷ "REJECTED" ∷ "REJECT" ∷ "CANARY" ∷ "PENDING" ∷ [])

unfoldable pub later_promote : Text → Text → Decision → Store → Bool
later_promote id version d s =
    any (λ (e : Decision). follows id version d e && e.value == some "PROMOTE") s.decisions

unfoldable pub later_non_promote : Text → Text → Decision → Store → Bool
later_non_promote id version d s =
    any (λ (e : Decision). follows id version d e && non_promote e.value) s.decisions

abbrev pub stale_tests : Text → Text → Decision → Candidate → Store → List (Bool × Code)
stale_tests id version d c s =
    (
      predates d c || later_promote id version d s || later_non_promote id version d s,
      stale_decision,
    )
    ∷ []

-- The blocks from issued_at on; a decision without a timestamp ends the checks.
unfoldable pub timing_violations : Authority → Decision → Candidate → Store → List Code
timing_violations a d c s =
    report ((conflicts a.issued_at d.created_at, authority_issued_at_mismatch) ∷ [])
    ++ (if empty_text d.created_at
        then missing_decision_timestamp ∷ []
        else report (stale_tests a.candidate_id a.candidate_version d c s))
