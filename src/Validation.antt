-- ===== src/Validation.antt =====
-- The validator of an adoption: violations_for_authority and validate of
-- pilot/adoption_authority.py, composed of the blocks in the modules below.
mod Request
mod Binding
mod Timing
unfoldable pub use Request.*
unfoldable pub use Binding.*
unfoldable pub use Timing.*
use agent_capability_forge.Prelude.{Bool, Option, none, some, List, [], ◌∷◌, report, collect}
use agent_capability_forge.Code.{Code, missing_decision}
use agent_capability_forge.Records.{Text, Authority, Decision, Run, Policy, Candidate, Store}
use agent_capability_forge.Disk.{Disk}
use agent_capability_forge.Host.{Host}
use agent_capability_forge.Ledger.{is_empty}
use agent_capability_forge.Revocations.{revocation_violations}

-- The blocks behind a decision that was found, with what the store holds for it.
abbrev pub binding_blocks :
    Authority → Decision → Option Run → Option Policy → Candidate → Store → Text → List (List Code)
binding_blocks a d run policy c s actual =
    report (decision_tests a d run)
    ∷ report (candidate_tests a d run c)
    ∷ report (policy_tests a d run policy)
    ∷ report (content_tests a d run c s actual)
    ∷ lifecycle_violations (some "PROMOTABLE") (find_lifecycle s a.candidate_id)
    ∷ revocation_violations s a.candidate_id a.candidate_version d.decision_id
    ∷ timing_violations a d c s
    ∷ []

unfoldable pub decision_violations : Authority → Store → Text → Option Decision → List Code
decision_violations a s actual none = missing_decision ∷ []
decision_violations a s actual (some d) = collect (
    binding_blocks a d (find_run s d.run_id) (find_policy s d.policy_ref)
      (find_candidate s a.candidate_id) s actual)

abbrev pub authority_blocks :
    Host → Authority → Store → Text → Option Disk → Option Decision → List (List Code)
authority_blocks h a s actual root found =
    report (authority_tests h a)
    ∷ root_violations a s root
    ∷ decision_violations a s actual found
    ∷ []

unfoldable pub violations_for_authority : Host → Authority → Store → Text → Option Disk → List Code
violations_for_authority h a s actual root =
    collect (authority_blocks h a s actual root (find_decision s a.promotion_decision_id))

-- The report of validate; `verdict` is ALLOW exactly when `allowed` holds.
pub record Report : Type 0 where
  pub allowed : Bool
  pub violations : List Code

unfoldable pub validate : Host → Authority → Store → Text → Option Disk → Report
validate h a s actual root = record {
  allowed = is_empty (violations_for_authority h a s actual root);
  violations = violations_for_authority h a s actual root;
}
