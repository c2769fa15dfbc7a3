-- ===== src/Managed/Deployments.antt =====
-- Deployments: create_deployment, get_deployment and set_desired_state of pilot/managed_runtime.py.
use agent_capability_forge.Prelude.{
  String, Bool, ◌&&◌, Option, none, some, List, ◌==◌, ◌!=◌, if◌then◌else◌, string_eq, option_eq,
  find,
}
use agent_capability_forge.Code.{
  invalid_desired_state, version_not_found, agent_version_mismatch, deployment_not_found,
  revoked_terminal,
}
use agent_capability_forge.Records.{Text}
use agent_capability_forge.Disk.{Outcome, ok, blocked, raised, ◌>>=◌, ◌>>◌, refuse_if, or_refuse}
use agent_capability_forge.Managed.Log.{append_event, latest, current, values}
use agent_capability_forge.Managed.Defs.{
  Desired, revoke, Deployment, State, desired_of, same_desired,
}
use agent_capability_forge.Managed.Versions.{latest_version}

unfoldable pub deployments_now : State → List Deployment
deployments_now s = values (current (λ (x : Deployment). x.deployment_id) s.deployments)

-- _deployment_for_agent
unfoldable pub deployment_for_agent : State → Text → Option Deployment
deployment_for_agent s agent_id =
    find (λ (x : Deployment). x.agent_id == agent_id) (deployments_now s)

-- The checks of create_deployment.
unfoldable pub deployment_checks : State → Text → String → String → Outcome Desired
deployment_checks s agent_id version_id desired = do
  want ← or_refuse (desired_of desired) invalid_desired_state
  v ← or_refuse (latest_version s agent_id version_id) version_not_found
  refuse_if (v.agent_id != agent_id) agent_version_mismatch
  ok want

abbrev pub same_intent : Option Deployment → String → Desired → Bool
same_intent none version_id want = Bool.false
same_intent (some x) version_id want =
    x.version_id == version_id && same_desired x.desired_state want

abbrev pub deployment_of : String → Text → String → Desired → Deployment
deployment_of id agent_id version_id want = record {
  deployment_id = id;
  agent_id = agent_id;
  version_id = version_id;
  desired_state = want;
}

unfoldable pub write_deployment :
    String → Text → String → Desired → Option Deployment → State → Outcome Deployment × State
write_deployment id agent_id version_id want none s =
    let x = deployment_of id agent_id version_id want in
    (ok x, record s { deployments = append_event s.deployments x })
write_deployment id agent_id version_id want (some old) s =
    let x = deployment_of id agent_id version_id want in
    if same_intent (some old) version_id want
    then (ok old, s)
    else (ok x, record s { deployments = append_event s.deployments x })

unfoldable pub deploy_checked :
    String → Text → String → Outcome Desired → State → Outcome Deployment × State
deploy_checked id agent_id version_id (ok want) s =
    write_deployment id agent_id version_id want (deployment_for_agent s agent_id) s
deploy_checked id agent_id version_id (blocked cs) s = (blocked cs, s)
deploy_checked id agent_id version_id raised s = (raised, s)

-- `id` is what _uuid gives.
unfoldable pub create_deployment :
    String → State → Text → String → String → Outcome Deployment × State
create_deployment id s agent_id version_id desired =
    deploy_checked id agent_id version_id (deployment_checks s agent_id version_id desired) s

unfoldable pub latest_deployment : State → String → Option Deployment
latest_deployment s id = latest (λ (x : Deployment). x.deployment_id == id) s.deployments

unfoldable pub get_deployment : State → String → Outcome Deployment
get_deployment s id = or_refuse (latest_deployment s id) deployment_not_found

-- REVOKED is terminal.
unfoldable pub desired_checks : State → String → String → Outcome (Deployment × Desired)
desired_checks s id desired = do
  want ← or_refuse (desired_of desired) invalid_desired_state
  x ← get_deployment s id
  refuse_if
      (if same_desired x.desired_state want
        then Bool.false
        else same_desired x.desired_state revoke)
      revoked_terminal
  ok (x, want)

unfoldable pub write_desired : Outcome (Deployment × Desired) → State → Outcome Deployment × State
write_desired (ok (x, want)) s =
    let y : Deployment = record x { desired_state = want } in
    if same_desired x.desired_state want
    then (ok x, s)
    else (ok y, record s { deployments = append_event s.deployments y })
write_desired (blocked cs) s = (blocked cs, s)
write_desired raised s = (raised, s)

unfoldable pub set_desired_state : State → String → String → Outcome Deployment × State
set_desired_state s id desired = write_desired (desired_checks s id desired) s
