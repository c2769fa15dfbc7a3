-- ===== src/Managed/Control.antt =====
-- upgrade, get_runtime_status and revoke_version of pilot/managed_runtime.py.
use agent_capability_forge.Prelude.{
  String, Bool, true, false, not, ◌&&◌, ◌||◌, Option, none, some, List, [], ◌∷◌, ◌==◌, ◌!=◌,
  if◌then◌else◌, string_eq, option_eq, select,
}
use agent_capability_forge.Code.{
  version_not_found, agent_version_mismatch, version_revoked, snapshot_binding_mismatch,
  snapshot_invalid, revoked_terminal, instance_not_found,
}
use agent_capability_forge.Records.{Text, Revocation}
use agent_capability_forge.Disk.{
  Outcome, ok, blocked, raised, Disk, ◌>>=◌, ◌>>◌, refuse_if, or_refuse,
}
use agent_capability_forge.Host.{shown}
use agent_capability_forge.Revoke.{Request, revoke_authority}
use agent_capability_forge.Frozen.{Checked, verified, rejected, frozen_checks}
use agent_capability_forge.Managed.Log.{append_event, latest}
use agent_capability_forge.Managed.Defs.{
  Desired, run, revoke, Version, Deployment, Instance, State, Site, Runtime, Manager, same_desired,
  at_root, put_world,
}
use agent_capability_forge.Managed.Versions.{
  latest_version, is_revoked_version, snapshot_binding_violation,
}
use agent_capability_forge.Managed.Deployments.{deployments_now, get_deployment, set_desired_state}
use agent_capability_forge.Managed.Reconcile.{Report, reconcile}

unfoldable pub frozen_ok : Checked → Outcome (Unit {0})
frozen_ok (verified r c) = ok tt
frozen_ok (rejected cs) = blocked (snapshot_invalid ∷ [])

-- _validate_target_version
unfoldable pub target_checks : Manager → Site → Deployment → String → Outcome (Unit {0})
target_checks m t x target = do
  v ← or_refuse (latest_version t.state x.agent_id target) version_not_found
  refuse_if (v.agent_id != x.agent_id) agent_version_mismatch
  refuse_if (is_revoked_version t v) version_revoked
  refuse_if (snapshot_binding_violation m v) snapshot_binding_mismatch
  frozen_ok (
      frozen_checks m.sealer ((at_root t v.registry_root).frozen v.frozen_root)
        (shown v.candidate_id))

unfoldable pub upgrade_checks : Manager → Site → String → String → Outcome Deployment
upgrade_checks m t id target = do
  x ← get_deployment t.state id
  refuse_if (same_desired x.desired_state revoke) revoked_terminal
  target_checks m t x target
  ok x

abbrev pub retargeted : Deployment → String → Deployment
retargeted x target = record x { version_id = target; desired_state = run }

unfoldable pub retarget : State → Deployment → String → State
retarget s x target =
    if x.version_id != target || not (same_desired x.desired_state run)
    then record s { deployments = append_event s.deployments (retargeted x target) }
    else s

unfoldable pub upgrade_checked :
    Manager → Site → Runtime → String → String → Outcome Deployment → Outcome Report × State
upgrade_checked m t r id target (ok x) =
    reconcile m (record t { state = retarget t.state x target }) r id
upgrade_checked m t r id target (blocked cs) = (blocked cs, t.state)
upgrade_checked m t r id target raised = (raised, t.state)

unfoldable pub upgrade : Manager → Site → Runtime → String → String → Outcome Report × State
upgrade m t r id target = upgrade_checked m t r id target (upgrade_checks m t id target)

unfoldable pub rollback : Manager → Site → Runtime → String → String → Outcome Report × State
rollback m t r id target = upgrade m t r id target

pub record Status : Type 0 where
  pub instance : Instance
  pub desired_state : Desired
  pub desired_version : String
  pub version_drift : Bool
  pub snapshot_binding : Bool

abbrev pub binds_snapshot : Instance → Option Version → Bool
binds_snapshot i none = false
binds_snapshot i (some v) = i.execution_snapshot_identity == v.execution_snapshot_identity

unfoldable pub get_runtime_status : State → String → Outcome Status
get_runtime_status s id = do
  i ← or_refuse (latest (λ (x : Instance). x.instance_id == id) s.instances) instance_not_found
  x ← get_deployment s i.deployment_id
  ok (record {
    instance = i;
    desired_state = x.desired_state;
    desired_version = x.version_id;
    version_drift = x.version_id != i.version_id;
    snapshot_binding = binds_snapshot i (latest_version s i.agent_id i.version_id);
  })

-- _versions: the latest event of each agent and version, in the order of their first events.
abbrev pub same_key : Version → Version → Bool
same_key u v = u.agent_id == v.agent_id && u.version_id == v.version_id

unfoldable pub replace_version : Version → List Version → List Version
replace_version v [] = v ∷ []
replace_version v (u ∷ us) = if same_key u v then v ∷ us else u ∷ replace_version v us

unfoldable pub versions_from : List Version → List Version → List Version
versions_from now [] = now
versions_from now (v ∷ vs) = versions_from (replace_version v now) vs

abbrev pub only_one : List Version → Option Version
only_one [] = none
only_one (v ∷ []) = some v
only_one (v ∷ u ∷ us) = none

unfoldable pub version_to_revoke : State → Text → String → Option Version
version_to_revoke s none version_id =
    only_one (select (λ (v : Version). v.version_id == version_id) (versions_from [] s.versions))
version_to_revoke s (some a) version_id = latest_version s (some a) version_id

abbrev pub continue :
    (State → Outcome (Unit {0}) × State) → Outcome Deployment × State → Outcome (Unit {0}) × State
continue rest (ok y, s) = rest s
continue rest (blocked cs, s) = (blocked cs, s)
continue rest (raised, s) = (raised, s)

-- A deployment of the version that is not REVOKED yet.
abbrev pub to_revoke : Version → Deployment → Bool
to_revoke v x =
    x.agent_id == v.agent_id
    && (x.version_id == v.version_id && not (same_desired x.desired_state revoke))

-- The loop over the deployments. An exception ends it.
unfoldable pub revoke_deployments : Version → List Deployment → State → Outcome (Unit {0}) × State
revoke_deployments v [] s = (ok tt, s)
revoke_deployments v (x ∷ xs) s =
    if to_revoke v x
    then continue (λ s'. revoke_deployments v xs s') (set_desired_state s x.deployment_id "REVOKED")
    else revoke_deployments v xs s

abbrev pub withdrawn_of : Version → Text → Version
withdrawn_of v revocation_id = record v { withdrawn = true; revocation_id = revocation_id }

abbrev pub answer_version : Version → Outcome (Unit {0}) × State → Outcome Version × State
answer_version v (ok u, s) = (ok v, s)
answer_version v (blocked cs, s) = (blocked cs, s)
answer_version v (raised, s) = (raised, s)

-- Behind revoke_authority: the version's event, then the deployments.
unfoldable pub withdraw_answered :
    String → Version → Outcome Revocation × Disk → Site → Outcome Version × Site
withdraw_answered root v (ok e, d) t =
    let u = withdrawn_of v e.revocation_id in
    let s : State = record t.state { versions = append_event t.state.versions u } in
    let done = answer_version u (revoke_deployments v (deployments_now s) s) in
    (done.0, put_world (record t { state = done.1 }) root (record (at_root t root) { disk = d }))
withdraw_answered root v (blocked cs, d) t =
    (blocked cs, put_world t root (record (at_root t root) { disk = d }))
withdraw_answered root v (raised, d) t =
    (raised, put_world t root (record (at_root t root) { disk = d }))

-- The arguments of revoke_version.
pub record Withdrawal : Type 0 where
  pub registry_root : String
  pub version_id : String
  pub agent_id : Text
  pub issuer_id : String
  pub reason : String

abbrev pub request_of : Withdrawal → Version → Request
request_of q v = record {
  authority_id = shown v.authority_id;
  status = "REVOKED";
  issuer_id = q.issuer_id;
  reason = q.reason;
}

unfoldable pub withdraw_found :
    Manager → Site → Withdrawal → Option Version → Outcome Version × Site
withdraw_found m t q none = (blocked (version_not_found ∷ []), t)
withdraw_found m t q (some v) =
    if v.withdrawn
    then (ok v, t)
    else withdraw_answered q.registry_root v
        (revoke_authority m.host (request_of q v) (at_root t q.registry_root).disk) t

unfoldable pub revoke_version : Manager → Site → Withdrawal → Outcome Version × Site
revoke_version m t q = withdraw_found m t q (version_to_revoke t.state q.agent_id q.version_id)
