-- ===== src/Fleet/OneActive.antt =====
-- What reconcile of pilot/managed_runtime.py does to the instances of all deployments.
use agent_capability_forge.Prelude.{
  String, Bool, true, false, Option, none, some, ◌≡◌, refl, ap, ◌==◌, ◌!=◌, string_eq, nat_eq,
  if_cases, lookup,
}
use agent_capability_forge.Disk.{Outcome, ok, blocked, raised}
use agent_capability_forge.Managed.{
  Desired, run, stop, revoke, Observed, ready, deploying, pending, starting, running, stopping,
  stopped, failed, revoked, unknown, Version, Deployment, Instance, State, Site, Runtime, Manager,
  is_active, active_instance, last_instance, instances_of, append_instance, revoked_of,
  stop_instance, report_on, run_active, reconcile_running, reconcile_stopped, revoke_stopped,
  revoke_idle, revoke_last, reconcile_revoked, reconcile_desired, reconcile_version,
  reconcile_found, reconcile, is_revoked_version, snapshot_binding_violation, get_deployment,
  latest_version, start_it,
}
use agent_capability_forge.Fleet.Logs.{latest-lookup}
use agent_capability_forge.Fleet.Active.{key_of, now_of, none-count, active-now}
use agent_capability_forge.Fleet.Moves.{Steady, Steady-trans, append-Steady, Stops, stop-Stops}
use agent_capability_forge.Fleet.Switch.{
  IsOrderly, Steady-IsOrderly, LeavesOrderly, start_new-Leaves, switch_version-Leaves,
  keep_running-Leaves, stop_active-Leaves,
}

-- An event of a withdrawn instance.
revoked-Steady :
    (m : Manager) (s : State) (i : Instance)
    → lookup i.instance_id (now_of s) ≡ some i
    → Steady s (append_instance s (revoked_of m i))
revoked-Steady m s i there = append-Steady s (revoked_of m i) i there refl (λ e. cc) (λ b. b)

module _ (m : Manager) (x : Deployment) (r : Runtime) (s : State) (i : Instance)
    (there : lookup i.instance_id (now_of s) ≡ some i) where
  revoke_stopped-Leaves :
      (o : Outcome (Instance × Bool) × State) → Stops s i o → LeavesOrderly s (revoke_stopped m x o)
  unfolding revoke_stopped report_on
  revoke_stopped-Leaves (ok (j, true), t) h =
      Steady-IsOrderly (Steady-trans h.0 (revoked-Steady m t j h.2))
  revoke_stopped-Leaves (ok (j, false), t) h = Steady-IsOrderly h
  revoke_stopped-Leaves (blocked cs, t) h = Steady-IsOrderly h
  revoke_stopped-Leaves (raised, t) h = Steady-IsOrderly h

  revoke_last-Leaves :
      (o : Observed) → i.observed_state ≡ o → LeavesOrderly s (revoke_last m s x r i o)
  unfolding revoke_last revoke_idle report_on
  revoke_last-Leaves stopped e = Steady-IsOrderly (revoked-Steady m s i there)
  revoke_last-Leaves failed e = Steady-IsOrderly (revoked-Steady m s i there)
  revoke_last-Leaves ready e = Steady-IsOrderly (revoked-Steady m s i there)
  revoke_last-Leaves running e =
      revoke_stopped-Leaves (stop_instance m s r i) (stop-Stops m s r i there (ap is_active e))
  revoke_last-Leaves starting e =
      revoke_stopped-Leaves (stop_instance m s r i) (stop-Stops m s r i there (ap is_active e))
  revoke_last-Leaves stopping e = λ h. h
  revoke_last-Leaves revoked e = λ h. h
  revoke_last-Leaves deploying e = λ h. h
  revoke_last-Leaves pending e = λ h. h
  revoke_last-Leaves unknown e = λ h. h

module _ (m : Manager) (t : Site) (x : Deployment) (r : Runtime)
    (new_id : lookup m.host.fresh (now_of t.state) ≡ none) where
  run_active-Leaves :
      (v : Version) (o : Option Instance)
      → active_instance t.state x.deployment_id ≡ o
      → LeavesOrderly t.state (run_active m t.state x v r o)
  unfolding run_active
  run_active-Leaves v none e =
      start_new-Leaves m x v r t.state start_it new_id (none-count t.state x.deployment_id e)
  run_active-Leaves v (some i) e =
      let (there, own, act) = active-now t.state x.deployment_id i e in
      if_cases (LeavesOrderly t.state) (i.version_id != x.version_id)
        (λ _. switch_version-Leaves m x v r t.state i new_id there own act i.observed_state act)
        (λ _. keep_running-Leaves m x v r t.state i new_id there own act i.observed_state act)

  running-Leaves : (v : Version) → LeavesOrderly t.state (reconcile_running m t x v r)
  unfolding reconcile_running report_on
  running-Leaves v =
      if_cases (LeavesOrderly t.state) (is_revoked_version t v) (λ _ h. h)
        (λ _.
          if_cases (LeavesOrderly t.state) (snapshot_binding_violation m v) (λ _ h. h)
            (λ _. run_active-Leaves v (active_instance t.state x.deployment_id) refl))

  stopped-Leaves :
      (v : Version) (o : Option Instance)
      → active_instance t.state x.deployment_id ≡ o
      → LeavesOrderly t.state (reconcile_stopped m t.state x r o)
  unfolding reconcile_stopped report_on
  stopped-Leaves v none e = λ h. h
  stopped-Leaves v (some i) e =
      let (there, own, act) = active-now t.state x.deployment_id i e in
      stop_active-Leaves m x v r t.state i new_id there own act i.observed_state

  revoked-Leaves :
      (o : Option Instance)
      → last_instance t.state x.deployment_id ≡ o
      → LeavesOrderly t.state (reconcile_revoked m t.state x r o)
  unfolding reconcile_revoked report_on last_instance instances_of
  revoked-Leaves none e = λ h. h
  revoked-Leaves (some i) e =
      revoke_last-Leaves m x r t.state i
        (latest-lookup key_of (λ (j : Instance). true)
          (λ (j : Instance). j.deployment_id == x.deployment_id) t.state.instances i e).0
        i.observed_state refl

  desired-Leaves :
      (v : Version) (want : Desired) → LeavesOrderly t.state (reconcile_desired m t x v r want)
  unfolding reconcile_desired
  desired-Leaves v run = running-Leaves v
  desired-Leaves v stop = stopped-Leaves v (active_instance t.state x.deployment_id) refl
  desired-Leaves v revoke = revoked-Leaves (last_instance t.state x.deployment_id) refl

  version-Leaves : (o : Option Version) → LeavesOrderly t.state (reconcile_version m t x r o)
  unfolding reconcile_version report_on
  version-Leaves none = λ h. h
  version-Leaves (some v) = desired-Leaves v x.desired_state

-- One pass of reconcile keeps the instances orderly, whatever the runtime answers.
pub reconcile-IsOrderly :
    (m : Manager) (t : Site) (r : Runtime) (id : String)
    → lookup m.host.fresh (now_of t.state) ≡ none
    → IsOrderly t.state
    → IsOrderly (reconcile m t r id).1
unfolding reconcile reconcile_found
reconcile-IsOrderly m t r id new_id = found-Leaves (get_deployment t.state id)
  where
    found-Leaves : (o : Outcome Deployment) → LeavesOrderly t.state (reconcile_found m t r o)
    found-Leaves (ok x) =
        version-Leaves m t x r new_id (latest_version t.state x.agent_id x.version_id)
    found-Leaves (blocked cs) = λ h. h
    found-Leaves raised = λ h. h
