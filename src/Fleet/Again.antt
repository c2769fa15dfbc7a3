-- ===== src/Fleet/Again.antt =====
-- A second pass of reconcile of pilot/managed_runtime.py behind one that answers HEALTHY.
use agent_capability_forge.Prelude.{
  ◌≤◌, String, false, Option, none, some, ◌≡◌, refl, sym, ap, subst, ◌!=◌, string_eq, if_cases,
  lookup,
}
use agent_capability_forge.Disk.{Outcome, ok, blocked, raised}
use agent_capability_forge.Managed.{
  Desired, run, stop, revoke, running, Version, Deployment, Instance, State, Site, Runtime, Manager,
  is_active, active_instance, Report, report_on, keep_running, run_active, reconcile_running,
  reconcile_stopped, reconcile_desired, reconcile_version, reconcile_found, reconcile,
  is_revoked_version, snapshot_binding_violation, get_deployment, latest_deployment, latest_version,
}
use agent_capability_forge.Fleet.Active.{now_of, active_count}
use agent_capability_forge.Fleet.Unique.{active_instance_unique}
use agent_capability_forge.Fleet.Switch.{IsOrderly}
use agent_capability_forge.Fleet.Settled.{RunsNow, Runs, running-Runs}
use agent_capability_forge.Fleet.OneActive.{reconcile-IsOrderly}
use agent_capability_forge.Fleet.OnlyAppends.{found-Writes, reconcile-Writes}
use agent_capability_forge.Fleet.Idle.{
  IsHealthy, IsQuiet, report_no_op, stop-IsIdle, idle-IsQuiet, revoke-not,
}

-- What is behind a pass.
abbrev after : Site → Outcome Report × State → Site
after t o = record t { state = o.1 }

Runs-healthy :
    (x : Deployment) (o : Outcome Report × State) → Runs x o → IsHealthy o → RunsNow x o.1
Runs-healthy x (ok rep, s) h e = h e
Runs-healthy x (blocked cs, s) h e = elim e [ ]
Runs-healthy x (raised, s) h e = elim e [ ]

module _ (m : Manager) (x : Deployment) (v : Version) (r : Runtime) where
  running-may_run :
      (t : Site)
      → IsHealthy (reconcile_running m t x v r)
      → (is_revoked_version t v ≡ false) × (snapshot_binding_violation m v ≡ false)
  unfolding reconcile_running report_on
  running-may_run t =
      if_cases {A = Outcome Report × State}
        (λ o.
          IsHealthy o → (is_revoked_version t v ≡ false) × (snapshot_binding_violation m v ≡ false))
        (is_revoked_version t v) (λ _ h. cc)
        (λ e.
          if_cases {A = Outcome Report × State}
            (λ o.
              IsHealthy o
              → (is_revoked_version t v ≡ false) × (snapshot_binding_violation m v ≡ false))
            (snapshot_binding_violation m v) (λ _ h. cc) (λ f h. (e, f)))

  run_active-IsQuiet :
      (s : State) (i : Instance)
      → (i.version_id != x.version_id) ≡ false
      → i.observed_state ≡ running
      → IsQuiet s (run_active m s x v r (some i))
  unfolding run_active keep_running
  run_active-IsQuiet s i fits e =
      rw fits
        (subst (λ o. IsQuiet s (keep_running m s x v r i o)) (sym e) (report_no_op s x (some i)))

  running-IsQuiet :
      (t : Site)
      → IsOrderly t.state
      → is_revoked_version t v ≡ false
      → snapshot_binding_violation m v ≡ false
      → RunsNow x t.state
      → IsQuiet t.state (reconcile_running m t x v r)
  unfolding reconcile_running
  running-IsQuiet t (one, b) e f (i, there, own, fits, up) = rw e (
      rw f (
        rw
          (active_instance_unique t.state x.deployment_id i (one x.deployment_id) there own
            (ap is_active up))
          (run_active-IsQuiet t.state i fits up)))

module _ (m : Manager) (t : Site) (x : Deployment) (v : Version) (r : Runtime)
    (one : (id : String) → active_count id t.state ≤ 1) where
  desired-again :
      (want : Desired)
      → IsHealthy (reconcile_desired m t x v r want)
      → IsOrderly (reconcile_desired m t x v r want).1
      → IsQuiet
          (reconcile_desired m t x v r want).1
          (reconcile_desired m (after t (reconcile_desired m t x v r want)) x v r want)
  unfolding reconcile_desired is_revoked_version
  desired-again run h b =
      let o = reconcile_running m t x v r in
      let (e, f) = running-may_run m x v r t h in
      running-IsQuiet m x v r (after t o) b e f (Runs-healthy x o (running-Runs m t x v r) h)
  desired-again stop h b =
      let o = reconcile_stopped m t.state x r (active_instance t.state x.deployment_id) in
      idle-IsQuiet m x r o.1 (stop-IsIdle m x r t.state one _ refl h)
  desired-again revoke h b = absurd (revoke-not m x r t.state _ h)

module _ (m : Manager) (t : Site) (r : Runtime)
    (one : (id : String) → active_count id t.state ≤ 1) where
  version-again :
      (x : Deployment) (o : Option Version)
      → IsHealthy (reconcile_version m t x r o)
      → IsOrderly (reconcile_version m t x r o).1
      → IsQuiet
          (reconcile_version m t x r o).1
          (reconcile_version m (after t (reconcile_version m t x r o)) x r o)
  unfolding reconcile_version report_on
  version-again x none h b = cc
  version-again x (some v) h b = desired-again m t x v r one x.desired_state h b

  found-again :
      (o : Outcome Deployment)
      → IsHealthy (reconcile_found m t r o)
      → IsOrderly (reconcile_found m t r o).1
      → IsQuiet
          (reconcile_found m t r o).1
          (reconcile_found m (after t (reconcile_found m t r o)) r o)
  unfolding reconcile_found latest_version
  found-again (ok x) h b =
      let w = reconcile_version m t x r (latest_version t.state x.agent_id x.version_id) in
      let (es, e) = found-Writes m t r (ok x) in
      subst (λ o. IsQuiet w.1 (reconcile_version m (after t w) x r o))
        (sym (ap (λ (s : State). latest_version s x.agent_id x.version_id) e))
        (version-again x (latest_version t.state x.agent_id x.version_id) h b)
  found-again (blocked cs) h b = elim h [ ]
  found-again raised h b = elim h [ ]

-- A pass of reconcile that answers HEALTHY has converged: from a state in which no deployment has
-- two active instances and where the identifier of a new instance is not used yet, the next pass
-- answers NO-OP and HEALTHY and leaves every file as it is.
pub reconcile-again :
    (m : Manager) (t : Site) (r : Runtime) (id : String)
    → lookup m.host.fresh (now_of t.state) ≡ none
    → IsOrderly t.state
    → IsHealthy (reconcile m t r id)
    → IsQuiet
        (reconcile m t r id).1
        (reconcile m (record t { state = (reconcile m t r id).1 }) r id)
unfolding reconcile get_deployment latest_deployment
reconcile-again m t r id new_id b h =
    let w = reconcile m t r id in
    let (es, e) = reconcile-Writes m t r id in
    subst (λ o. IsQuiet w.1 (reconcile_found m (record t { state = w.1 }) r o))
      (sym (ap (λ (s : State). get_deployment s id) e))
      (found-again m t r b.0 (get_deployment t.state id) h (reconcile-IsOrderly m t r id new_id b))
