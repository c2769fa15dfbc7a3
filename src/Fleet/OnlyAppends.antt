-- ===== src/Fleet/OnlyAppends.antt =====
-- Which files of the state root one pass of reconcile in pilot/managed_runtime.py writes.
use agent_capability_forge.Prelude.{
  ◌+◌, String, Option, none, some, ◌!=◌, string_eq, nat_eq, if_cases, leb,
}
use agent_capability_forge.Disk.{Outcome, ok, blocked, raised}
use agent_capability_forge.Managed.{
  Desired, run, stop, revoke, Observed, ready, deploying, pending, starting, running, stopping,
  stopped, failed, revoked, unknown, Version, Deployment, Instance, State, Site, Runtime, Manager,
  start_max_attempts, active_instance, last_instance, revoked_of, start_again, stop_instance,
  Report, report_on, switch_version, attempts, retry, keep_running, run_active, reconcile_running,
  stop_active, reconcile_stopped, revoke_idle, revoke_last, reconcile_revoked, reconcile_desired,
  reconcile_version, reconcile_found, reconcile, is_revoked_version, snapshot_binding_violation,
  get_deployment, latest_version, start_it, upgrade_it,
}
use agent_capability_forge.Fleet.Appends.{
  Writes, Writes-refl, Writes-one, LeavesWritten, start_again-Writes, stop_instance-Writes,
  revoke_stopped-Writes, report-Writes, started-Writes, switched-Writes, stopped-Writes,
}

module _ (m : Manager) (x : Deployment) (v : Version) (r : Runtime) (s : State) where
  same : Writes s s
  same = Writes-refl s

  switch-Writes : (i : Instance) (o : Observed) → LeavesWritten s (switch_version m s x v r i o)
  unfolding switch_version report_on
  switch-Writes i running = switched-Writes m x v r s i
  switch-Writes i ready = switched-Writes m x v r s i
  switch-Writes i starting = switched-Writes m x v r s i
  switch-Writes i stopping = same
  switch-Writes i stopped = started-Writes m x v r s upgrade_it
  switch-Writes i failed = same
  switch-Writes i revoked = same
  switch-Writes i deploying = same
  switch-Writes i pending = same
  switch-Writes i unknown = same

  retry-Writes : (i : Instance) → LeavesWritten s (retry s x v r i)
  unfolding retry report_on
  retry-Writes i =
      if_cases {A = Outcome Report × State} (LeavesWritten s) (leb start_max_attempts (attempts i))
        (λ _. same)
        (λ _.
          report-Writes m x v r s start_it (start_again s v r i (attempts i + 1))
            (start_again-Writes s s same v r i (attempts i + 1)))

  keep-Writes : (i : Instance) (o : Observed) → LeavesWritten s (keep_running m s x v r i o)
  unfolding keep_running report_on
  keep-Writes i stopped = started-Writes m x v r s start_it
  keep-Writes i running = same
  keep-Writes i failed = retry-Writes i
  keep-Writes i ready = same
  keep-Writes i starting = same
  keep-Writes i stopping = same
  keep-Writes i revoked = same
  keep-Writes i deploying = same
  keep-Writes i pending = same
  keep-Writes i unknown = same

  stop_active-Writes : (i : Instance) (o : Observed) → LeavesWritten s (stop_active m s x r i o)
  unfolding stop_active report_on
  stop_active-Writes i stopped = same
  stop_active-Writes i failed = same
  stop_active-Writes i running = stopped-Writes m x v r s i
  stop_active-Writes i starting = stopped-Writes m x v r s i
  stop_active-Writes i ready = stopped-Writes m x v r s i
  stop_active-Writes i stopping = same
  stop_active-Writes i revoked = same
  stop_active-Writes i deploying = same
  stop_active-Writes i pending = same
  stop_active-Writes i unknown = same

  revoke_last-Writes : (i : Instance) (o : Observed) → LeavesWritten s (revoke_last m s x r i o)
  unfolding revoke_last revoke_idle report_on
  revoke_last-Writes i stopped = Writes-one s (revoked_of m i)
  revoke_last-Writes i failed = Writes-one s (revoked_of m i)
  revoke_last-Writes i ready = Writes-one s (revoked_of m i)
  revoke_last-Writes i revoked = same
  revoke_last-Writes i running =
      revoke_stopped-Writes m x v r s (stop_instance m s r i) (stop_instance-Writes m x v r s i)
  revoke_last-Writes i starting =
      revoke_stopped-Writes m x v r s (stop_instance m s r i) (stop_instance-Writes m x v r s i)
  revoke_last-Writes i stopping = same
  revoke_last-Writes i deploying = same
  revoke_last-Writes i pending = same
  revoke_last-Writes i unknown = same

  run_active-Writes : (o : Option Instance) → LeavesWritten s (run_active m s x v r o)
  unfolding run_active
  run_active-Writes none = started-Writes m x v r s start_it
  run_active-Writes (some i) =
      if_cases {A = Outcome Report × State} (LeavesWritten s) (i.version_id != x.version_id)
        (λ _. switch-Writes i i.observed_state) (λ _. keep-Writes i i.observed_state)

  reconcile_stopped-Writes : (o : Option Instance) → LeavesWritten s (reconcile_stopped m s x r o)
  unfolding reconcile_stopped report_on
  reconcile_stopped-Writes none = same
  reconcile_stopped-Writes (some i) = stop_active-Writes i i.observed_state

  reconcile_revoked-Writes : (o : Option Instance) → LeavesWritten s (reconcile_revoked m s x r o)
  unfolding reconcile_revoked report_on
  reconcile_revoked-Writes none = same
  reconcile_revoked-Writes (some i) = revoke_last-Writes i i.observed_state

module _ (m : Manager) (t : Site) (x : Deployment) (v : Version) (r : Runtime) where
  reconcile_running-Writes : LeavesWritten t.state (reconcile_running m t x v r)
  unfolding reconcile_running report_on
  reconcile_running-Writes =
      if_cases {A = Outcome Report × State} (LeavesWritten t.state) (is_revoked_version t v)
        (λ _. Writes-refl t.state)
        (λ _.
          if_cases {A = Outcome Report × State} (LeavesWritten t.state)
            (snapshot_binding_violation m v) (λ _. Writes-refl t.state)
            (λ _. run_active-Writes m x v r t.state (active_instance t.state x.deployment_id)))

  desired-Writes : (want : Desired) → LeavesWritten t.state (reconcile_desired m t x v r want)
  unfolding reconcile_desired
  desired-Writes run = reconcile_running-Writes
  desired-Writes stop =
      reconcile_stopped-Writes m x v r t.state (active_instance t.state x.deployment_id)
  desired-Writes revoke =
      reconcile_revoked-Writes m x v r t.state (last_instance t.state x.deployment_id)

module _ (m : Manager) (t : Site) (r : Runtime) where
  pub found-Writes : (o : Outcome Deployment) → LeavesWritten t.state (reconcile_found m t r o)
  unfolding reconcile_found reconcile_version report_on
  found-Writes (ok x) = version-Writes (latest_version t.state x.agent_id x.version_id)
    where
      version-Writes : (o : Option Version) → LeavesWritten t.state (reconcile_version m t x r o)
      version-Writes none = Writes-refl t.state
      version-Writes (some v) = desired-Writes m t x v r x.desired_state
  found-Writes (blocked cs) = Writes-refl t.state
  found-Writes raised = Writes-refl t.state

  -- One pass of reconcile only appends events of instances: every event that was there stays where
  -- it is, and the files of versions and of deployments are untouched.
  pub reconcile-Writes : (id : String) → Writes t.state (reconcile m t r id).1
  unfolding reconcile
  reconcile-Writes id = found-Writes (get_deployment t.state id)
