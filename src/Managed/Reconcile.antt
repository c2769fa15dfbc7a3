-- ===== src/Managed/Reconcile.antt =====
-- reconcile of pilot/managed_runtime.py, one function for each desired state.
use agent_capability_forge.Prelude.{
  ℕ, String, Bool, true, false, Option, none, some, List, ◌==◌, ◌!=◌, if◌then◌else◌, string_eq,
  nat_eq, leb, ◌+◌,
}
use agent_capability_forge.Disk.{Outcome, ok, blocked, raised}
use agent_capability_forge.Managed.Defs.{
  Desired, run, stop, revoke, Observed, ready, deploying, pending, starting, running, stopping,
  stopped, failed, revoked, unknown, Version, Deployment, Instance, State, Site, Runtime, Manager,
  start_max_attempts,
}
use agent_capability_forge.Managed.Versions.{
  latest_version, is_revoked_version, snapshot_binding_violation,
}
use agent_capability_forge.Managed.Deployments.{get_deployment}
use agent_capability_forge.Managed.Instances.{
  instances_of, active_instance, last_instance, append_instance, revoked_of, start_new, start_again,
  stop_instance,
}

-- `diff` and `verdict` of a report.
pub data Diff : Type 0 where
  no_op start_it stop_it upgrade_it revoke_it drift_it reconcile_it reject_it : Diff

pub data Verdict : Type 0 where
  healthy start_or_stop_failed reconcile_required version_missing rejected_version : Verdict
  revoked_deployment : Verdict

-- The report, without its free text.
pub record Report : Type 0 where
  pub deployment : Deployment
  pub diff : Diff
  pub verdict : Verdict
  pub version_drift : Bool
  -- the instance that `actions` names
  pub instance_id : Option String
  pub instances : List Instance

abbrev pub acts : Diff → Bool
acts no_op = false
acts start_it = true
acts stop_it = true
acts upgrade_it = false
acts revoke_it = true
acts drift_it = false
acts reconcile_it = false
acts reject_it = false

abbrev pub named_instance : Diff → Option Instance → Option String
named_instance d none = none
named_instance d (some i) = if acts d then some i.instance_id else none

-- _report
unfoldable pub report_on :
    State → Deployment → Diff → Verdict → Bool → Option Instance → Outcome Report × State
report_on s x d v drift i = (
  ok (record {
    deployment = x;
    diff = d;
    verdict = v;
    version_drift = drift;
    instance_id = named_instance d i;
    instances = instances_of s x.deployment_id;
  }),
  s,
)

abbrev pub health : Bool → Verdict
health true = healthy
health false = start_or_stop_failed

-- The report behind a start or a stop, or the exception that left the runtime.
unfoldable pub report_result :
    Deployment → Diff → Outcome (Instance × Bool) × State → Outcome Report × State
report_result x d (ok (i, good), s) = report_on s x d (health good) false (some i)
report_result x d (blocked cs, s) = (blocked cs, s)
report_result x d (raised, s) = (raised, s)

-- The old version is stopped before the new one is started.
unfoldable pub switch_stopped :
    Manager
    → Deployment
    → Version
    → Runtime
    → Outcome (Instance × Bool) × State
    → Outcome Report × State
switch_stopped m x v r (ok (i, true), s) = report_result x upgrade_it (start_new m s x v r)
switch_stopped m x v r (ok (i, false), s) = report_on s x stop_it reconcile_required false (some i)
switch_stopped m x v r (blocked cs, s) = (blocked cs, s)
switch_stopped m x v r (raised, s) = (raised, s)

-- The active instance is of another version.
unfoldable pub switch_version :
    Manager → State → Deployment → Version → Runtime → Instance → Observed → Outcome Report × State
switch_version m s x v r i running = switch_stopped m x v r (stop_instance m s r i)
switch_version m s x v r i ready = switch_stopped m x v r (stop_instance m s r i)
switch_version m s x v r i starting = switch_stopped m x v r (stop_instance m s r i)
switch_version m s x v r i stopping = report_on s x drift_it reconcile_required true (some i)
switch_version m s x v r i stopped = report_result x upgrade_it (start_new m s x v r)
switch_version m s x v r i failed = report_on s x reconcile_it reconcile_required false (some i)
switch_version m s x v r i revoked = report_on s x reconcile_it reconcile_required false (some i)
switch_version m s x v r i deploying = report_on s x reconcile_it reconcile_required false (some i)
switch_version m s x v r i pending = report_on s x reconcile_it reconcile_required false (some i)
switch_version m s x v r i unknown = report_on s x reconcile_it reconcile_required false (some i)

-- `active.get("attempt_count") or 1`
abbrev pub attempts : Instance → ℕ
attempts i = if i.attempt_count == 0 then 1 else i.attempt_count

unfoldable pub retry : State → Deployment → Version → Runtime → Instance → Outcome Report × State
retry s x v r i =
    if leb start_max_attempts (attempts i)
    then report_on s x reconcile_it reconcile_required false (some i)
    else report_result x start_it (start_again s v r i (attempts i + 1))

-- The active instance is of the version that is wanted.
unfoldable pub keep_running :
    Manager → State → Deployment → Version → Runtime → Instance → Observed → Outcome Report × State
keep_running m s x v r i stopped = report_result x start_it (start_new m s x v r)
keep_running m s x v r i running = report_on s x no_op healthy false (some i)
keep_running m s x v r i failed = retry s x v r i
keep_running m s x v r i ready = report_on s x no_op reconcile_required false (some i)
keep_running m s x v r i starting = report_on s x no_op reconcile_required false (some i)
keep_running m s x v r i stopping = report_on s x no_op reconcile_required false (some i)
keep_running m s x v r i revoked = report_on s x no_op reconcile_required false (some i)
keep_running m s x v r i deploying = report_on s x no_op reconcile_required false (some i)
keep_running m s x v r i pending = report_on s x no_op reconcile_required false (some i)
keep_running m s x v r i unknown = report_on s x no_op reconcile_required false (some i)

unfoldable pub run_active :
    Manager → State → Deployment → Version → Runtime → Option Instance → Outcome Report × State
run_active m s x v r none = report_result x start_it (start_new m s x v r)
run_active m s x v r (some i) =
    if i.version_id != x.version_id
    then switch_version m s x v r i i.observed_state
    else keep_running m s x v r i i.observed_state

-- desired == "RUNNING"
unfoldable pub reconcile_running :
    Manager → Site → Deployment → Version → Runtime → Outcome Report × State
reconcile_running m t x v r =
    if is_revoked_version t v
    then report_on t.state x reject_it rejected_version false none
    else if snapshot_binding_violation m v
    then report_on t.state x reject_it rejected_version false none
    else run_active m t.state x v r (active_instance t.state x.deployment_id)

-- desired == "STOPPED"
unfoldable pub stop_active :
    Manager → State → Deployment → Runtime → Instance → Observed → Outcome Report × State
stop_active m s x r i stopped = report_on s x no_op healthy false (some i)
stop_active m s x r i failed = report_on s x no_op healthy false (some i)
stop_active m s x r i running = report_result x stop_it (stop_instance m s r i)
stop_active m s x r i starting = report_result x stop_it (stop_instance m s r i)
stop_active m s x r i ready = report_result x stop_it (stop_instance m s r i)
stop_active m s x r i stopping = report_on s x no_op reconcile_required false (some i)
stop_active m s x r i revoked = report_on s x no_op reconcile_required false (some i)
stop_active m s x r i deploying = report_on s x no_op reconcile_required false (some i)
stop_active m s x r i pending = report_on s x no_op reconcile_required false (some i)
stop_active m s x r i unknown = report_on s x no_op reconcile_required false (some i)

unfoldable pub reconcile_stopped :
    Manager → State → Deployment → Runtime → Option Instance → Outcome Report × State
reconcile_stopped m s x r none = report_on s x no_op healthy false none
reconcile_stopped m s x r (some i) = stop_active m s x r i i.observed_state

-- desired == "REVOKED"
unfoldable pub revoke_stopped :
    Manager → Deployment → Outcome (Instance × Bool) × State → Outcome Report × State
revoke_stopped m x (ok (i, true), s) =
    report_on (append_instance s (revoked_of m i)) x stop_it revoked_deployment false
      (some (revoked_of m i))
revoke_stopped m x (ok (i, false), s) = report_on s x stop_it start_or_stop_failed false (some i)
revoke_stopped m x (blocked cs, s) = (blocked cs, s)
revoke_stopped m x (raised, s) = (raised, s)

unfoldable pub revoke_idle : Manager → State → Deployment → Instance → Outcome Report × State
revoke_idle m s x i =
    report_on (append_instance s (revoked_of m i)) x revoke_it revoked_deployment false
      (some (revoked_of m i))

unfoldable pub revoke_last :
    Manager → State → Deployment → Runtime → Instance → Observed → Outcome Report × State
revoke_last m s x r i stopped = revoke_idle m s x i
revoke_last m s x r i failed = revoke_idle m s x i
revoke_last m s x r i ready = revoke_idle m s x i
revoke_last m s x r i revoked = report_on s x no_op revoked_deployment false (some i)
revoke_last m s x r i running = revoke_stopped m x (stop_instance m s r i)
revoke_last m s x r i starting = revoke_stopped m x (stop_instance m s r i)
revoke_last m s x r i stopping = report_on s x no_op reconcile_required false (some i)
revoke_last m s x r i deploying = report_on s x no_op reconcile_required false (some i)
revoke_last m s x r i pending = report_on s x no_op reconcile_required false (some i)
revoke_last m s x r i unknown = report_on s x no_op reconcile_required false (some i)

unfoldable pub reconcile_revoked :
    Manager → State → Deployment → Runtime → Option Instance → Outcome Report × State
reconcile_revoked m s x r none = report_on s x no_op revoked_deployment false none
reconcile_revoked m s x r (some i) = revoke_last m s x r i i.observed_state

unfoldable pub reconcile_desired :
    Manager → Site → Deployment → Version → Runtime → Desired → Outcome Report × State
reconcile_desired m t x v r run = reconcile_running m t x v r
reconcile_desired m t x v r stop =
    reconcile_stopped m t.state x r (active_instance t.state x.deployment_id)
reconcile_desired m t x v r revoke =
    reconcile_revoked m t.state x r (last_instance t.state x.deployment_id)

unfoldable pub reconcile_version :
    Manager → Site → Deployment → Runtime → Option Version → Outcome Report × State
reconcile_version m t x r none = report_on t.state x reconcile_it version_missing false none
reconcile_version m t x r (some v) = reconcile_desired m t x v r x.desired_state

unfoldable pub reconcile_found :
    Manager → Site → Runtime → Outcome Deployment → Outcome Report × State
reconcile_found m t r (ok x) =
    reconcile_version m t x r (latest_version t.state x.agent_id x.version_id)
reconcile_found m t r (blocked cs) = (blocked cs, t.state)
reconcile_found m t r raised = (raised, t.state)

unfoldable pub reconcile : Manager → Site → Runtime → String → Outcome Report × State
reconcile m t r id = reconcile_found m t r (get_deployment t.state id)
