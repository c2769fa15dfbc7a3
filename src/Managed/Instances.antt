-- ===== src/Managed/Instances.antt =====
-- Instances: the queries, _start, _stop and _report of pilot/managed_runtime.py.
use agent_capability_forge.Prelude.{
  ℕ, String, Bool, true, false, Option, none, some, List, ◌==◌, if◌then◌else◌, string_eq, select,
}
use agent_capability_forge.Records.{Text}
use agent_capability_forge.Disk.{Outcome, ok, blocked, raised}
use agent_capability_forge.Validation.{empty_text}
use agent_capability_forge.Managed.Log.{append_event, latest, current, values}
use agent_capability_forge.Managed.Defs.{
  Observed, ready, starting, running, stopping, stopped, failed, revoked, Version, Deployment,
  Instance, State, Answer, Runtime, Manager, is_active,
}

-- get_runtime_instances, of one deployment
unfoldable pub instances_of : State → String → List Instance
instances_of s id =
    select (λ (i : Instance). i.deployment_id == id)
      (values (current (λ (i : Instance). i.instance_id) s.instances))

-- _active_instance: the last one in an active state.
unfoldable pub active_instance : State → String → Option Instance
active_instance s id = latest (λ (i : Instance). is_active i.observed_state) (instances_of s id)

-- `instances[-1]`
unfoldable pub last_instance : State → String → Option Instance
last_instance s id = latest (λ (i : Instance). true) (instances_of s id)

abbrev pub append_instance : State → Instance → State
append_instance s i = record s { instances = append_event s.instances i }

-- The events that _append_instance writes, by the state that is observed.
abbrev pub new_instance : Manager → Deployment → Version → Instance
new_instance m x v = record {
  instance_id = m.host.fresh;
  deployment_id = x.deployment_id;
  agent_id = x.agent_id;
  version_id = x.version_id;
  execution_snapshot_identity = v.execution_snapshot_identity;
  observed_state = ready;
  started_at = some m.host.now;
  stopped_at = none;
  failure_reason = none;
  attempt_count = 0;
}

abbrev pub starting_of : Instance → ℕ → Instance
starting_of i attempt = record i { observed_state = starting; attempt_count = attempt }

abbrev pub running_of : Instance → Instance
running_of i = record i { observed_state = running; failure_reason = none }

abbrev pub stopping_of : Instance → Instance
stopping_of i = record i { observed_state = stopping }

abbrev pub stopped_of : Manager → Instance → Instance
stopped_of m i = record i {
  observed_state = stopped;
  stopped_at = some m.host.now;
  failure_reason = none;
}

abbrev pub revoked_of : Manager → Instance → Instance
revoked_of m i = record i { observed_state = revoked; stopped_at = some m.host.now }

-- `result.get("failure_reason") or default`
abbrev pub reason_or : Text → String → Text
reason_or t default = if empty_text t then some default else t

abbrev pub failed_of : Instance → Text → Instance
failed_of i reason = record i { observed_state = failed; failure_reason = reason }

-- The last event of a start: RUNNING where the runtime says so, and else FAILED.
unfoldable pub start_result : State → Instance → Observed → Text → Outcome (Instance × Bool) × State
start_result s i running reason = (ok (running_of i, true), append_instance s (running_of i))
start_result s i other reason =
    let f = failed_of i (reason_or reason "RUNTIME_START_FAILED") in
    (ok (f, false), append_instance s f)

unfoldable pub start_answered :
    State → Instance → Outcome Answer → Outcome (Instance × Bool) × State
start_answered s i (ok a) = start_result s i a.observed_state a.failure_reason
start_answered s i (blocked cs) = (blocked cs, s)
start_answered s i raised = (raised, s)

-- _start of an instance that is there: STARTING is written before the runtime is called.
unfoldable pub start_again :
    State → Version → Runtime → Instance → ℕ → Outcome (Instance × Bool) × State
start_again s v r i attempt =
    start_answered (append_instance s (starting_of i attempt)) (starting_of i attempt)
      (r.start (starting_of i attempt) v)

-- _start of a new instance: READY is written first.
unfoldable pub start_new :
    Manager → State → Deployment → Version → Runtime → Outcome (Instance × Bool) × State
start_new m s x v r =
    start_again (append_instance s (new_instance m x v)) v r (new_instance m x v) 1

unfoldable pub stop_result :
    Manager → State → Instance → Observed → Text → Outcome (Instance × Bool) × State
stop_result m s i stopped reason = (ok (stopped_of m i, true), append_instance s (stopped_of m i))
stop_result m s i other reason =
    let f = failed_of i (reason_or reason "RUNTIME_STOP_FAILED") in
    (ok (f, false), append_instance s f)

unfoldable pub stop_answered :
    Manager → State → Instance → Outcome Answer → Outcome (Instance × Bool) × State
stop_answered m s i (ok a) = stop_result m s i a.observed_state a.failure_reason
stop_answered m s i (blocked cs) = (blocked cs, s)
stop_answered m s i raised = (raised, s)

-- _stop: STOPPING is written before the runtime is called.
unfoldable pub stop_instance :
    Manager → State → Runtime → Instance → Outcome (Instance × Bool) × State
stop_instance m s r i =
    stop_answered m (append_instance s (stopping_of i)) (stopping_of i) (r.stop (stopping_of i))
