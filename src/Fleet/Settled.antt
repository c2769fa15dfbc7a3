-- ===== src/Fleet/Settled.antt =====
-- What a pass of reconcile in pilot/managed_runtime.py that answers HEALTHY leaves behind.
use agent_capability_forge.Prelude.{
  ℕ, ◌+◌, Bool, true, false, Option, none, some, ◌≡◌, refl, ◌==◌, ◌!=◌, ne-false_iff, beq_refl,
  string_eq, nat_eq, if_cases, leb, lookup,
}
use agent_capability_forge.Records.{Text}
use agent_capability_forge.Disk.{Outcome, ok, blocked, raised}
use agent_capability_forge.Managed.{
  Observed, ready, deploying, pending, starting, running, stopping, stopped, failed, revoked,
  unknown, Version, Deployment, Instance, State, Site, Answer, Runtime, Manager, start_max_attempts,
  active_instance, append_instance, new_instance, starting_of, running_of, start_result,
  start_answered, start_again, start_new, stop_instance, Diff, healthy, Report, report_on,
  report_result, switch_stopped, switch_version, attempts, retry, keep_running, run_active,
  reconcile_running, is_revoked_version, snapshot_binding_violation, start_it, upgrade_it,
}
use agent_capability_forge.Fleet.Active.{now_of, lookup-append, active-now}

-- An instance of the version that is wanted runs.
abbrev pub RunsNow : Deployment → State → Type 0
RunsNow x s =
    (i : Instance) × (lookup i.instance_id (now_of s) ≡ some i)
    × ((i.deployment_id == x.deployment_id) ≡ true)
    × ((i.version_id != x.version_id) ≡ false)
    × (i.observed_state ≡ running)

abbrev Started : Deployment → Outcome (Instance × Bool) × State → Type 0
Started x (ok (i, true), t) = RunsNow x t
Started x (ok (i, false), t) = Unit
Started x (blocked cs, t) = Unit
Started x (raised, t) = Unit

-- Where the report says HEALTHY, an instance runs.
abbrev pub Runs : Deployment → Outcome Report × State → Type 0
Runs x (ok rep, t) = rep.verdict ≡ healthy → RunsNow x t
Runs x (blocked cs, t) = Unit
Runs x (raised, t) = Unit

report_result-Runs :
    (x : Deployment) (d : Diff) (o : Outcome (Instance × Bool) × State)
    → Started x o
    → Runs x (report_result x d o)
unfolding report_result report_on
report_result-Runs x d (ok (i, true), t) h = λ _. h
report_result-Runs x d (ok (i, false), t) h = λ e. cc
report_result-Runs x d (blocked cs, t) h = tt
report_result-Runs x d (raised, t) h = tt

module _ (x : Deployment) (s : State) (i : Instance)
    (own : (i.deployment_id == x.deployment_id) ≡ true)
    (fits : (i.version_id != x.version_id) ≡ false) where
  start_result-Started : (o : Observed) (t : Text) → Started x (start_result s i o t)
  unfolding start_result
  start_result-Started running t = (running_of i, lookup-append s (running_of i), own, fits, refl)
  start_result-Started ready t = tt
  start_result-Started deploying t = tt
  start_result-Started pending t = tt
  start_result-Started starting t = tt
  start_result-Started stopping t = tt
  start_result-Started stopped t = tt
  start_result-Started failed t = tt
  start_result-Started revoked t = tt
  start_result-Started unknown t = tt

  start_answered-Started : (a : Outcome Answer) → Started x (start_answered s i a)
  unfolding start_answered
  start_answered-Started (ok a) = start_result-Started a.observed_state a.failure_reason
  start_answered-Started (blocked cs) = tt
  start_answered-Started raised = tt

start_again-Started :
    (x : Deployment) (s : State) (v : Version) (r : Runtime) (i : Instance) (n : ℕ)
    → (i.deployment_id == x.deployment_id) ≡ true
    → (i.version_id != x.version_id) ≡ false
    → Started x (start_again s v r i n)
unfolding start_again
start_again-Started x s v r i n own fits =
    let j = starting_of i n in
    start_answered-Started x (append_instance s j) j own fits (r.start j v)

module _ (m : Manager) (x : Deployment) (v : Version) (r : Runtime) (s : State) where
  start_new-Runs : (t : State) (d : Diff) → Runs x (report_result x d (start_new m t x v r))
  unfolding start_new
  start_new-Runs t d =
      let i = new_instance m x v in
      report_result-Runs x d (start_new m t x v r) (
        start_again-Started x (append_instance t i) v r i 1 (beq_refl x.deployment_id)
          ((ne-false_iff x.version_id x.version_id).1 refl))

  switch_stopped-Runs : (o : Outcome (Instance × Bool) × State) → Runs x (switch_stopped m x v r o)
  unfolding switch_stopped report_on
  switch_stopped-Runs (ok (i, true), t) = start_new-Runs t upgrade_it
  switch_stopped-Runs (ok (i, false), t) = λ e. cc
  switch_stopped-Runs (blocked cs, t) = tt
  switch_stopped-Runs (raised, t) = tt

  switch_version-Runs : (i : Instance) (o : Observed) → Runs x (switch_version m s x v r i o)
  unfolding switch_version report_on
  switch_version-Runs i running = switch_stopped-Runs (stop_instance m s r i)
  switch_version-Runs i ready = switch_stopped-Runs (stop_instance m s r i)
  switch_version-Runs i starting = switch_stopped-Runs (stop_instance m s r i)
  switch_version-Runs i stopping = λ e. cc
  switch_version-Runs i stopped = start_new-Runs s upgrade_it
  switch_version-Runs i failed = λ e. cc
  switch_version-Runs i revoked = λ e. cc
  switch_version-Runs i deploying = λ e. cc
  switch_version-Runs i pending = λ e. cc
  switch_version-Runs i unknown = λ e. cc

  module _ (i : Instance) (there : lookup i.instance_id (now_of s) ≡ some i)
      (own : (i.deployment_id == x.deployment_id) ≡ true)
      (fits : (i.version_id != x.version_id) ≡ false) where
    retry-Runs : Runs x (retry s x v r i)
    unfolding retry report_on
    retry-Runs =
        if_cases {A = Outcome Report × State} (Runs x) (leb start_max_attempts (attempts i))
          (λ _ e. cc)
          (λ _.
            report_result-Runs x start_it (start_again s v r i (attempts i + 1))
              (start_again-Started x s v r i (attempts i + 1) own fits))

    keep_running-Runs : (o : Observed) → i.observed_state ≡ o → Runs x (keep_running m s x v r i o)
    unfolding keep_running report_on
    keep_running-Runs stopped e = start_new-Runs s start_it
    keep_running-Runs running e = λ _. (i, there, own, fits, e)
    keep_running-Runs failed e = retry-Runs
    keep_running-Runs ready e = λ f. cc
    keep_running-Runs starting e = λ f. cc
    keep_running-Runs stopping e = λ f. cc
    keep_running-Runs revoked e = λ f. cc
    keep_running-Runs deploying e = λ f. cc
    keep_running-Runs pending e = λ f. cc
    keep_running-Runs unknown e = λ f. cc

  run_active-Runs :
      (o : Option Instance)
      → active_instance s x.deployment_id ≡ o
      → Runs x (run_active m s x v r o)
  unfolding run_active
  run_active-Runs none e = start_new-Runs s start_it
  run_active-Runs (some i) e =
      let (there, own, act) = active-now s x.deployment_id i e in
      if_cases {A = Outcome Report × State} (Runs x) (i.version_id != x.version_id)
        (λ _. switch_version-Runs i i.observed_state)
        (λ fits. keep_running-Runs i there own fits i.observed_state refl)

pub running-Runs :
    (m : Manager) (t : Site) (x : Deployment) (v : Version) (r : Runtime)
    → Runs x (reconcile_running m t x v r)
unfolding reconcile_running report_on
running-Runs m t x v r =
    if_cases {A = Outcome Report × State} (Runs x) (is_revoked_version t v) (λ _ e. cc)
      (λ _.
        if_cases {A = Outcome Report × State} (Runs x) (snapshot_binding_violation m v) (λ _ e. cc)
          (λ _. run_active-Runs m x v r t.state (active_instance t.state x.deployment_id) refl))
