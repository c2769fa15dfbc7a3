-- ===== src/Fleet/Switch.antt =====
-- The cases of reconcile in pilot/managed_runtime.py that start, switch, keep or stop an instance.
use agent_capability_forge.Prelude.{
  ◌+◌, ◌≤◌, String, Bool, true, false, none, some, ◌≡◌, refl, sym, ap, subst, arith, ◌==◌, ==_iff,
  string_eq, nat_eq, if_cases, lookup, leb, Bool-cases, inl, inr,
}
use agent_capability_forge.Disk.{Outcome, ok, blocked, raised}
use agent_capability_forge.Managed.{
  Observed, ready, deploying, pending, starting, running, stopping, stopped, failed, revoked,
  unknown, Version, Deployment, Instance, State, Runtime, Manager, is_active, start_max_attempts,
  append_instance, new_instance, start_again, start_new, stop_instance, Diff, Report, report_on,
  report_result, switch_stopped, switch_version, attempts, retry, keep_running, stop_active,
  upgrade_it, start_it, stop_it,
}
use agent_capability_forge.Fleet.Active.{
  now_of, weight, active_count, count-append_new, lookup-append,
}
use agent_capability_forge.Fleet.Moves.{
  IsBounded, IsBounded-append, Steady, start_again-Steady, SteadyAfter, Stops, stop-Stops,
}

-- No deployment has two active instances, and no instance counts more attempts than are allowed.
abbrev pub IsOrderly : State → Type 0
IsOrderly s = ((id : String) → active_count id s ≤ 1) × IsBounded s

pub Steady-IsOrderly : {s t : State} → Steady s t → IsOrderly s → IsOrderly t
Steady-IsOrderly a (one, b) = ((λ id. omega (arith, a.counts id, one id)), a.bounded b)

weight-le_one : (id : String) (i : Instance) → weight id i ≤ 1
unfolding weight
weight-le_one id i = ground arith

weight-other : (id : String) (i : Instance) → (i.deployment_id == id) ≡ false → weight id i ≡ 0
unfolding weight
weight-other id i e = ground (arith, e)

module _ (m : Manager) (s : State) (x : Deployment) (v : Version)
    (new_id : lookup m.host.fresh (now_of s) ≡ none)
    (idle : active_count x.deployment_id s ≡ 0) where
  abbrev ready_state : State
  ready_state = append_instance s (new_instance m x v)

  ready-count : (id : String) → active_count id s ≤ 1 → active_count id ready_state ≤ 1
  ready-count id one =
      let i = new_instance m x v in
      elim (Bool-cases (x.deployment_id == id)) [
        | inl e ↦ omega (
          arith,
          count-append_new s i id new_id,
          weight-le_one id i,
          idle,
          ap (λ z. active_count z s) ((==_iff x.deployment_id id).0 e),
        )
        | inr e ↦ omega (arith, count-append_new s i id new_id, weight-other id i e, one)
      ]

  start_new-IsOrderly : (r : Runtime) → IsOrderly s → IsOrderly (start_new m s x v r).1
  unfolding start_new
  start_new-IsOrderly r (one, b) =
      Steady-IsOrderly
        (start_again-Steady ready_state v r (new_instance m x v) 1
          (lookup-append s (new_instance m x v)) refl (omega arith))
        ((λ id. ready-count id (one id)), IsBounded-append s (new_instance m x v) (omega arith) b)

-- The state that a report leaves.
abbrev pub LeavesOrderly : State → Outcome Report × State → Type 0
LeavesOrderly s o = IsOrderly s → IsOrderly o.1

report_result-state :
    (x : Deployment) (d : Diff) (o : Outcome (Instance × Bool) × State)
    → (report_result x d o).1 ≡ o.1
unfolding report_result report_on
report_result-state x d (ok (i, good), t) = refl
report_result-state x d (blocked cs, t) = refl
report_result-state x d (raised, t) = refl

Steady-Leaves :
    (x : Deployment) (d : Diff) (s : State) (o : Outcome (Instance × Bool) × State)
    → SteadyAfter s o
    → LeavesOrderly s (report_result x d o)
Steady-Leaves x d s o a h = subst IsOrderly (sym (report_result-state x d o)) (Steady-IsOrderly a h)

-- The active instance that is found, and what a stop of it does.
Stops-Steady :
    (s : State) (i : Instance) (o : Outcome (Instance × Bool) × State)
    → Stops s i o
    → SteadyAfter s o
Stops-Steady s i (ok (j, true), t) h = h.0
Stops-Steady s i (ok (j, false), t) h = h
Stops-Steady s i (blocked cs, t) h = h
Stops-Steady s i (raised, t) h = h

module _ (m : Manager) (x : Deployment) (v : Version) (r : Runtime) where
  abbrev IsFresh : State → Type 0
  IsFresh s = lookup m.host.fresh (now_of s) ≡ none

  pub start_new-Leaves :
      (s : State) (d : Diff)
      → IsFresh s
      → active_count x.deployment_id s ≡ 0
      → LeavesOrderly s (report_result x d (start_new m s x v r))
  start_new-Leaves s d new_id idle h =
      subst IsOrderly (sym (report_result-state x d (start_new m s x v r)))
        (start_new-IsOrderly m s x v new_id idle r h)

  switch_stopped-Leaves :
      (s : State) (i : Instance) (o : Outcome (Instance × Bool) × State)
      → IsFresh s
      → (i.deployment_id == x.deployment_id) ≡ true
      → Stops s i o
      → LeavesOrderly s (switch_stopped m x v r o)
  unfolding switch_stopped report_on
  switch_stopped-Leaves s i (ok (j, true), t) new_id own h (one, b) =
      start_new-Leaves t upgrade_it (h.0.unused m.host.fresh new_id)
        (omega (
          arith,
          h.1,
          one i.deployment_id,
          ap (λ z. active_count z t) ((==_iff i.deployment_id x.deployment_id).0 own),
        ))
        (Steady-IsOrderly h.0 (one, b))
  switch_stopped-Leaves s i (ok (j, false), t) new_id own h b = Steady-IsOrderly h b
  switch_stopped-Leaves s i (blocked cs, t) new_id own h b = Steady-IsOrderly h b
  switch_stopped-Leaves s i (raised, t) new_id own h b = Steady-IsOrderly h b

  -- An active instance of the deployment.
  module _ (s : State) (i : Instance) (new_id : IsFresh s)
      (there : lookup i.instance_id (now_of s) ≡ some i)
      (own : (i.deployment_id == x.deployment_id) ≡ true)
      (act : is_active i.observed_state ≡ true) where
    stopped_switch : LeavesOrderly s (switch_stopped m x v r (stop_instance m s r i))
    stopped_switch =
        switch_stopped-Leaves s i (stop_instance m s r i) new_id own (stop-Stops m s r i there act)

    pub switch_version-Leaves :
        (o : Observed) → is_active o ≡ true → LeavesOrderly s (switch_version m s x v r i o)
    unfolding switch_version report_on
    switch_version-Leaves running e h = stopped_switch h
    switch_version-Leaves ready e h = stopped_switch h
    switch_version-Leaves starting e h = stopped_switch h
    switch_version-Leaves stopping e h = h
    switch_version-Leaves stopped e h = cc
    switch_version-Leaves failed e h = h
    switch_version-Leaves revoked e h = h
    switch_version-Leaves deploying e h = h
    switch_version-Leaves pending e h = h
    switch_version-Leaves unknown e h = h

    retry-Leaves : LeavesOrderly s (retry s x v r i)
    unfolding retry report_on
    retry-Leaves h =
        if_cases {A = Outcome Report × State} (λ o. IsOrderly o.1)
          (leb start_max_attempts (attempts i)) (λ e. h)
          (λ e.
            Steady-Leaves x start_it s (start_again s v r i (attempts i + 1))
              (start_again-Steady s v r i (attempts i + 1) there act (ground (arith, e))) h)

    pub keep_running-Leaves :
        (o : Observed) → is_active o ≡ true → LeavesOrderly s (keep_running m s x v r i o)
    unfolding keep_running report_on
    keep_running-Leaves stopped e h = cc
    keep_running-Leaves running e h = h
    keep_running-Leaves failed e h = retry-Leaves h
    keep_running-Leaves ready e h = h
    keep_running-Leaves starting e h = h
    keep_running-Leaves stopping e h = h
    keep_running-Leaves revoked e h = h
    keep_running-Leaves deploying e h = h
    keep_running-Leaves pending e h = h
    keep_running-Leaves unknown e h = h

    stop-Leaves : LeavesOrderly s (report_result x stop_it (stop_instance m s r i))
    stop-Leaves =
        Steady-Leaves x stop_it s (stop_instance m s r i)
          (Stops-Steady s i (stop_instance m s r i) (stop-Stops m s r i there act))

    pub stop_active-Leaves : (o : Observed) → LeavesOrderly s (stop_active m s x r i o)
    unfolding stop_active report_on
    stop_active-Leaves stopped h = h
    stop_active-Leaves failed h = h
    stop_active-Leaves running h = stop-Leaves h
    stop_active-Leaves starting h = stop-Leaves h
    stop_active-Leaves ready h = stop-Leaves h
    stop_active-Leaves stopping h = h
    stop_active-Leaves revoked h = h
    stop_active-Leaves deploying h = h
    stop_active-Leaves pending h = h
    stop_active-Leaves unknown h = h
