-- ===== src/Fleet/Idle.antt =====
-- The passes of reconcile in pilot/managed_runtime.py that want no instance, and what they leave.
use agent_capability_forge.Prelude.{
  ◌≤◌, String, Bool, true, false, Option, none, some, ◌≡◌, refl, sym, ◌∙◌, ap, subst, arith, ◌==◌,
  ==_iff, string_eq, ◌⊎◌, inl, inr,
}
use agent_capability_forge.Disk.{Outcome, ok, blocked, raised}
use agent_capability_forge.Managed.{
  Observed, ready, deploying, pending, starting, running, stopping, stopped, failed, revoked,
  unknown, Deployment, Instance, State, Runtime, Manager, is_active, active_instance, stop_instance,
  no_op, healthy, Report, report_on, report_result, stop_active, reconcile_stopped, revoke_stopped,
  revoke_idle, revoke_last, reconcile_revoked, stop_it,
}
use agent_capability_forge.Fleet.Active.{active_count, active-now}
use agent_capability_forge.Fleet.Moves.{Stops, stop-Stops}
use agent_capability_forge.Fleet.Unique.{count-none}

-- The verdict of the report is HEALTHY.
abbrev pub IsHealthy : Outcome Report × State → Type 0
IsHealthy (ok rep, s) = rep.verdict ≡ healthy
IsHealthy (blocked cs, s) = ⊥
IsHealthy (raised, s) = ⊥

-- A report NO-OP and HEALTHY, and the state `s` as it was.
abbrev pub IsQuiet : State → Outcome Report × State → Type 0
IsQuiet s o = (rep : Report) × (o ≡ (ok rep, s)) × (rep.diff ≡ no_op) × (rep.verdict ≡ healthy)

pub report_no_op :
    (s : State) (x : Deployment) (i : Option Instance)
    → IsQuiet s (report_on s x no_op healthy false i)
unfolding report_on
report_no_op s x i = (_, refl, refl, refl)

-- No active instance but perhaps one that failed.
abbrev pub IsIdle : Deployment → State → Type 0
IsIdle x s =
    (active_instance s x.deployment_id ≡ none)
    ⊎ ((i : Instance) × (active_instance s x.deployment_id ≡ some i) × (i.observed_state ≡ failed))

module _ (m : Manager) (x : Deployment) (r : Runtime) (s : State) where
  stopped-IsIdle :
      (i : Instance) (o : Outcome (Instance × Bool) × State)
      → (i.deployment_id == x.deployment_id) ≡ true
      → active_count i.deployment_id s ≤ 1
      → Stops s i o
      → IsHealthy (report_result x stop_it o)
      → IsIdle x (report_result x stop_it o).1
  unfolding report_result report_on
  stopped-IsIdle i (ok (j, true), t) own one h e = inl (
      subst (λ k. active_instance t k ≡ none) ((==_iff i.deployment_id x.deployment_id).0 own)
        (count-none t i.deployment_id (omega (arith, h.1, one))))
  stopped-IsIdle i (ok (j, false), t) own one h e = cc
  stopped-IsIdle i (blocked cs, t) own one h e = elim e [ ]
  stopped-IsIdle i (raised, t) own one h e = elim e [ ]

  module _ (one : (id : String) → active_count id s ≤ 1) (i : Instance)
      (found : active_instance s x.deployment_id ≡ some i) where
    stop_now-IsIdle :
        IsHealthy (report_result x stop_it (stop_instance m s r i))
        → IsIdle x (report_result x stop_it (stop_instance m s r i)).1
    stop_now-IsIdle =
        let (there, own, act) = active-now s x.deployment_id i found in
        stopped-IsIdle i (stop_instance m s r i) own (one i.deployment_id)
          (stop-Stops m s r i there act)

    stop_active-IsIdle :
        (o : Observed)
        → i.observed_state ≡ o
        → IsHealthy (stop_active m s x r i o)
        → IsIdle x (stop_active m s x r i o).1
    unfolding stop_active report_on
    stop_active-IsIdle stopped e h =
        let (there, own, act) = active-now s x.deployment_id i found in
        absurd (not_active (sym act ∙ ap is_active e))
      where
        not_active : true ≡ false → ⊥
        not_active e = cc
    stop_active-IsIdle failed e h = inr (i, found, e)
    stop_active-IsIdle running e h = stop_now-IsIdle h
    stop_active-IsIdle starting e h = stop_now-IsIdle h
    stop_active-IsIdle ready e h = stop_now-IsIdle h
    stop_active-IsIdle stopping e h = cc
    stop_active-IsIdle revoked e h = cc
    stop_active-IsIdle deploying e h = cc
    stop_active-IsIdle pending e h = cc
    stop_active-IsIdle unknown e h = cc

  pub stop-IsIdle :
      ((id : String) → active_count id s ≤ 1)
      → (o : Option Instance) → active_instance s x.deployment_id ≡ o
      → IsHealthy (reconcile_stopped m s x r o)
      → IsIdle x (reconcile_stopped m s x r o).1
  unfolding reconcile_stopped report_on
  stop-IsIdle one none e h = inl e
  stop-IsIdle one (some i) e h = stop_active-IsIdle one i e i.observed_state refl h

  pub idle-IsQuiet :
      IsIdle x s → IsQuiet s (reconcile_stopped m s x r (active_instance s x.deployment_id))
  unfolding reconcile_stopped stop_active
  idle-IsQuiet (inl e) =
      subst (λ o. IsQuiet s (reconcile_stopped m s x r o)) (sym e) (report_no_op s x none)
  idle-IsQuiet (inr (i, e, f)) =
      subst (λ o. IsQuiet s (reconcile_stopped m s x r o)) (sym e)
        (subst (λ o. IsQuiet s (stop_active m s x r i o)) (sym f) (report_no_op s x (some i)))

  revoke_stopped-not :
      (o : Outcome (Instance × Bool) × State) → IsHealthy (revoke_stopped m x o) → ⊥
  unfolding revoke_stopped report_on
  revoke_stopped-not (ok (i, true), t) h = cc
  revoke_stopped-not (ok (i, false), t) h = cc
  revoke_stopped-not (blocked cs, t) h = h
  revoke_stopped-not (raised, t) h = h

  revoke_last-not : (i : Instance) (o : Observed) → IsHealthy (revoke_last m s x r i o) → ⊥
  unfolding revoke_last revoke_idle report_on
  revoke_last-not i stopped h = cc
  revoke_last-not i failed h = cc
  revoke_last-not i ready h = cc
  revoke_last-not i revoked h = cc
  revoke_last-not i running h = revoke_stopped-not (stop_instance m s r i) h
  revoke_last-not i starting h = revoke_stopped-not (stop_instance m s r i) h
  revoke_last-not i stopping h = cc
  revoke_last-not i deploying h = cc
  revoke_last-not i pending h = cc
  revoke_last-not i unknown h = cc

  pub revoke-not : (o : Option Instance) → IsHealthy (reconcile_revoked m s x r o) → ⊥
  unfolding reconcile_revoked report_on
  revoke-not none h = cc
  revoke-not (some i) h = revoke_last-not i i.observed_state h
