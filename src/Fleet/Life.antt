-- ===== src/Fleet/Life.antt =====
-- The calls of pilot/managed_runtime.py in any order, as steps of the state root and its registries.
use agent_capability_forge.Prelude.{none, ◌≤◌, String, none, some, [], ◌≡◌, lookup, arith}
use agent_capability_forge.Records.{Text}
use agent_capability_forge.Registry.{World}
use agent_capability_forge.Managed.{
  latest_deployment, current, current_from, Instance, State, Site, Runtime, Manager, Loader,
  Publication, create_version_by, version_checks, deployment_checks, create_deployment,
  set_desired_state, reconcile, upgrade, upgrade_checks, Withdrawal, revoke_version, put_world,
  at_root, start_max_attempts,
}
use agent_capability_forge.Fleet.Active.{now_of, total, active_count}
use agent_capability_forge.Fleet.Switch.{IsOrderly}
use agent_capability_forge.Fleet.Moves.{AllBounded-lookup}
use agent_capability_forge.Fleet.OneActive.{reconcile-IsOrderly}
use agent_capability_forge.Fleet.Unmoved.{
  publish-instances, deploy-instances, set-instances, withdraw-instances, same-IsOrderly,
  upgraded-IsOrderly,
}

-- The identifier that uuid4 gives is not that of an instance in the state.
abbrev pub IsFresh : Manager → State → Type 0
IsFresh m s = lookup m.host.fresh (now_of s) ≡ none

-- One call, by whatever host, with whatever runtime, where uuid4 gives a deployment an identifier
-- of its own too; or a change of a registry by others.
pub data Step : Site → Site → Type 0 where
  published :
      (m : Manager) (load : Loader) (p : Publication) (t : Site)
      → Step t (record t { state = (create_version_by m load t p).1 })
  deployed :
      (id : String) (agent_id : Text) (version_id desired : String) (t : Site)
      → latest_deployment t.state id ≡ none
      → Step t (record t { state = (create_deployment id t.state agent_id version_id desired).1 })
  asked :
      (id desired : String) (t : Site)
      → Step t (record t { state = (set_desired_state t.state id desired).1 })
  upgraded :
      (m : Manager) (r : Runtime) (id target : String) (t : Site)
      → IsFresh m t.state
      → Step t (record t { state = (upgrade m t r id target).1 })
  reconciled :
      (m : Manager) (r : Runtime) (id : String) (t : Site)
      → IsFresh m t.state
      → Step t (record t { state = (reconcile m t r id).1 })
  version_withdrawn : (m : Manager) (q : Withdrawal) (t : Site) → Step t (revoke_version m t q).1
  registry_changed : (root : String) (w : World) (t : Site) → Step t (put_world t root w)

-- The sites that the calls reach from a state root without files.
pub data Reach : Site → Type 0 where
  begun :
      (registries : String → World)
      → Reach (record {
        state = record { versions = []; deployments = []; instances = [] };
        registries = registries;
      })
  then_step : {t u : Site} → Reach t → Step t u → Reach u

step-IsOrderly : {t u : Site} → Step t u → IsOrderly t.state → IsOrderly u.state
unfolding create_version_by create_deployment upgrade put_world
step-IsOrderly (published m load p t) =
    same-IsOrderly t.state (create_version_by m load t p).1
      (publish-instances t.state (version_checks m load (at_root t p.registry_root) p))
step-IsOrderly (deployed id a v desired t new_id) =
    same-IsOrderly t.state (create_deployment id t.state a v desired).1
      (deploy-instances id a v (deployment_checks t.state a v desired) t.state)
step-IsOrderly (asked id desired t) =
    same-IsOrderly t.state (set_desired_state t.state id desired).1
      (set-instances t.state id desired)
step-IsOrderly (upgraded m r id target t new_id) =
    upgraded-IsOrderly m t r id target (upgrade_checks m t id target) new_id
step-IsOrderly (reconciled m r id t new_id) = reconcile-IsOrderly m t r id new_id
step-IsOrderly (version_withdrawn m q t) =
    same-IsOrderly t.state (revoke_version m t q).1.state (withdraw-instances m t q)
step-IsOrderly (registry_changed root w t) = λ h. h

Reach-IsOrderly : {t : Site} → Reach t → IsOrderly t.state
unfolding current current_from total
Reach-IsOrderly (begun registries) = ((λ id. omega arith), tt)
Reach-IsOrderly (then_step before step) = step-IsOrderly step (Reach-IsOrderly before)

-- After any sequence of calls from an empty state root, whatever the runtimes answer and the
-- registries hold, no deployment has more than one active instance, if each instance is given an
-- identifier of its own.
pub Reach-active_count : {t : Site} → Reach t → (id : String) → active_count id t.state ≤ 1
Reach-active_count way id = (Reach-IsOrderly way).0 id

-- After any sequence of calls from an empty state root, the latest event of every instance counts
-- at most START_MAX_ATTEMPTS start attempts, if each instance is given an identifier of its own.
pub Reach-attempts :
    {t : Site}
    → Reach t
    → (k : String) (i : Instance) → lookup k (now_of t.state) ≡ some i
    → i.attempt_count ≤ start_max_attempts
Reach-attempts way k i e = AllBounded-lookup k i _ e (Reach-IsOrderly way).1
