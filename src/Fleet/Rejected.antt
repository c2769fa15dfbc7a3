-- ===== src/Fleet/Rejected.antt =====
-- reconcile of pilot/managed_runtime.py where the version may not run.
use agent_capability_forge.Prelude.{String, true, ◌||◌, some, ◌≡◌, refl, sym, ◌∙◌, ap, arith}
use agent_capability_forge.Disk.{Outcome, ok}
use agent_capability_forge.Managed.{
  Desired, run, stop, revoke, Version, Deployment, Instance, Site, Answer, Runtime, Manager,
  stop_instance, stop_active, reconcile_stopped, revoke_last, reconcile_revoked, reconcile_running,
  reconcile_desired, reconcile_version, reconcile_found, reconcile, latest_version, get_deployment,
  is_revoked_version, snapshot_binding_violation,
}

module _ (m : Manager) (t : Site) (x : Deployment) (v : Version) (r : Runtime)
    (start : Instance → Version → Outcome Answer) where
  abbrev other_start : Runtime
  other_start = record r { start = start }

  running-rejects :
      (is_revoked_version t v || snapshot_binding_violation m v) ≡ true
      → reconcile_running m t x v other_start ≡ reconcile_running m t x v r
  unfolding reconcile_running
  running-rejects bad = ground (arith, bad)

  desired-rejects :
      (is_revoked_version t v || snapshot_binding_violation m v) ≡ true
      → (want : Desired)
      → reconcile_desired m t x v other_start want ≡ reconcile_desired m t x v r want
  unfolding reconcile_desired reconcile_stopped stop_active stop_instance reconcile_revoked
      revoke_last
  desired-rejects bad run = running-rejects bad
  desired-rejects bad stop = refl
  desired-rejects bad revoke = refl

-- The runtime is never asked to start a version that is revoked, or that does not bind its
-- snapshot: for a deployment of such a version reconcile does the same, whatever the runtime's
-- start would do.
pub reconcile-rejects :
    (m : Manager) (t : Site) (r : Runtime) (id : String) (x : Deployment) (v : Version)
    (start : Instance → Version → Outcome Answer)
    → get_deployment t.state id ≡ ok x
    → latest_version t.state x.agent_id x.version_id ≡ some v
    → (is_revoked_version t v || snapshot_binding_violation m v) ≡ true
    → reconcile m t (record r { start = start }) id ≡ reconcile m t r id
unfolding reconcile reconcile_found reconcile_version
reconcile-rejects m t r id x v start e f bad =
    ap (reconcile_found m t (record r { start = start })) e
    ∙ ap (reconcile_version m t x (record r { start = start })) f
    ∙ desired-rejects m t x v r start bad x.desired_state
    ∙ sym (ap (reconcile_found m t r) e ∙ ap (reconcile_version m t x r) f)
