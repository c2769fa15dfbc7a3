-- ===== src/Fleet/Terminal.antt =====
-- A deployment whose desired state is REVOKED, under the operations of pilot/managed_runtime.py.
use agent_capability_forge.Prelude.{
  String, false, not, ◌||◌, some, ◌≡◌, refl, sym, ◌∙◌, subst, arith, ◌==◌, ◌!=◌, ==_iff, string_eq,
  Bool-cases, inl, inr, if_cases, if◌then◌else◌,
}
use agent_capability_forge.Code.{invalid_desired_state, revoked_terminal, deployment_not_found}
use agent_capability_forge.Disk.{
  Outcome, ok, blocked, raised, refuse_if, or_refuse, >>=-eq-ok, ok-eq-ok, refuse_if-ok,
  or_refuse-ok,
}
use agent_capability_forge.Managed.{
  append_event, Desired, run, revoke, Deployment, State, Site, Manager, desired_of, same_desired,
  latest_deployment, get_deployment, desired_checks, write_desired, set_desired_state, retargeted,
  retarget, upgrade_checks, target_checks,
}
use agent_capability_forge.Fleet.Logs.{latest-true, latest-append_other}

-- The desired state that a deployment has now is REVOKED.
abbrev pub IsWithdrawn : String → State → Type 0
IsWithdrawn id s = (x : Deployment) × (latest_deployment s id ≡ some x) × (x.desired_state ≡ revoke)

desired_checks-ok :
    (s : State) (k want : String) (x : Deployment) (d : Desired)
    → desired_checks s k want ≡ ok (x, d)
    → (latest_deployment s k ≡ some x)
      × ((if same_desired x.desired_state d then false else same_desired x.desired_state revoke)
          ≡ false)
unfolding desired_checks get_deployment
desired_checks-ok s k want x d e =
    let (d', e1, f1) = >>=-eq-ok (or_refuse (desired_of want) invalid_desired_state) _ e in
    let (x', e2, f2) = >>=-eq-ok (or_refuse (latest_deployment s k) deployment_not_found) _ f1 in
    let (_, e3, f3) =
      >>=-eq-ok
        (refuse_if
          (if same_desired x'.desired_state d' then false else same_desired x'.desired_state revoke)
          revoked_terminal)
        _ f2 in
    subst
      (λ (p : Deployment × Desired).
        (latest_deployment s k ≡ some p.0)
        × ((if same_desired p.0.desired_state p.1
              then false
              else same_desired p.0.desired_state revoke)
            ≡ false))
      (ok-eq-ok f3)
      (
        or_refuse-ok (latest_deployment s k) deployment_not_found e2,
        refuse_if-ok _ revoked_terminal e3,
      )

pub upgrade_checks-ok :
    (m : Manager) (t : Site) (k target : String) (x : Deployment)
    → upgrade_checks m t k target ≡ ok x
    → (latest_deployment t.state k ≡ some x) × (same_desired x.desired_state revoke ≡ false)
unfolding upgrade_checks get_deployment
upgrade_checks-ok m t k target x e =
    let (y, e1, f1) =
      >>=-eq-ok (or_refuse (latest_deployment t.state k) deployment_not_found) _ e in
    let (_, e2, f2) =
      >>=-eq-ok (refuse_if (same_desired y.desired_state revoke) revoked_terminal) _ f1 in
    let (_, e3, f3) = >>=-eq-ok (target_checks m t y target) _ f2 in
    subst
      (λ (p : Deployment).
        (latest_deployment t.state k ≡ some p) × (same_desired p.desired_state revoke ≡ false))
      (ok-eq-ok f3)
      (
        or_refuse-ok (latest_deployment t.state k) deployment_not_found e1,
        refuse_if-ok (same_desired y.desired_state revoke) revoked_terminal e2,
      )

module _ (id : String) (s : State) (over : IsWithdrawn id s) where
  same_one :
      (x : Deployment)
      → latest_deployment s id ≡ some x
      → same_desired x.desired_state revoke ≡ false
      → ⊥
  same_one x e d = let (y, f, w) = over in cc (e, f, w, d)

  -- A deployment that is not REVOKED is another one.
  pub found-other :
      (k : String) (x : Deployment)
      → latest_deployment s k ≡ some x
      → same_desired x.desired_state revoke ≡ false
      → (x.deployment_id == id) ≡ false
  unfolding latest_deployment
  found-other k x e d =
      elim (Bool-cases (x.deployment_id == id)) as (λ _. (x.deployment_id == id) ≡ false) [
        | inl own ↦
            let there =
              (==_iff x.deployment_id k).0
                (latest-true (λ (y : Deployment). y.deployment_id == k) s.deployments x e) in
            absurd (
              same_one x
                (subst (λ j. latest_deployment s j ≡ some x)
                  (sym there ∙ (==_iff x.deployment_id id).0 own) e)
                d)
        | inr other ↦ other
      ]

  pub append-IsWithdrawn :
      (y : Deployment)
      → (y.deployment_id == id) ≡ false
      → IsWithdrawn id (record s { deployments = append_event s.deployments y })
  unfolding latest_deployment
  append-IsWithdrawn y other =
      let (x, e, d) = over in
      (
        x,
        latest-append_other (λ (z : Deployment). z.deployment_id == id) s.deployments y other ∙ e,
        d,
      )

  write_desired-IsWithdrawn :
      (k : String) (o : Outcome (Deployment × Desired))
      → ((x : Deployment) (want : Desired)
          → o ≡ ok (x, want)
          → (latest_deployment s k ≡ some x)
            × ((if same_desired x.desired_state want
                  then false
                  else same_desired x.desired_state revoke)
                ≡ false))
      → IsWithdrawn id (write_desired o s).1
  unfolding write_desired
  write_desired-IsWithdrawn k (ok (x, want)) h =
      let (e, d) = h x want refl in
      elim (Bool-cases (same_desired x.desired_state want))
        as (λ _. IsWithdrawn id (write_desired (ok (x, want)) s).1) [
          | inl same ↦ rw same over
          | inr differs ↦ rw differs (
              append-IsWithdrawn (record x { desired_state = want })
                (found-other k x e (ground (arith, d, differs))))
        ]
  write_desired-IsWithdrawn k (blocked cs) h = over
  write_desired-IsWithdrawn k raised h = over

  pub set_desired_state-IsWithdrawn :
      (k want : String) → IsWithdrawn id (set_desired_state s k want).1
  unfolding set_desired_state get_deployment
  set_desired_state-IsWithdrawn k want =
      write_desired-IsWithdrawn k (desired_checks s k want)
        (λ x d e. desired_checks-ok s k want x d e)

  pub retarget-IsWithdrawn :
      (k target : String) (x : Deployment)
      → latest_deployment s k ≡ some x
      → same_desired x.desired_state revoke ≡ false
      → IsWithdrawn id (retarget s x target)
  unfolding retarget
  retarget-IsWithdrawn k target x e d =
      if_cases (IsWithdrawn id) (x.version_id != target || not (same_desired x.desired_state run))
        (λ _. append-IsWithdrawn (retargeted x target) (found-other k x e d)) (λ _. over)
