-- ===== src/Fleet/Unmoved.antt =====
-- The operations of pilot/managed_runtime.py that write no event of an instance.
use agent_capability_forge.Prelude.{
  String, not, ◌||◌, Option, none, some, List, [], ◌∷◌, ◌≡◌, refl, sym, ◌∙◌, subst, ◌!=◌, string_eq,
  option_eq, if_cases, lookup,
}
use agent_capability_forge.Records.{Text, Revocation}
use agent_capability_forge.Disk.{Outcome, ok, blocked, raised, Disk}
use agent_capability_forge.Revoke.{revoke_authority}
use agent_capability_forge.Managed.{
  Desired, Version, Deployment, State, Site, Runtime, Manager, publish_version, publish_checked,
  latest_version, same_content_as, deployment_for_agent, write_deployment, deploy_checked,
  write_desired, desired_checks, set_desired_state, retarget, upgrade_checked, to_revoke, continue,
  revoke_deployments, answer_version, withdraw_answered, withdraw_found, revoke_version,
  version_to_revoke, Withdrawal, request_of, put_world, at_root, append_event, same_intent,
  same_desired, deployments_now, withdrawn_of, run,
}
use agent_capability_forge.Fleet.Active.{now_of}
use agent_capability_forge.Fleet.Switch.{IsOrderly}
use agent_capability_forge.Fleet.OneActive.{reconcile-IsOrderly}

pub publish-instances :
    (s : State) (o : Outcome Version) → (publish_checked o s).1.instances ≡ s.instances
unfolding publish_checked publish_version
publish-instances s (ok v) = publish_one (latest_version s v.agent_id v.version_id)
  where
    publish_one : (u : Option Version) → (publish_version v u s).1.instances ≡ s.instances
    publish_one none = refl
    publish_one (some u) =
        if_cases {A = Outcome Version × State} (λ o. o.1.instances ≡ s.instances)
          (same_content_as u v) (λ _. refl) (λ _. refl)
publish-instances s (blocked cs) = refl
publish-instances s raised = refl

pub deploy-instances :
    (id : String) (a : Text) (v : String) (o : Outcome Desired) (s : State)
    → (deploy_checked id a v o s).1.instances ≡ s.instances
unfolding deploy_checked write_deployment
deploy-instances id a v (ok want) s = deploy_one (deployment_for_agent s a)
  where
    deploy_one :
        (x : Option Deployment) → (write_deployment id a v want x s).1.instances ≡ s.instances
    deploy_one none = refl
    deploy_one (some old) =
        if_cases {A = Outcome Deployment × State} (λ o. o.1.instances ≡ s.instances)
          (same_intent (some old) v want) (λ _. refl) (λ _. refl)
deploy-instances id a v (blocked cs) s = refl
deploy-instances id a v raised s = refl

desired-instances :
    (o : Outcome (Deployment × Desired)) (s : State) → (write_desired o s).1.instances ≡ s.instances
unfolding write_desired
desired-instances (ok (x, want)) s =
    if_cases {A = Outcome Deployment × State} (λ o. o.1.instances ≡ s.instances)
      (same_desired x.desired_state want) (λ _. refl) (λ _. refl)
desired-instances (blocked cs) s = refl
desired-instances raised s = refl

pub set-instances :
    (s : State) (id want : String) → (set_desired_state s id want).1.instances ≡ s.instances
unfolding set_desired_state
set-instances s id want = desired-instances (desired_checks s id want) s

retarget-instances :
    (s : State) (x : Deployment) (v : String) → (retarget s x v).instances ≡ s.instances
unfolding retarget
retarget-instances s x v =
    if_cases (λ (u : State). u.instances ≡ s.instances)
      (x.version_id != v || not (same_desired x.desired_state run)) (λ _. refl) (λ _. refl)

continue-instances :
    (rest : State → Outcome (Unit {0}) × State) (o : Outcome Deployment × State)
    → ((s : State) → (rest s).1.instances ≡ s.instances)
    → (continue rest o).1.instances ≡ o.1.instances
continue-instances rest (ok x, s) h = h s
continue-instances rest (blocked cs, s) h = refl
continue-instances rest (raised, s) h = refl

loop-instances :
    (v : Version) (xs : List Deployment) (s : State)
    → (revoke_deployments v xs s).1.instances ≡ s.instances
unfolding revoke_deployments
loop-instances v [] s = refl
loop-instances v (x ∷ xs) s =
    if_cases {A = Outcome (Unit {0}) × State} (λ o. o.1.instances ≡ s.instances) (to_revoke v x)
      (λ _.
        continue-instances (λ u. revoke_deployments v xs u)
          (set_desired_state s x.deployment_id "REVOKED") (λ u. loop-instances v xs u)
        ∙ set-instances s x.deployment_id "REVOKED")
      (λ _. loop-instances v xs s)

answer-instances :
    (u : Version) (o : Outcome (Unit {0}) × State)
    → (answer_version u o).1.instances ≡ o.1.instances
answer-instances u (ok x, s) = refl
answer-instances u (blocked cs, s) = refl
answer-instances u (raised, s) = refl

answered-instances :
    (root : String) (v : Version) (o : Outcome Revocation × Disk) (t : Site)
    → (withdraw_answered root v o t).1.state.instances ≡ t.state.instances
unfolding withdraw_answered put_world
answered-instances root v (ok e, d) t =
    let u = withdrawn_of v e.revocation_id in
    let s : State = record t.state { versions = append_event t.state.versions u } in
    answer-instances u (revoke_deployments v (deployments_now s) s)
    ∙ loop-instances v (deployments_now s) s
answered-instances root v (blocked cs, d) t = refl
answered-instances root v (raised, d) t = refl

pub withdraw-instances :
    (m : Manager) (t : Site) (q : Withdrawal)
    → (revoke_version m t q).1.state.instances ≡ t.state.instances
unfolding revoke_version withdraw_found
withdraw-instances m t q = withdraw_one (version_to_revoke t.state q.agent_id q.version_id)
  where
    withdraw_one :
        (o : Option Version) → (withdraw_found m t q o).1.state.instances ≡ t.state.instances
    withdraw_one none = refl
    withdraw_one (some v) =
        if_cases {A = Outcome Version × Site} (λ o. o.1.state.instances ≡ t.state.instances)
          v.withdrawn (λ _. refl)
          (λ _.
            answered-instances q.registry_root v
              (revoke_authority m.host (request_of q v) (at_root t q.registry_root).disk) t)

-- An order on instances is one on the state.
pub same-IsOrderly : (s t : State) → t.instances ≡ s.instances → IsOrderly s → IsOrderly t
same-IsOrderly s t e h = subst (λ xs. IsOrderly (record s { instances = xs })) (sym e) h

pub upgraded-IsOrderly :
    (m : Manager) (t : Site) (r : Runtime) (id target : String) (o : Outcome Deployment)
    → lookup m.host.fresh (now_of t.state) ≡ none
    → IsOrderly t.state
    → IsOrderly (upgrade_checked m t r id target o).1
unfolding upgrade_checked
upgraded-IsOrderly m t r id target (ok x) new_id h =
    let s = retarget t.state x target in
    let same = retarget-instances t.state x target in
    reconcile-IsOrderly m (record t { state = s }) r id
      (subst (λ xs. lookup m.host.fresh (now_of (record t.state { instances = xs })) ≡ none)
        (sym same) new_id)
      (same-IsOrderly t.state s same h)
upgraded-IsOrderly m t r id target (blocked cs) new_id h = h
upgraded-IsOrderly m t r id target raised new_id h = h
