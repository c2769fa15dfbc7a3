-- ===== src/Fleet/Final.antt =====
-- A deployment whose desired state is REVOKED, under any sequence of the calls.
use agent_capability_forge.Prelude.{
  String, false, Option, none, some, List, [], ◌∷◌, ◌≡◌, refl, sym, ◌∙◌, ap, subst, ◌==◌, ==_iff,
  string_eq, if_cases, Bool-cases, inl, inr,
}
use agent_capability_forge.Records.{Text, Revocation}
use agent_capability_forge.Disk.{Outcome, ok, blocked, raised, Disk}
use agent_capability_forge.Revoke.{revoke_authority}
use agent_capability_forge.Managed.{
  append_event, Desired, Version, Deployment, State, Site, Runtime, Manager, create_version_by,
  version_checks, publish_version, publish_checked, same_content_as, latest_version,
  deployment_checks, deployment_for_agent, deployment_of, write_deployment, deploy_checked,
  create_deployment, latest_deployment, set_desired_state, same_intent, reconcile, retarget,
  upgrade_checks, upgrade_checked, upgrade, to_revoke, continue, revoke_deployments, answer_version,
  withdraw_answered, withdraw_found, revoke_version, version_to_revoke, Withdrawal, request_of,
  put_world, at_root, withdrawn_of, deployments_now,
}
use agent_capability_forge.Fleet.Terminal.{
  IsWithdrawn, append-IsWithdrawn, set_desired_state-IsWithdrawn, retarget-IsWithdrawn,
  upgrade_checks-ok,
}
use agent_capability_forge.Fleet.OnlyAppends.{reconcile-Writes}
use agent_capability_forge.Fleet.Life.{
  Step, published, deployed, asked, upgraded, reconciled, version_withdrawn, registry_changed,
}

-- Only the log of deployments decides it.
same-IsWithdrawn :
    (id : String) (s t : State)
    → t.deployments ≡ s.deployments
    → IsWithdrawn id s
    → IsWithdrawn id t
unfolding latest_deployment
same-IsWithdrawn id s t e over =
    subst (λ xs. IsWithdrawn id (record s { deployments = xs })) (sym e) over

module _ (id : String) where
  publish-deployments :
      (s : State) (o : Outcome Version) → (publish_checked o s).1.deployments ≡ s.deployments
  unfolding publish_checked publish_version
  publish-deployments s (ok v) = publish_one (latest_version s v.agent_id v.version_id)
    where
      publish_one : (u : Option Version) → (publish_version v u s).1.deployments ≡ s.deployments
      publish_one none = refl
      publish_one (some u) =
          if_cases {A = Outcome Version × State} (λ o. o.1.deployments ≡ s.deployments)
            (same_content_as u v) (λ _. refl) (λ _. refl)
  publish-deployments s (blocked cs) = refl
  publish-deployments s raised = refl

  -- A deployment with a new identifier is another one.
  new-other :
      (s : State) (k : String) → latest_deployment s k ≡ none → IsWithdrawn id s → (k == id) ≡ false
  new-other s k e (x, f, d) = elim (Bool-cases (k == id)) as (λ _. (k == id) ≡ false) [
    | inl own ↦ absurd (none_some (sym e ∙ ap (latest_deployment s) ((==_iff k id).0 own) ∙ f))
    | inr other ↦ other
  ]
    where
      none_some : none ≡ some x → ⊥
      none_some e = cc

  deploy-IsWithdrawn :
      (s : State) (k : String) (a : Text) (v : String) (o : Outcome Desired)
      → latest_deployment s k ≡ none
      → IsWithdrawn id s
      → IsWithdrawn id (deploy_checked k a v o s).1
  unfolding deploy_checked write_deployment
  deploy-IsWithdrawn s k a v (ok want) e over = deploy_one (deployment_for_agent s a)
    where
      added :
          IsWithdrawn id
            (record s { deployments = append_event s.deployments (deployment_of k a v want) })
      added = append-IsWithdrawn id s over (deployment_of k a v want) (new-other s k e over)

      deploy_one : (x : Option Deployment) → IsWithdrawn id (write_deployment k a v want x s).1
      deploy_one none = added
      deploy_one (some old) =
          if_cases {A = Outcome Deployment × State} (λ o. IsWithdrawn id o.1)
            (same_intent (some old) v want) (λ _. over) (λ _. added)
  deploy-IsWithdrawn s k a v (blocked cs) e over = over
  deploy-IsWithdrawn s k a v raised e over = over

  reconcile-IsWithdrawn :
      (m : Manager) (t : Site) (r : Runtime) (k : String)
      → IsWithdrawn id t.state
      → IsWithdrawn id (reconcile m t r k).1
  reconcile-IsWithdrawn m t r k over =
      let (es, e) = reconcile-Writes m t r k in
      same-IsWithdrawn id t.state (reconcile m t r k).1 (ap (λ (s : State). s.deployments) e) over

  upgraded-IsWithdrawn :
      (m : Manager) (t : Site) (r : Runtime) (k target : String) (o : Outcome Deployment)
      → upgrade_checks m t k target ≡ o
      → IsWithdrawn id t.state
      → IsWithdrawn id (upgrade_checked m t r k target o).1
  unfolding upgrade_checked
  upgraded-IsWithdrawn m t r k target (ok x) e over =
      let (there, d) = upgrade_checks-ok m t k target x e in
      reconcile-IsWithdrawn m (record t { state = retarget t.state x target }) r k
        (retarget-IsWithdrawn id t.state over k target x there d)
  upgraded-IsWithdrawn m t r k target (blocked cs) e over = over
  upgraded-IsWithdrawn m t r k target raised e over = over

  continue-IsWithdrawn :
      (rest : State → Outcome (Unit {0}) × State) (o : Outcome Deployment × State)
      → ((s : State) → IsWithdrawn id s → IsWithdrawn id (rest s).1)
      → IsWithdrawn id o.1
      → IsWithdrawn id (continue rest o).1
  continue-IsWithdrawn rest (ok x, s) h over = h s over
  continue-IsWithdrawn rest (blocked cs, s) h over = over
  continue-IsWithdrawn rest (raised, s) h over = over

  loop-IsWithdrawn :
      (v : Version) (xs : List Deployment) (s : State)
      → IsWithdrawn id s
      → IsWithdrawn id (revoke_deployments v xs s).1
  unfolding revoke_deployments
  loop-IsWithdrawn v [] s over = over
  loop-IsWithdrawn v (x ∷ xs) s over =
      if_cases {A = Outcome (Unit {0}) × State} (λ o. IsWithdrawn id o.1) (to_revoke v x)
        (λ _.
          continue-IsWithdrawn (λ u. revoke_deployments v xs u)
            (set_desired_state s x.deployment_id "REVOKED") (λ u. loop-IsWithdrawn v xs u)
            (set_desired_state-IsWithdrawn id s over x.deployment_id "REVOKED"))
        (λ _. loop-IsWithdrawn v xs s over)

  answer-IsWithdrawn :
      (u : Version) (o : Outcome (Unit {0}) × State)
      → IsWithdrawn id o.1
      → IsWithdrawn id (answer_version u o).1
  answer-IsWithdrawn u (ok x, s) over = over
  answer-IsWithdrawn u (blocked cs, s) over = over
  answer-IsWithdrawn u (raised, s) over = over

  answered-IsWithdrawn :
      (root : String) (v : Version) (o : Outcome Revocation × Disk) (t : Site)
      → IsWithdrawn id t.state
      → IsWithdrawn id (withdraw_answered root v o t).1.state
  unfolding withdraw_answered put_world
  answered-IsWithdrawn root v (ok e, d) t over =
      let u = withdrawn_of v e.revocation_id in
      let s : State = record t.state { versions = append_event t.state.versions u } in
      answer-IsWithdrawn u (revoke_deployments v (deployments_now s) s)
        (loop-IsWithdrawn v (deployments_now s) s (same-IsWithdrawn id t.state s refl over))
  answered-IsWithdrawn root v (blocked cs, d) t over = over
  answered-IsWithdrawn root v (raised, d) t over = over

  withdraw-IsWithdrawn :
      (m : Manager) (t : Site) (q : Withdrawal) (o : Option Version)
      → IsWithdrawn id t.state
      → IsWithdrawn id (withdraw_found m t q o).1.state
  unfolding withdraw_found
  withdraw-IsWithdrawn m t q none over = over
  withdraw-IsWithdrawn m t q (some v) over =
      if_cases {A = Outcome Version × Site} (λ o. IsWithdrawn id o.1.state) v.withdrawn (λ _. over)
        (λ _.
          answered-IsWithdrawn q.registry_root v
            (revoke_authority m.host (request_of q v) (at_root t q.registry_root).disk) t over)

-- REVOKED is terminal: where the latest event of a deployment says REVOKED, it says so behind every
-- call, if a new deployment is given an identifier of its own.
pub step-IsWithdrawn :
    {t u : Site} → Step t u → (id : String) → IsWithdrawn id t.state → IsWithdrawn id u.state
unfolding create_version_by create_deployment upgrade revoke_version put_world
step-IsWithdrawn (published m load p t) id =
    same-IsWithdrawn id t.state (create_version_by m load t p).1
      (publish-deployments id t.state (version_checks m load (at_root t p.registry_root) p))
step-IsWithdrawn (deployed k a v desired t new_id) id =
    deploy-IsWithdrawn id t.state k a v (deployment_checks t.state a v desired) new_id
step-IsWithdrawn (asked k desired t) id =
    λ over. set_desired_state-IsWithdrawn id t.state over k desired
step-IsWithdrawn (upgraded m r k target t new_id) id =
    upgraded-IsWithdrawn id m t r k target (upgrade_checks m t k target) refl
step-IsWithdrawn (reconciled m r k t new_id) id = reconcile-IsWithdrawn id m t r k
step-IsWithdrawn (version_withdrawn m q t) id =
    withdraw-IsWithdrawn id m t q (version_to_revoke t.state q.agent_id q.version_id)
step-IsWithdrawn (registry_changed root w t) id = λ over. over
