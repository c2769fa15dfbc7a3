-- ===== src/Fleet/Withdrawn.antt =====
-- The deployments behind revoke_version of pilot/managed_runtime.py.
use agent_capability_forge.Prelude.{
  String, Bool, true, false, not, ◌&&◌, some, List, [], ◌∷◌, ◌≡◌, refl, sym, ◌∙◌, ap, subst, arith,
  Bool-cases, ◌==◌, ==_iff, string_eq, option_eq, if_cases, inl, inr, ◌⊎◌, Exists, Map, lookup,
  if◌then◌else◌,
}
use agent_capability_forge.Records.{Revocation}
use agent_capability_forge.Disk.{Outcome, ok, blocked, raised, Disk}
use agent_capability_forge.Revoke.{revoke_authority}
use agent_capability_forge.Managed.{
  latest, current, values, append_event, revoke, Version, Deployment, State, Site, Manager,
  same_desired, latest_deployment, set_desired_state, deployments_now, to_revoke, continue,
  revoke_deployments, answer_version, withdrawn_of, withdraw_answered, withdraw_found,
  revoke_version, version_to_revoke, Withdrawal, request_of, put_world, at_root,
}
use agent_capability_forge.Fleet.Logs.{latest-true}
use agent_capability_forge.Fleet.Views.{latest-current}
use agent_capability_forge.Fleet.RevokeOne.{
  IsRevokedBut, WhenOk, same_desired-revoke, checked_revoke,
}

-- A deployment of the version.
abbrev pub IsOf : Version → Deployment → Type 0
IsOf v x = (x.agent_id == v.agent_id && x.version_id == v.version_id) ≡ true

-- Each deployment of the version is REVOKED, or still to come in the loop.
abbrev IsPending : Version → List Deployment → State → Type 0
IsPending v xs s =
    (k : String) (x : Deployment)
    → latest_deployment s k ≡ some x
    → IsOf v x
    → (x.desired_state ≡ revoke) ⊎ Exists (λ (y : Deployment). y ≡ x) xs

done_with :
    (v : Version) (y : Deployment) (ys : List Deployment) (s t : State)
    → IsPending v (y ∷ ys) s
    → IsRevokedBut y.deployment_id s t
    → IsPending v ys t
unfolding latest_deployment
done_with v y ys s t p h k x e own = elim (h k x e) [
  | inl d ↦ inl d
  | inr (other, there) ↦ elim (p k x there own) [
    | inl d ↦ inl d
    | inr (inl same) ↦ absurd (not_same (of_key there) other same)
    | inr (inr rest) ↦ inr rest
  ]
]
  where
    of_key :
        latest (λ (z : Deployment). z.deployment_id == k) s.deployments ≡ some x
        → x.deployment_id ≡ k
    of_key there =
        (==_iff x.deployment_id k).0
          (latest-true (λ (z : Deployment). z.deployment_id == k) s.deployments x there)

    true≢false : true ≡ false → ⊥
    true≢false e = cc

    not_same : x.deployment_id ≡ k → (y.deployment_id == k) ≡ false → y ≡ x → ⊥
    not_same a b c =
        true≢false
          (sym ((==_iff y.deployment_id k).1 (ap (λ (z : Deployment). z.deployment_id) c ∙ a)) ∙ b)

passed_over :
    (v : Version) (y : Deployment) (ys : List Deployment) (s : State)
    → IsPending v (y ∷ ys) s
    → to_revoke v y ≡ false
    → IsPending v ys s
passed_over v y ys s p off k x e own = elim (p k x e own) [
  | inl d ↦ inl d
  | inr (inl same) ↦ inl (
      same_desired-revoke x.desired_state (
        off_revoked (x.agent_id == v.agent_id) (x.version_id == v.version_id)
          (same_desired x.desired_state revoke) own (ap (to_revoke v) (sym same) ∙ off)))
  | inr (inr rest) ↦ inr rest
]
  where
    off_revoked : (a b c : Bool) → (a && b) ≡ true → (a && (b && not c)) ≡ false → c ≡ true
    off_revoked a b c e f = ground (arith, e, f)

continue-WhenOk :
    (P : State → Type 0) (rest : State → Outcome (Unit {0}) × State)
    (o : Outcome Deployment × State)
    → (Q : State → Type 0) → ((s : State) → Q s → WhenOk P (rest s))
    → WhenOk Q o
    → WhenOk P (continue rest o)
continue-WhenOk P rest (ok x, s) Q h q = h s q
continue-WhenOk P rest (blocked cs, s) Q h q = tt
continue-WhenOk P rest (raised, s) Q h q = tt

loop-WhenOk :
    (v : Version) (xs : List Deployment) (s : State)
    → IsPending v xs s
    → WhenOk (IsPending v []) (revoke_deployments v xs s)
unfolding revoke_deployments
loop-WhenOk v [] s p = p
loop-WhenOk v (y ∷ ys) s p =
    if_cases {A = Outcome (Unit {0}) × State} (WhenOk (IsPending v [])) (to_revoke v y)
      (λ _.
        continue-WhenOk (IsPending v []) (λ u. revoke_deployments v ys u)
          (set_desired_state s y.deployment_id "REVOKED") (IsRevokedBut y.deployment_id s)
          (λ t h. loop-WhenOk v ys t (done_with v y ys s t p h))
          (checked_revoke s y.deployment_id (latest_deployment s y.deployment_id) refl))
      (λ off. loop-WhenOk v ys s (passed_over v y ys s p off))

values-Exists :
    (k : String) (x : Deployment) (m : Map Deployment)
    → lookup k m ≡ some x
    → Exists (λ (y : Deployment). y ≡ x) (values m)
unfolding lookup
values-Exists k x [] e = cc
values-Exists k x ((j, y) ∷ m) e = ground (arith, values-Exists k x m)

all-IsPending : (v : Version) (s : State) → IsPending v (deployments_now s) s
unfolding deployments_now latest_deployment
all-IsPending v s k x e own = inr (
    values-Exists k x (current (λ (y : Deployment). y.deployment_id) s.deployments)
      (sym (latest-current (λ (y : Deployment). y.deployment_id) k s.deployments) ∙ e))

-- The deployments of the version are REVOKED where the answer is a version.
abbrev pub Withdraws : Version → Outcome Version × Site → Type 0
Withdraws v (ok u, t) =
    (k : String) (x : Deployment)
    → latest_deployment t.state k ≡ some x
    → IsOf v x
    → x.desired_state ≡ revoke
Withdraws v (blocked cs, t) = Unit
Withdraws v (raised, t) = Unit

none_pending :
    (root : String) (v u : Version) (d : Disk) (t : Site) (o : Outcome (Unit {0}) × State)
    → WhenOk (IsPending v []) o
    → Withdraws v (
      (answer_version u o).0,
      put_world
          (record t { state = (answer_version u o).1 })
          root
          (record (at_root t root) { disk = d }),
    )
unfolding put_world
none_pending root v u d t (ok x, s) h =
    λ k y e own. elim (h k y e own) [ inl r ↦ r | inr none_left ↦ elim none_left [ ] ]
none_pending root v u d t (blocked cs, s) h = tt
none_pending root v u d t (raised, s) h = tt

answered-Withdraws :
    (root : String) (v : Version) (o : Outcome Revocation × Disk) (t : Site)
    → Withdraws v (withdraw_answered root v o t)
unfolding withdraw_answered put_world
answered-Withdraws root v (ok e, d) t =
    let u = withdrawn_of v e.revocation_id in
    let s : State = record t.state { versions = append_event t.state.versions u } in
    none_pending root v u d t (revoke_deployments v (deployments_now s) s)
      (loop-WhenOk v (deployments_now s) s (all-IsPending v s))
answered-Withdraws root v (blocked cs, d) t = tt
answered-Withdraws root v (raised, d) t = tt

-- A version that is not withdrawn: an answer of revoke_version leaves every deployment of the
-- version REVOKED. A version that is withdrawn already: it is answered again, and nothing changes,
-- whatever deployments of it have been created or left since.
pub revoke_version-Withdraws :
    (m : Manager) (t : Site) (q : Withdrawal) (v : Version)
    → version_to_revoke t.state q.agent_id q.version_id ≡ some v
    → ((v.withdrawn ≡ false) × Withdraws v (revoke_version m t q))
      ⊎ ((v.withdrawn ≡ true) × (revoke_version m t q ≡ (ok v, t)))
unfolding revoke_version withdraw_found
revoke_version-Withdraws m t q v e =
    let o = revoke_authority m.host (request_of q v) (at_root t q.registry_root).disk in
    rw e (elim (Bool-cases v.withdrawn) [
      | inl again ↦ inr (again, rw again refl)
      | inr first ↦ inl (
        first,
        subst (λ b. Withdraws v (if b then (ok v, t) else withdraw_answered q.registry_root v o t))
            (sym first) (answered-Withdraws q.registry_root v o t),
      )
    ])
