-- ===== src/Fleet/RevokeOne.antt =====
-- One call of set_desired_state of pilot/managed_runtime.py with REVOKED.
use agent_capability_forge.Prelude.{
  String, Bool, true, false, Option, none, some, ◌≡◌, refl, sym, ◌∙◌, ap, ◌==◌, ==_iff, string_eq,
  option_eq, Bool-cases, inl, inr, ◌⊎◌,
}
use agent_capability_forge.Disk.{Outcome, ok, blocked, raised}
use agent_capability_forge.Managed.{
  append_event, Desired, revoke, run, stop, Deployment, State, desired_of, same_desired,
  latest_deployment, get_deployment, desired_checks, write_desired, set_desired_state,
}
use agent_capability_forge.Fleet.Logs.{latest-append, latest-append_other, latest-true}

pub same_desired-revoke : (d : Desired) → same_desired d revoke ≡ true → d ≡ revoke
same_desired-revoke run e = cc
same_desired-revoke stop e = cc
same_desired-revoke revoke e = refl

-- What a deployment is behind a call for `k`: REVOKED, or as it was.
abbrev pub IsRevokedBut : String → State → State → Type 0
IsRevokedBut k s t =
    (j : String) (x : Deployment)
    → latest_deployment t j ≡ some x
    → (x.desired_state ≡ revoke) ⊎ (((k == j) ≡ false) × (latest_deployment s j ≡ some x))

abbrev pub WhenOk : {A : Type 0} → (State → Type 0) → Outcome A × State → Type 0
WhenOk P (ok a, s) = P s
WhenOk P (blocked cs, s) = Unit
WhenOk P (raised, s) = Unit

some-eq-some : {A : Type 0} {a b : A} → some a ≡ some b → a ≡ b
some-eq-some e = cc

-- Two events that are the same one say the same.
same_state :
    (x y : Deployment) → some x ≡ some y → x.desired_state ≡ revoke → y.desired_state ≡ revoke
same_state x y e d = sym (ap (λ (z : Deployment). z.desired_state) (some-eq-some e)) ∙ d

module _ (s : State) (k : String) where
  kept :
      (x : Deployment)
      → latest_deployment s k ≡ some x
      → x.desired_state ≡ revoke
      → IsRevokedBut k s s
  kept x e d j y f = elim (Bool-cases (k == j)) [
    | inl same ↦ inl (same_state x y (sym e ∙ ap (latest_deployment s) ((==_iff k j).0 same) ∙ f) d)
    | inr other ↦ inr (other, f)
  ]

  added :
      (x : Deployment)
      → latest_deployment s k ≡ some x
      → IsRevokedBut k s (record s {
        deployments = append_event s.deployments (record x { desired_state = revoke });
      })
  unfolding latest_deployment
  added x e j y f =
      let z : Deployment = record x { desired_state = revoke } in
      let of_j : Deployment → Bool = λ w. w.deployment_id == j in
      elim (Bool-cases (x.deployment_id == j)) [
        | inl same ↦ inl (same_state z y (sym (latest-append of_j s.deployments z same) ∙ f) refl)
        | inr other ↦ inr (
          ap (λ i. i == j)
                (sym (
                  (==_iff x.deployment_id k).0
                    (latest-true (λ (w : Deployment). w.deployment_id == k) s.deployments x e)))
              ∙ other,
          sym (latest-append_other of_j s.deployments z other) ∙ f,
        )
      ]

  pub checked_revoke :
      (o : Option Deployment)
      → latest_deployment s k ≡ o
      → WhenOk (IsRevokedBut k s) (set_desired_state s k "REVOKED")
  unfolding set_desired_state desired_checks desired_of get_deployment write_desired
  checked_revoke none e = rw e tt
  checked_revoke (some x) e =
      elim (Bool-cases (same_desired x.desired_state revoke))
        as (λ _. WhenOk (IsRevokedBut k s) (set_desired_state s k "REVOKED")) [
          | inl same ↦
              rw e (rw same (rw same (kept x e (same_desired-revoke x.desired_state same))))
          | inr other ↦ rw e (rw other (rw other (added x e)))
        ]
