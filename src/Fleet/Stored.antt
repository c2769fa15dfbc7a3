-- ===== src/Fleet/Stored.antt =====
-- What the operations on a deployment in pilot/managed_runtime.py answer, and what is read back.
use agent_capability_forge.Prelude.{
  String, Bool, Option, none, some, List, [], ◌∷◌, ◌≡◌, refl, ◌∙◌, ap, arith, ◌==◌, beq_refl,
  string_eq, option_eq, if_cases, find, select, Exists,
}
use agent_capability_forge.Code.{deployment_not_found}
use agent_capability_forge.Records.{Text}
use agent_capability_forge.Disk.{Outcome, ok, blocked, raised, or_refuse}
use agent_capability_forge.Managed.{
  current, values, append_event, Desired, Deployment, State, deployments_now, deployment_for_agent,
  deployment_checks, same_intent, deployment_of, write_deployment, deploy_checked,
  create_deployment, latest_deployment, get_deployment,
}
use agent_capability_forge.Fleet.Logs.{latest-append, Keyed-lookup, current-Keyed}
use agent_capability_forge.Fleet.Views.{latest-current}

-- A deployment that is answered is the one that get_deployment reads under its identifier.
abbrev pub ReadsBack : Outcome Deployment × State → Type 0
ReadsBack (ok x, s) = get_deployment s x.deployment_id ≡ ok x
ReadsBack (blocked cs, s) = Unit
ReadsBack (raised, s) = Unit

abbrev key_of : Deployment → String
key_of x = x.deployment_id

latest-ReadsBack :
    (s : State) (x : Deployment)
    → latest_deployment s x.deployment_id ≡ some x
    → ReadsBack (ok x, s)
unfolding get_deployment
latest-ReadsBack s x e = ap (λ o. or_refuse o deployment_not_found) e

appended-ReadsBack :
    (s : State) (x : Deployment)
    → ReadsBack (ok x, record s { deployments = append_event s.deployments x })
unfolding latest_deployment
appended-ReadsBack s x =
    latest-ReadsBack (record s { deployments = append_event s.deployments x }) x
      (latest-append (λ (y : Deployment). y.deployment_id == x.deployment_id) s.deployments x
        (beq_refl x.deployment_id))

find-select :
    (q : Deployment → Bool) (xs : List Deployment) (x : Deployment)
    → find q xs ≡ some x
    → Exists (λ (y : Deployment). y ≡ x) (select q xs)
unfolding find select
find-select q [] x e = cc
find-select q (y ∷ ys) x e = ground (arith, find-select q ys x)

agent-ReadsBack :
    (s : State) (a : Text) (x : Deployment)
    → deployment_for_agent s a ≡ some x
    → ReadsBack (ok x, s)
unfolding deployment_for_agent deployments_now latest_deployment
agent-ReadsBack s a x e = latest-ReadsBack s x (
    latest-current key_of x.deployment_id s.deployments
    ∙ (Keyed-lookup key_of (λ (y : Deployment). y.agent_id == a) (current key_of s.deployments) x
        (current-Keyed key_of s.deployments)
        (find-select (λ (y : Deployment). y.agent_id == a) (values (current key_of s.deployments)) x
          e)).0)

write_deployment-ReadsBack :
    (id : String) (a : Text) (v : String) (want : Desired) (o : Option Deployment) (s : State)
    → deployment_for_agent s a ≡ o
    → ReadsBack (write_deployment id a v want o s)
unfolding write_deployment
write_deployment-ReadsBack id a v want none s e = appended-ReadsBack s (deployment_of id a v want)
write_deployment-ReadsBack id a v want (some old) s e =
    if_cases {A = Outcome Deployment × State} ReadsBack (same_intent (some old) v want)
      (λ _. agent-ReadsBack s a old e) (λ _. appended-ReadsBack s (deployment_of id a v want))

-- What create_deployment answers is what get_deployment reads back under the identifier that the
-- answer has, whether the deployment is new or was there before.
pub create_deployment-ReadsBack :
    (id : String) (s : State) (a : Text) (v desired : String)
    → ReadsBack (create_deployment id s a v desired)
unfolding create_deployment deploy_checked
create_deployment-ReadsBack id s a v desired = checked (deployment_checks s a v desired)
  where
    checked : (o : Outcome Desired) → ReadsBack (deploy_checked id a v o s)
    checked (ok want) = write_deployment-ReadsBack id a v want (deployment_for_agent s a) s refl
    checked (blocked cs) = tt
    checked raised = tt
