-- ===== src/Tests/Runtime.antt =====
-- The theorems on the managed runtime at the version and the deployment of the tests.
use agent_capability_forge.Prelude.{
  ◌==◌, string_eq, true, false, ◌⊎◌, ◌||◌, some, [], ◌∷◌, ◌≡◌, refl, lookup,
}
use agent_capability_forge.Disk.{ok, raised}
use agent_capability_forge.Fleet.Stored.{ReadsBack, create_deployment-ReadsBack}
use agent_capability_forge.Managed.{
  create_deployment, Withdrawal, version_to_revoke, revoke_version, latest, current, revoke,
  Version, Deployment, State, Site, create_version_by, latest_version, latest_deployment,
  get_deployment, reconcile, is_revoked_version, snapshot_binding_violation, set_desired_state,
}
use agent_capability_forge.Fleet.Views.{latest-current}
use agent_capability_forge.Fleet.Publish.{create_version-Keeps}
use agent_capability_forge.Fleet.Appends.{Writes}
use agent_capability_forge.Fleet.OnlyAppends.{reconcile-Writes}
use agent_capability_forge.Fleet.Terminal.{IsWithdrawn}
use agent_capability_forge.Fleet.Withdrawn.{Withdraws, revoke_version-Withdraws}
use agent_capability_forge.Tests.Agents.{ready}
use agent_capability_forge.Fleet.Rejected.{reconcile-rejects}
use agent_capability_forge.Fleet.Life.{asked}
use agent_capability_forge.Fleet.Final.{step-IsWithdrawn}
use agent_capability_forge.Tests.Managed.{
  manager, loader, publication, agent_version, versioned_state, deployment, deployed_state, runtime,
  at_state, running_state,
}

abbrev revoked_deployment_of : Deployment
revoked_deployment_of = record deployment { desired_state = revoke }

-- The deployment is REVOKED while its instance runs.
abbrev over_state : State
over_state = record running_state { deployments = deployment ∷ revoked_deployment_of ∷ [] }

latest-current_example :
    latest (λ (x : Deployment). x.deployment_id == "dep-1") over_state.deployments
    ≡ lookup "dep-1" (current (λ (x : Deployment). x.deployment_id) over_state.deployments)
latest-current_example =
    latest-current (λ (x : Deployment). x.deployment_id) "dep-1" over_state.deployments

published_once : latest_version versioned_state (some "cap-0123456789ab") "v1" ≡ some agent_version
unfolding latest_version latest
published_once = refl

create_version-Keeps_example :
    latest_version
      (create_version_by manager loader (at_state versioned_state) publication).1
      (some "cap-0123456789ab")
      "v1"
    ≡ some agent_version
create_version-Keeps_example =
    create_version-Keeps manager loader (at_state versioned_state) publication "cap-0123456789ab"
      "v1" agent_version published_once

reconcile-Writes_example :
    Writes over_state (reconcile manager (at_state over_state) runtime "dep-1").1
reconcile-Writes_example = reconcile-Writes manager (at_state over_state) runtime "dep-1"

is_over : IsWithdrawn "dep-1" over_state
unfolding latest_deployment latest
is_over = (revoked_deployment_of, refl, refl)

step-IsWithdrawn_example : IsWithdrawn "dep-1" (set_desired_state over_state "dep-1" "RUNNING").1
step-IsWithdrawn_example =
    step-IsWithdrawn (asked "dep-1" "RUNNING" (at_state over_state)) "dep-1" is_over

-- The version is withdrawn, and its deployment is to run.
abbrev rejected_version_of : Version
rejected_version_of = record agent_version { withdrawn = true }

abbrev rejected_site : Site
rejected_site =
    at_state (record deployed_state { versions = agent_version ∷ rejected_version_of ∷ [] })

found : get_deployment rejected_site.state "dep-1" ≡ ok deployment
unfolding get_deployment latest_deployment latest
found = refl

found_version :
    latest_version rejected_site.state (some "cap-0123456789ab") "v1" ≡ some rejected_version_of
unfolding latest_version latest
found_version = refl

may_not_run :
    (is_revoked_version rejected_site rejected_version_of
      || snapshot_binding_violation manager rejected_version_of)
    ≡ true
unfolding is_revoked_version
may_not_run = refl

reconcile-rejects_example :
    reconcile manager rejected_site (record runtime { start = λ i v. raised }) "dep-1"
    ≡ reconcile manager rejected_site runtime "dep-1"
reconcile-rejects_example =
    reconcile-rejects manager rejected_site runtime "dep-1" deployment rejected_version_of
      (λ i v. raised) found found_version may_not_run

-- The registry in which the version's authority may be revoked.
abbrev revocable_site : Site
revocable_site = record { state = deployed_state; registries = λ root. ready }

abbrev withdrawal : Withdrawal
withdrawal = record {
  registry_root = "registry";
  version_id = "v1";
  agent_id = some "cap-0123456789ab";
  issuer_id = "pilot-rehearsal";
  reason = "withdrawn";
}

chosen :
    version_to_revoke revocable_site.state withdrawal.agent_id withdrawal.version_id
    ≡ some agent_version
unfolding version_to_revoke latest_version latest
chosen = refl

revoke_version-Withdraws_example :
    ((agent_version.withdrawn ≡ false)
      × Withdraws agent_version (revoke_version manager revocable_site withdrawal))
    ⊎ ((agent_version.withdrawn ≡ true)
        × (revoke_version manager revocable_site withdrawal ≡ (ok agent_version, revocable_site)))
revoke_version-Withdraws_example =
    revoke_version-Withdraws manager revocable_site withdrawal agent_version chosen

create_deployment-ReadsBack_example :
    ReadsBack (create_deployment "dep-1" versioned_state (some "cap-0123456789ab") "v1" "RUNNING")
create_deployment-ReadsBack_example =
    create_deployment-ReadsBack "dep-1" versioned_state (some "cap-0123456789ab") "v1" "RUNNING"
