-- ===== src/Tests/Managed.antt =====
-- A version of the frozen candidate of the tests, deployed, run, and revoked.
use agent_capability_forge.Prelude.{
  ◌≤◌, false, none, some, [], ◌∷◌, ◌≡◌, refl, subst, arith, any, lookup, insert, select, find,
  report, collect, get?,
}
use agent_capability_forge.Records.{Authority, RunRequest}
use agent_capability_forge.Disk.{Outcome, ok, missing, holds}
use agent_capability_forge.Host.{authority_id_for}
use agent_capability_forge.Ledger.{load_authority_record, load_authority_events}
use agent_capability_forge.Frozen.{
  repeats, invalid_path, entry_violations, wanted, undeclared, sha256_bytes, file_digests,
  artifact_layout, canonical_artifact_digest, frozen_artifact_report, manifest_digest, tests_digest,
  seal_digest, known_seal, tests_violations, verify_read, verify_candidate, verify_record,
  verify_frozen, load_candidate, load_verified, check_verified, check_record, frozen_checks,
}
use agent_capability_forge.Registry.{
  Adoption, Entry, World, canonical_identity, discover_version, discover, entry_at,
}
use agent_capability_forge.Fleet.Life.{
  Reach, begun, then_step, published, deployed, reconciled, Reach-active_count, Reach-attempts,
}
use agent_capability_forge.Fleet.Active.{now_of, total, active_count}
use agent_capability_forge.Fleet.Switch.{IsOrderly}
use agent_capability_forge.Fleet.Idle.{IsHealthy, IsQuiet}
use agent_capability_forge.Fleet.Again.{reconcile-again}
use agent_capability_forge.Managed.{
  run, stopped, Deployment, Instance, create_deployment, deployment_checks, desired_of,
  deploy_checked, write_deployment, deployment_for_agent, deployments_now, current, current_from,
  new_instance, starting_of, running_of, reconcile, reconcile_found, get_deployment,
  latest_deployment, reconcile_version, reconcile_desired, reconcile_running, is_revoked_version,
  revoked_events, snapshot_binding_violation, run_active, active_instance, instances_of,
  report_result, report_on, start_new, start_again, start_answered, start_result,
  start_max_attempts, running, Runtime, Manager, Site, State, Version, Publication, Loader,
  create_version_by, version_checks, version_of, publish_checked, publish_version, latest_version,
  frozen_record, canonical_adoption, version_authority, identity_guards_of, snapshot_identity,
  latest,
}
use agent_capability_forge.Tests.Fixtures.{host, authority, disk, decision_id}
use agent_capability_forge.Tests.Agents.{sealer, entry}
use agent_capability_forge.Tests.Frozen.{frozen_store}

abbrev canonical_authority : Authority
canonical_authority = record authority {
  candidate_id = some "cand-1";
  candidate_version = some "v1";
  artifact_digest = some "sha256:files";
  seal_digest = some "sha256:payload";
  promotion_decision_id = decision_id;
}

abbrev canonical_adoption_of : Adoption
canonical_adoption_of = record {
  candidate_id = some "cand-1";
  candidate_version = some "v1";
  promotion_decision_id = decision_id;
  evaluation_run_id = some "run-1";
  policy_version = some "1";
  artifact_digest = some "sha256:files";
  provenance = none;
}

abbrev canonical_entry : Entry
canonical_entry = record entry {
  artifact_identity = some canonical_identity;
  adoption = some canonical_adoption_of;
}

abbrev canonical_world : World
canonical_world = record {
  disk = record disk {
    records =
        (authority_id_for host (some "cand-1") (some "v1") decision_id, holds canonical_authority)
        ∷ [];
  };
  frozen = λ root. frozen_store;
  agents =
      ("family/agent", record { legacy = missing; versions = ("v1", holds canonical_entry) ∷ [] })
      ∷ [];
  artifacts = [];
}

abbrev pub manager : Manager
manager = record {
  host = host;
  sealer = sealer;
  dumps_identity = λ c a s. "identity";
  digits = λ n. "1";
}

abbrev request : RunRequest
request = record {
  name = some "agent";
  capability_id = some "cap-0123456789ab";
  candidate_id = some "cand-1";
  candidate_version = some "v1";
  artifact_digest = some "sha256:files";
  seal_digest = some "sha256:payload";
  promotion_decision_id = decision_id;
  created_at = none;
}

-- A loader that has the request.
abbrev pub loader : Loader
loader d key = ok (some request)

abbrev no_events : State
no_events = record { versions = []; deployments = []; instances = [] }

abbrev pub site : Site
site = record { state = no_events; registries = λ root. canonical_world }

abbrev pub publication : Publication
publication = record {
  registry_root = "registry";
  frozen_root = "frozen";
  candidate_id = "cand-1";
  family = "family";
}

abbrev pub agent_version : Version
agent_version = record {
  withdrawn = false;
  version_id = "v1";
  agent_id = some "cap-0123456789ab";
  name = some "agent";
  family = "family";
  candidate_id = some "cand-1";
  candidate_version = some "v1";
  artifact_digest = some "sha256:files";
  seal_digest = some "sha256:payload";
  execution_snapshot_identity = "snap-identity";
  authority_id = canonical_authority.authority_id;
  promotion_decision_id = decision_id;
  evaluation_run_id = some "run-1";
  registry_root = "registry";
  frozen_root = "frozen";
  revocation_id = none;
}

abbrev pub versioned_state : State
versioned_state = record { versions = agent_version ∷ []; deployments = []; instances = [] }

publishes : create_version_by manager loader site publication ≡ (ok agent_version, versioned_state)
unfolding create_version_by version_checks version_of publish_checked publish_version latest_version
    frozen_record canonical_adoption version_authority identity_guards_of snapshot_identity latest
    discover_version discover load_authority_record load_authority_events authority_id_for
    frozen_checks check_record check_verified load_verified load_candidate verify_frozen
    verify_record verify_candidate verify_read tests_violations known_seal seal_digest tests_digest
    manifest_digest frozen_artifact_report canonical_artifact_digest artifact_layout file_digests
    sha256_bytes undeclared wanted entry_violations invalid_path repeats any select lookup insert
    report collect get? entry_at
publishes = refl

abbrev pub deployment : Deployment
deployment = record {
  deployment_id = "dep-1";
  agent_id = some "cap-0123456789ab";
  version_id = "v1";
  desired_state = run;
}

abbrev pub deployed_state : State
deployed_state = record versioned_state { deployments = deployment ∷ [] }

deploys :
    create_deployment "dep-1" versioned_state (some "cap-0123456789ab") "v1" "RUNNING"
    ≡ (ok deployment, deployed_state)
unfolding create_deployment deployment_checks desired_of latest_version latest deploy_checked
    write_deployment deployment_for_agent deployments_now current current_from find
deploys = refl

abbrev pub runtime : Runtime
runtime = record {
  start = λ i v. ok (record { observed_state = running; failure_reason = none });
  stop = λ i. ok (record { observed_state = stopped; failure_reason = none });
}

abbrev pub at_state : State → Site
at_state s = record site { state = s }

abbrev instance_of : Instance
instance_of = new_instance manager deployment agent_version

abbrev pub running_state : State
running_state = record deployed_state {
  instances = instance_of ∷ starting_of instance_of 1 ∷ running_of (starting_of instance_of 1) ∷ [];
}

runs : (reconcile manager (at_state deployed_state) runtime "dep-1").1 ≡ running_state
unfolding reconcile reconcile_found get_deployment latest_deployment latest reconcile_version
    reconcile_desired reconcile_running latest_version is_revoked_version revoked_events
    load_authority_events lookup snapshot_binding_violation snapshot_identity run_active
    active_instance instances_of current current_from insert select report_result report_on
    start_new start_again start_answered start_result any
runs = refl

way : Reach (at_state running_state)
unfolding latest_deployment latest current current_from lookup
way =
    subst (λ s. Reach (at_state s)) runs
      (then_step
        (subst (λ (o : Outcome Deployment × State). Reach (at_state o.1)) deploys
          (then_step
            (subst (λ (o : Outcome Version × State). Reach (at_state o.1)) publishes
              (then_step (begun (λ root. canonical_world))
                (published manager loader publication site)))
            (deployed "dep-1" (some "cap-0123456789ab") "v1" "RUNNING" (at_state versioned_state)
              refl)))
        (reconciled manager runtime "dep-1" (at_state deployed_state) refl))

Reach-active_count_example : active_count "dep-1" running_state ≤ 1
Reach-active_count_example = Reach-active_count way "dep-1"

found : lookup host.fresh (now_of running_state) ≡ some (running_of (starting_of instance_of 1))
unfolding lookup current current_from insert
found = refl

Reach-attempts_example : 1 ≤ start_max_attempts
Reach-attempts_example =
    Reach-attempts way host.fresh (running_of (starting_of instance_of 1)) found

nothing_runs : IsOrderly deployed_state
unfolding current current_from total
nothing_runs = ((λ id. omega arith), tt)

settled : IsHealthy (reconcile manager (at_state deployed_state) runtime "dep-1")
unfolding reconcile reconcile_found get_deployment latest_deployment latest reconcile_version
    reconcile_desired reconcile_running latest_version is_revoked_version revoked_events
    load_authority_events lookup snapshot_binding_violation snapshot_identity run_active
    active_instance instances_of current current_from insert select report_result report_on
    start_new start_again start_answered start_result any
settled = refl

unused : lookup host.fresh (now_of deployed_state) ≡ none
unfolding current current_from lookup
unused = refl

reconcile-again_example : IsQuiet (reconcile manager (at_state deployed_state) runtime "dep-1").1 (
    reconcile manager
      (at_state (reconcile manager (at_state deployed_state) runtime "dep-1").1)
      runtime
      "dep-1")
reconcile-again_example =
    reconcile-again manager (at_state deployed_state) runtime "dep-1" unused nothing_runs settled
