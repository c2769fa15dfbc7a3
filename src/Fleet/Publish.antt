-- ===== src/Fleet/Publish.antt =====
-- create_version of pilot/managed_runtime.py against the events of versions that are there.
use agent_capability_forge.Prelude.{
  String, true, ◌&&◌, Option, none, some, ◌≡◌, refl, ◌∙◌, ap, ◌==◌, ==_iff, and_iff, Bool-cases,
  inl, inr, string_eq, option_eq, if_cases,
}
use agent_capability_forge.Disk.{Outcome, ok, blocked, raised}
use agent_capability_forge.Managed.{
  Version, State, Site, Manager, Loader, Publication, latest_version, fits_agent, create_version_by,
  version_checks, publish_version, publish_checked, same_content_as, at_root,
}
use agent_capability_forge.Fleet.Logs.{latest-append_other}

-- The two texts that an event of `(a, w)` has.
fits_only :
    (v : Version) (a w : String)
    → (v.version_id == w && fits_agent (some a) v.agent_id) ≡ true
    → (v.version_id ≡ w) × (v.agent_id ≡ some a)
fits_only v a w e =
    let (x, y) = (and_iff (v.version_id == w) (v.agent_id == some a)).0 e in
    ((==_iff v.version_id w).0 x, (==_iff v.agent_id (some a)).0 y)

module _ (s : State) (a w : String) (u : Version)
    (there : latest_version s (some a) w ≡ some u) where
  abbrev Keeps : Outcome Version × State → Type 0
  Keeps o = latest_version o.1 (some a) w ≡ some u

  publish_version-Keeps :
      (v : Version) (o : Option Version)
      → latest_version s v.agent_id v.version_id ≡ o
      → Keeps (publish_version v o s)
  unfolding publish_version latest_version
  publish_version-Keeps v none e =
      elim (Bool-cases (v.version_id == w && fits_agent (some a) v.agent_id)) [
        | inl same ↦
            let (x, y) = fits_only v a w same in
            cc (e, there, ap (latest_version s v.agent_id) x, ap (λ z. latest_version s z w) y)
        | inr other ↦
            latest-append_other
              (λ (y : Version). y.version_id == w && fits_agent (some a) y.agent_id) s.versions v
              other
            ∙ there
      ]
  publish_version-Keeps v (some old) e =
      if_cases {A = Outcome Version × State} Keeps (same_content_as old v) (λ _. there) (λ _. there)

  publish_checked-Keeps : (o : Outcome Version) → Keeps (publish_checked o s)
  unfolding publish_checked
  publish_checked-Keeps (ok v) =
      publish_version-Keeps v (latest_version s v.agent_id v.version_id) refl
  publish_checked-Keeps (blocked cs) = there
  publish_checked-Keeps raised = there

-- A version that an agent has stays as it is, whatever create_version is called with and whatever
-- its loader answers: the latest event of the agent and the version is the same behind the call.
pub create_version-Keeps :
    (m : Manager) (load : Loader) (t : Site) (p : Publication) (a w : String) (u : Version)
    → latest_version t.state (some a) w ≡ some u
    → latest_version (create_version_by m load t p).1 (some a) w ≡ some u
unfolding create_version_by
create_version-Keeps m load t p a w u there =
    publish_checked-Keeps t.state a w u there (version_checks m load (at_root t p.registry_root) p)

-- What an answer satisfies, where there is one.
abbrev OnlyIf : {A : Type 0} → (A → Type 0) → Outcome A → Type 0
OnlyIf P (ok a) = P a
OnlyIf P (blocked cs) = Unit
OnlyIf P raised = Unit
