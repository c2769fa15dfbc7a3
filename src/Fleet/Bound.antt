-- ===== src/Fleet/Bound.antt =====
-- What an answer of create_version (pilot/managed_runtime.py) rests on.
use agent_capability_forge.Prelude.{string_eq, option_eq}
use agent_capability_forge.Disk.{Outcome, ok, blocked, raised}
use agent_capability_forge.Registry.{World}
use agent_capability_forge.Managed.{Version, State, Manager, Loader, Publication}
use agent_capability_forge.Fleet.Backing.{IsBound}

-- What an answer satisfies, where there is one.
abbrev pub WhenAnswered : {A : Type 0} → (A → Type 0) → Outcome A → Type 0
WhenAnswered P (ok a) = P a
WhenAnswered P (blocked cs) = Unit
WhenAnswered P raised = Unit

-- A version that is answered is bound.
abbrev pub Binds : Manager → Loader → World → Publication → Outcome Version × State → Type 0
Binds m load w p (ok v, s) = IsBound m load w p v
Binds m load w p (blocked cs, s) = Unit
Binds m load w p (raised, s) = Unit
