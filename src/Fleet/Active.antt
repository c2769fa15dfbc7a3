-- ===== src/Fleet/Active.antt =====
-- How many instances of a deployment are active.
use agent_capability_forge.Prelude.{
  ℕ, ◌+◌, String, Bool, true, false, ◌&&◌, none, some, List, [], ◌∷◌, ◌≡◌, ◌≢◌, refl, ◌∙◌, ap,
  arith, ◌==◌, string_eq, Map, lookup, insert, lookup-insert_self, lookup-insert_ne, All, select,
  if◌then◌else◌,
}
use agent_capability_forge.Managed.{
  current, values, Instance, State, is_active, instances_of, active_instance, append_instance,
}
use agent_capability_forge.Fleet.Logs.{current-append, latest-lookup, latest-none}

-- The instances as they are now, by identifier.
abbrev pub key_of : Instance → String
key_of i = i.instance_id

abbrev pub now_of : State → Map Instance
now_of s = current key_of s.instances

unfoldable pub weight : String → Instance → ℕ
weight id i = if i.deployment_id == id && is_active i.observed_state then 1 else 0

unfoldable pub total : String → Map Instance → ℕ
total id [] = 0
total id ((k, i) ∷ m) = weight id i + total id m

-- The number of active instances of a deployment.
abbrev pub active_count : String → State → ℕ
active_count id s = total id (now_of s)

total-insert_new :
    (id k : String) (i : Instance) (m : Map Instance)
    → lookup k m ≡ none
    → total id (insert k i m) ≡ total id m + weight id i
unfolding total insert lookup
total-insert_new id k i [] e = omega arith
total-insert_new id k i ((j, x) ∷ m) e = ground (arith, total-insert_new id k i m)

total-insert_old :
    (id k : String) (i old : Instance) (m : Map Instance)
    → lookup k m ≡ some old
    → total id (insert k i m) + weight id old ≡ total id m + weight id i
unfolding total insert lookup
total-insert_old id k i old [] e = cc
total-insert_old id k i old ((j, x) ∷ m) e = ground (arith, total-insert_old id k i old m)

pub count-append_new :
    (s : State) (i : Instance) (id : String)
    → lookup i.instance_id (now_of s) ≡ none
    → active_count id (append_instance s i) ≡ active_count id s + weight id i
count-append_new s i id e =
    ap (total id) (current-append key_of s.instances i) ∙ total-insert_new id i.instance_id i _ e

pub count-append_old :
    (s : State) (i old : Instance) (id : String)
    → lookup i.instance_id (now_of s) ≡ some old
    → active_count id (append_instance s i) + weight id old ≡ active_count id s + weight id i
count-append_old s i old id e =
    ap (λ m. total id m + weight id old) (current-append key_of s.instances i)
    ∙ total-insert_old id i.instance_id i old (now_of s) e

pub lookup-append :
    (s : State) (i : Instance) → lookup i.instance_id (now_of (append_instance s i)) ≡ some i
lookup-append s i =
    ap (lookup i.instance_id) (current-append key_of s.instances i)
    ∙ lookup-insert_self i.instance_id i (now_of s)

pub lookup-append_ne :
    (s : State) (i : Instance) (k : String)
    → k ≢ i.instance_id
    → lookup k (now_of (append_instance s i)) ≡ lookup k (now_of s)
lookup-append_ne s i k ne =
    ap (lookup k) (current-append key_of s.instances i)
    ∙ lookup-insert_ne k i.instance_id i (now_of s) ne

inactive_total :
    (id : String) (m : Map Instance)
    → All
        (λ (i : Instance). is_active i.observed_state ≡ false)
        (select (λ (i : Instance). i.deployment_id == id) (values m))
    → total id m ≡ 0
unfolding total select weight
inactive_total id [] h = refl
inactive_total id ((k, i) ∷ m) h =
    inactive_head (i.deployment_id == id) (is_active i.observed_state) (total id m)
      (select (λ (i : Instance). i.deployment_id == id) (values m)) i refl refl h
      (inactive_total id m)
  where
    inactive_head :
        (b c : Bool) (n : ℕ) (rest : List Instance) (i : Instance)
        → is_active i.observed_state ≡ c
        → b ≡ b
        → All (λ (i : Instance). is_active i.observed_state ≡ false) (if b then i ∷ rest else rest)
        → (All (λ (i : Instance). is_active i.observed_state ≡ false) rest → n ≡ 0)
        → (if b && c then 1 else 0) + n ≡ 0
    inactive_head true c n rest i e _ h f = ground (arith, e, h.0, f h.1)
    inactive_head false c n rest i e _ h f = ground (arith, f h)

-- No active instance, no weight.
pub none-count : (s : State) (id : String) → active_instance s id ≡ none → active_count id s ≡ 0
unfolding active_instance instances_of
none-count s id e =
    inactive_total id (now_of s) (latest-none (λ (i : Instance). is_active i.observed_state) _ e)

-- The active instance that is found is the entry of its identifier.
pub active-now :
    (s : State) (id : String) (i : Instance)
    → active_instance s id ≡ some i
    → (lookup i.instance_id (now_of s) ≡ some i)
      × ((i.deployment_id == id) ≡ true)
      × (is_active i.observed_state ≡ true)
unfolding active_instance instances_of
active-now s id i e =
    latest-lookup key_of (λ (i : Instance). is_active i.observed_state)
      (λ (i : Instance). i.deployment_id == id) s.instances i e
