-- ===== src/Fleet/Unique.antt =====
-- The active instance of a deployment that has one.
use agent_capability_forge.Prelude.{
  ◌+◌, ◌≤◌, String, true, false, none, some, [], ◌∷◌, ◌≡◌, sym, ◌∙◌, ap, arith, ◌==◌, ==_iff,
  string_eq, Bool-cases, Option-cases, inl, inr, Map, lookup,
}
use agent_capability_forge.Managed.{Instance, State, is_active, active_instance}
use agent_capability_forge.Fleet.Active.{
  now_of, weight, total, active_count, none-count, active-now,
}

pub weight-one :
    (id : String) (i : Instance)
    → (i.deployment_id == id) ≡ true
    → is_active i.observed_state ≡ true
    → weight id i ≡ 1
unfolding weight
weight-one id i own act = ground (arith, own, act)

pub weight-total :
    (id k : String) (i : Instance) (m : Map Instance)
    → lookup k m ≡ some i
    → weight id i ≤ total id m
unfolding total lookup
weight-total id k i [] e = cc
weight-total id k i ((j, x) ∷ m) e = ground (arith, weight-total id k i m)

two-total :
    (id k l : String) (i j : Instance) (m : Map Instance)
    → (k == l) ≡ false
    → lookup k m ≡ some i
    → lookup l m ≡ some j
    → weight id i + weight id j ≤ total id m
unfolding total lookup
two-total id k l i j [] ne e f = cc
two-total id k l i j ((h, x) ∷ m) ne e f = ground (
  arith,
  two-total id k l i j m ne,
  weight-total id k i m,
  weight-total id l j m,
  ==_iff h k,
  ==_iff h l,
  ==_iff k l,
)

two_active :
    (s : State) (id : String) (i j : Instance)
    → active_count id s ≤ 1
    → lookup i.instance_id (now_of s) ≡ some i
    → lookup j.instance_id (now_of s) ≡ some j
    → weight id i ≡ 1
    → weight id j ≡ 1
    → some j ≡ some i
two_active s id i j one e f a b =
    elim (Bool-cases (i.instance_id == j.instance_id)) as (λ _. some j ≡ some i) [
      | inl same ↦
          sym f
          ∙ ap (λ k. lookup k (now_of s)) (sym ((==_iff i.instance_id j.instance_id).0 same))
          ∙ e
      | inr other ↦
          absurd (too_many (two-total id i.instance_id j.instance_id i j (now_of s) other e f))
    ]
  where
    too_many : weight id i + weight id j ≤ total id (now_of s) → ⊥
    too_many h = omega (arith, h, a, b, one)

-- Where a deployment has at most one active instance, that is the one that is found.
pub active_instance_unique :
    (s : State) (id : String) (i : Instance)
    → active_count id s ≤ 1
    → lookup i.instance_id (now_of s) ≡ some i
    → (i.deployment_id == id) ≡ true
    → is_active i.observed_state ≡ true
    → active_instance s id ≡ some i
active_instance_unique s id i one e own act =
    elim (Option-cases (active_instance s id)) as (λ _. active_instance s id ≡ some i) [
      | inl nothing ↦ absurd (no_weight (none-count s id nothing))
      | inr (j, found) ↦
          let (f, own', act') = active-now s id j found in
          found ∙ two_active s id i j one e f (weight-one id i own act) (weight-one id j own' act')
    ]
  where
    no_weight : active_count id s ≡ 0 → ⊥
    no_weight h =
        omega (arith, h, weight-total id i.instance_id i (now_of s) e, weight-one id i own act)

-- No weight, no active instance.
pub count-none : (s : State) (id : String) → active_count id s ≡ 0 → active_instance s id ≡ none
count-none s id h =
    elim (Option-cases (active_instance s id)) as (λ _. active_instance s id ≡ none) [
      | inl nothing ↦ nothing
      | inr (j, found) ↦
          let (f, own, act) = active-now s id j found in
          absurd
            (no_weight j (weight-total id j.instance_id j (now_of s) f) (weight-one id j own act))
    ]
  where
    no_weight : (j : Instance) → weight id j ≤ active_count id s → weight id j ≡ 1 → ⊥
    no_weight j a b = omega (arith, a, b, h)
