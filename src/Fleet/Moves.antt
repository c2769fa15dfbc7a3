-- ===== src/Fleet/Moves.antt =====
-- What the steps of one instance do to the instances of all deployments.
use agent_capability_forge.Prelude.{
  ℕ, ◌+◌, ◌≤◌, String, Bool, true, false, none, some, [], ◌∷◌, ◌≡◌, refl, sym, ◌∙◌, ap, subst,
  arith, ◌==◌, ==_iff, string_eq, if_cases, Map, lookup, insert,
}
use agent_capability_forge.Records.{Text}
use agent_capability_forge.Disk.{Outcome, ok, blocked, raised}
use agent_capability_forge.Managed.{
  Observed, ready, deploying, pending, starting, running, stopping, stopped, failed, revoked,
  unknown, Version, Instance, State, Answer, Runtime, Manager, is_active, start_max_attempts,
  append_instance, starting_of, running_of, stopping_of, stopped_of, failed_of, start_result,
  start_answered, start_again, stop_result, stop_answered, stop_instance,
}
use agent_capability_forge.Fleet.Logs.{current-append}
use agent_capability_forge.Fleet.Active.{
  key_of, now_of, weight, active_count, count-append_old, lookup-append, lookup-append_ne,
}

abbrev pub AllBounded : Map Instance → Type 0
AllBounded [] = Unit
AllBounded ((k, i) ∷ m) = (i.attempt_count ≤ start_max_attempts) × AllBounded m

-- No instance counts more start attempts than are allowed.
abbrev pub IsBounded : State → Type 0
IsBounded s = AllBounded (now_of s)

AllBounded-insert :
    (k : String) (i : Instance) (m : Map Instance)
    → i.attempt_count ≤ start_max_attempts
    → AllBounded m
    → AllBounded (insert k i m)
unfolding insert
AllBounded-insert k i [] h b = (h, tt)
AllBounded-insert k i ((j, x) ∷ m) h b =
    if_cases AllBounded (j == k) (λ _. (h, b.1)) (λ _. (b.0, AllBounded-insert k i m h b.1))

pub IsBounded-append :
    (s : State) (i : Instance)
    → i.attempt_count ≤ start_max_attempts
    → IsBounded s
    → IsBounded (append_instance s i)
IsBounded-append s i h b =
    subst AllBounded (sym (current-append key_of s.instances i))
      (AllBounded-insert i.instance_id i (now_of s) h b)

pub AllBounded-lookup :
    (k : String) (i : Instance) (m : Map Instance)
    → lookup k m ≡ some i
    → AllBounded m
    → i.attempt_count ≤ start_max_attempts
unfolding lookup
AllBounded-lookup k i [] e b = cc
AllBounded-lookup k i ((j, x) ∷ m) e b = ground (arith, AllBounded-lookup k i m)

-- From `s` to `t` no deployment gains an active instance, the bound on attempts is kept, and no
-- identifier is taken.
pub record Steady (s t : State) : Type 0 where
  pub counts : (id : String) → active_count id t ≤ active_count id s
  pub bounded : IsBounded s → IsBounded t
  pub unused : (k : String) → lookup k (now_of s) ≡ none → lookup k (now_of t) ≡ none

pub Steady-refl : (s : State) → Steady s s
Steady-refl s = record { counts = λ id. omega arith; bounded = λ b. b; unused = λ k e. e }

pub Steady-trans : {s t u : State} → Steady s t → Steady t u → Steady s u
Steady-trans a b = record {
  counts = λ id. omega (arith, a.counts id, b.counts id);
  bounded = λ h. b.bounded (a.bounded h);
  unused = λ k e. b.unused k (a.unused k e);
}

weight-le :
    (id : String) (new old : Instance)
    → new.deployment_id ≡ old.deployment_id
    → (is_active new.observed_state ≡ true → is_active old.observed_state ≡ true)
    → weight id new ≤ weight id old
unfolding weight
weight-le id new old d act = ground (arith, ap (λ z. z == id) d)

-- An event of an instance that is there, which does not wake an inactive one.
module _ (s : State) (new old : Instance) (there : lookup new.instance_id (now_of s) ≡ some old)
    (d : new.deployment_id ≡ old.deployment_id)
    (act : is_active new.observed_state ≡ true → is_active old.observed_state ≡ true)
    (att : old.attempt_count ≤ start_max_attempts → new.attempt_count ≤ start_max_attempts) where
  pub append-Steady : Steady s (append_instance s new)
  append-Steady = record {
    counts = λ id. omega (arith, count-append_old s new old id there, weight-le id new old d act);
    bounded = λ b.
        IsBounded-append s new (att (AllBounded-lookup new.instance_id old (now_of s) there b)) b;
    unused = λ k e.
        lookup-append_ne s new k (λ same. cc (e, there, ap (λ z. lookup z (now_of s)) same)) ∙ e;
  }

-- The state behind a start or a stop.
abbrev pub SteadyAfter : State → Outcome (Instance × Bool) × State → Type 0
SteadyAfter s r = Steady s r.1

module _ (s : State) (i : Instance) (there : lookup i.instance_id (now_of s) ≡ some i)
    (act : is_active i.observed_state ≡ true) where
  running-Steady : Steady s (append_instance s (running_of i))
  running-Steady = append-Steady s (running_of i) i there refl (λ _. act) (λ b. b)

  failed-Steady : (reason : Text) → Steady s (append_instance s (failed_of i reason))
  failed-Steady reason = append-Steady s (failed_of i reason) i there refl (λ _. act) (λ b. b)

  start_result-Steady : (o : Observed) (t : Text) → Steady s (start_result s i o t).1
  unfolding start_result
  start_result-Steady running t = running-Steady
  start_result-Steady ready t = failed-Steady _
  start_result-Steady deploying t = failed-Steady _
  start_result-Steady pending t = failed-Steady _
  start_result-Steady starting t = failed-Steady _
  start_result-Steady stopping t = failed-Steady _
  start_result-Steady stopped t = failed-Steady _
  start_result-Steady failed t = failed-Steady _
  start_result-Steady revoked t = failed-Steady _
  start_result-Steady unknown t = failed-Steady _

  start_answered-Steady : (a : Outcome Answer) → Steady s (start_answered s i a).1
  unfolding start_answered
  start_answered-Steady (ok a) = start_result-Steady a.observed_state a.failure_reason
  start_answered-Steady (blocked cs) = Steady-refl s
  start_answered-Steady raised = Steady-refl s

pub start_again-Steady :
    (s : State) (v : Version) (r : Runtime) (i : Instance) (attempt : ℕ)
    → lookup i.instance_id (now_of s) ≡ some i
    → is_active i.observed_state ≡ true
    → attempt ≤ start_max_attempts
    → Steady s (start_again s v r i attempt).1
unfolding start_again
start_again-Steady s v r i attempt there act le =
    let j = starting_of i attempt in
    Steady-trans (append-Steady s j i there refl (λ _. act) (λ _. le))
      (start_answered-Steady (append_instance s j) j (lookup-append s j) refl (r.start j v))

-- A stop: no deployment gains an active instance, and one that is confirmed loses one.
abbrev pub Stops : State → Instance → Outcome (Instance × Bool) × State → Type 0
Stops s i (ok (j, true), t) =
    Steady s t
    × (active_count i.deployment_id t + 1 ≤ active_count i.deployment_id s)
    × (lookup j.instance_id (now_of t) ≡ some j)
    × (j.observed_state ≡ stopped)
Stops s i (ok (j, false), t) = Steady s t
Stops s i (blocked cs, t) = Steady s t
Stops s i (raised, t) = Steady s t

weight-one : (i : Instance) → is_active i.observed_state ≡ true → weight i.deployment_id i ≡ 1
unfolding weight
weight-one i act = ground (arith, act, ==_iff i.deployment_id i.deployment_id)

weight-zero : (id : String) (i : Instance) → is_active i.observed_state ≡ false → weight id i ≡ 0
unfolding weight
weight-zero id i e = ground (arith, e)

module _ (m : Manager) (s t : State) (i : Instance) (first : Steady s t)
    (there : lookup i.instance_id (now_of t) ≡ some i)
    (act : is_active i.observed_state ≡ true) where
  stop_failed : (reason : Text) → Steady s (append_instance t (failed_of i reason))
  stop_failed reason = Steady-trans first (failed-Steady t i there act reason)

  stop_result-Stops : (o : Observed) (text : Text) → Stops s i (stop_result m t i o text)
  unfolding stop_result
  stop_result-Stops stopped text =
      let j = stopped_of m i in
      (
        Steady-trans first (append-Steady t j i there refl (λ e. cc) (λ b. b)),
        omega (
          arith,
          count-append_old t j i i.deployment_id there,
          weight-one i act,
          weight-zero i.deployment_id j refl,
          first.counts i.deployment_id,
        ),
        lookup-append t j,
        refl,
      )
  stop_result-Stops ready text = stop_failed _
  stop_result-Stops deploying text = stop_failed _
  stop_result-Stops pending text = stop_failed _
  stop_result-Stops starting text = stop_failed _
  stop_result-Stops running text = stop_failed _
  stop_result-Stops stopping text = stop_failed _
  stop_result-Stops failed text = stop_failed _
  stop_result-Stops revoked text = stop_failed _
  stop_result-Stops unknown text = stop_failed _

  stop_answered-Stops : (a : Outcome Answer) → Stops s i (stop_answered m t i a)
  unfolding stop_answered
  stop_answered-Stops (ok a) = stop_result-Stops a.observed_state a.failure_reason
  stop_answered-Stops (blocked cs) = first
  stop_answered-Stops raised = first

pub stop-Stops :
    (m : Manager) (s : State) (r : Runtime) (i : Instance)
    → lookup i.instance_id (now_of s) ≡ some i
    → is_active i.observed_state ≡ true
    → Stops s i (stop_instance m s r i)
unfolding stop_instance
stop-Stops m s r i there act =
    let j = stopping_of i in
    stop_answered-Stops m s (append_instance s j) j
      (append-Steady s j i there refl (λ _. act) (λ b. b)) (lookup-append s j) refl (r.stop j)
