-- ===== src/Fleet/Appends.antt =====
-- Which files of the state root reconcile of pilot/managed_runtime.py writes.
use agent_capability_forge.Prelude.{
  ℕ, Bool, true, false, List, [], ◌∷◌, ◌++◌, ◌≡◌, refl, sym, ◌∙◌, ap, string_eq, nat_eq,
}
use agent_capability_forge.Records.{Text}
use agent_capability_forge.Disk.{Outcome, ok, blocked, raised}
use agent_capability_forge.Managed.{
  Observed, ready, deploying, pending, starting, running, stopping, stopped, failed, revoked,
  unknown, Version, Deployment, Instance, State, Answer, Runtime, Manager, append_instance,
  new_instance, starting_of, running_of, stopping_of, stopped_of, revoked_of, start_result,
  start_answered, start_again, start_new, stop_result, stop_answered, stop_instance, Diff,
  report_on, report_result, switch_stopped, revoke_stopped, upgrade_it, stop_it,
}
use mathlib.Core.List.{append-nil, append_assoc}

-- `t` is `s` with more events of instances behind those that are there.
abbrev pub Writes : State → State → Type 0
Writes s t = (es : List Instance) × (t ≡ record s { instances = s.instances ++ es })

pub Writes-refl : (s : State) → Writes s s
Writes-refl s = ([], ap (λ xs. record s { instances = xs }) (sym (append-nil s.instances)))

pub Writes-one : (s : State) (i : Instance) → Writes s (append_instance s i)
Writes-one s i = (i ∷ [], refl)

Writes-trans : (s t u : State) → Writes s t → Writes t u → Writes s u
Writes-trans s t u (es, e) (fs, f) = (
  es ++ fs,
  f
      ∙ ap (λ (v : State). record v { instances = v.instances ++ fs }) e
      ∙ ap (λ xs. record s { instances = xs }) (append_assoc s.instances es fs),
)

Writes-more : (s t : State) (i : Instance) → Writes s t → Writes s (append_instance t i)
Writes-more s t i a = Writes-trans s t (append_instance t i) a (Writes-one t i)

-- The state that a call leaves.
abbrev pub LeavesWritten : {A : Type 0} → State → Outcome A × State → Type 0
LeavesWritten s o = Writes s o.1

module _ (s t : State) (a : Writes s t) where
  start_result-Writes :
      (i : Instance) (o : Observed) (x : Text) → LeavesWritten s (start_result t i o x)
  unfolding start_result
  start_result-Writes i running x = Writes-more s t (running_of i) a
  start_result-Writes i ready x = Writes-more s t _ a
  start_result-Writes i deploying x = Writes-more s t _ a
  start_result-Writes i pending x = Writes-more s t _ a
  start_result-Writes i starting x = Writes-more s t _ a
  start_result-Writes i stopping x = Writes-more s t _ a
  start_result-Writes i stopped x = Writes-more s t _ a
  start_result-Writes i failed x = Writes-more s t _ a
  start_result-Writes i revoked x = Writes-more s t _ a
  start_result-Writes i unknown x = Writes-more s t _ a

  stop_result-Writes :
      (m : Manager) (i : Instance) (o : Observed) (x : Text)
      → LeavesWritten s (stop_result m t i o x)
  unfolding stop_result
  stop_result-Writes m i stopped x = Writes-more s t (stopped_of m i) a
  stop_result-Writes m i ready x = Writes-more s t _ a
  stop_result-Writes m i deploying x = Writes-more s t _ a
  stop_result-Writes m i pending x = Writes-more s t _ a
  stop_result-Writes m i starting x = Writes-more s t _ a
  stop_result-Writes m i stopping x = Writes-more s t _ a
  stop_result-Writes m i running x = Writes-more s t _ a
  stop_result-Writes m i failed x = Writes-more s t _ a
  stop_result-Writes m i revoked x = Writes-more s t _ a
  stop_result-Writes m i unknown x = Writes-more s t _ a

  start_answered-Writes :
      (i : Instance) (o : Outcome Answer) → LeavesWritten s (start_answered t i o)
  unfolding start_answered
  start_answered-Writes i (ok x) = start_result-Writes i x.observed_state x.failure_reason
  start_answered-Writes i (blocked cs) = a
  start_answered-Writes i raised = a

  stop_answered-Writes :
      (m : Manager) (i : Instance) (o : Outcome Answer) → LeavesWritten s (stop_answered m t i o)
  unfolding stop_answered
  stop_answered-Writes m i (ok x) = stop_result-Writes m i x.observed_state x.failure_reason
  stop_answered-Writes m i (blocked cs) = a
  stop_answered-Writes m i raised = a

module _ (s t : State) (a : Writes s t) (v : Version) (r : Runtime) where
  pub start_again-Writes : (i : Instance) (n : ℕ) → LeavesWritten s (start_again t v r i n)
  unfolding start_again
  start_again-Writes i n =
      let j = starting_of i n in
      start_answered-Writes s (append_instance t j) (Writes-more s t j a) j (r.start j v)

module _ (m : Manager) (x : Deployment) (v : Version) (r : Runtime) where
  start_new-Writes : (s t : State) → Writes s t → LeavesWritten s (start_new m t x v r)
  unfolding start_new
  start_new-Writes s t a =
      start_again-Writes s (append_instance t (new_instance m x v))
        (Writes-more s t (new_instance m x v) a) v r (new_instance m x v) 1

  pub stop_instance-Writes : (s : State) (i : Instance) → LeavesWritten s (stop_instance m s r i)
  unfolding stop_instance
  stop_instance-Writes s i =
      let j = stopping_of i in
      stop_answered-Writes s (append_instance s j) (Writes-one s j) m j (r.stop j)

  pub report-Writes :
      (s : State) (d : Diff) (o : Outcome (Instance × Bool) × State)
      → LeavesWritten s o
      → LeavesWritten s (report_result x d o)
  unfolding report_result report_on
  report-Writes s d (ok (i, good), t) a = a
  report-Writes s d (blocked cs, t) a = a
  report-Writes s d (raised, t) a = a

  switch_stopped-Writes :
      (s : State) (o : Outcome (Instance × Bool) × State)
      → LeavesWritten s o
      → LeavesWritten s (switch_stopped m x v r o)
  unfolding switch_stopped report_on
  switch_stopped-Writes s (ok (i, true), t) a =
      report-Writes s upgrade_it (start_new m t x v r) (start_new-Writes s t a)
  switch_stopped-Writes s (ok (i, false), t) a = a
  switch_stopped-Writes s (blocked cs, t) a = a
  switch_stopped-Writes s (raised, t) a = a

  pub revoke_stopped-Writes :
      (s : State) (o : Outcome (Instance × Bool) × State)
      → LeavesWritten s o
      → LeavesWritten s (revoke_stopped m x o)
  unfolding revoke_stopped report_on
  revoke_stopped-Writes s (ok (i, true), t) a = Writes-more s t (revoked_of m i) a
  revoke_stopped-Writes s (ok (i, false), t) a = a
  revoke_stopped-Writes s (blocked cs, t) a = a
  revoke_stopped-Writes s (raised, t) a = a

  module _ (s : State) where
    pub started-Writes : (d : Diff) → LeavesWritten s (report_result x d (start_new m s x v r))
    started-Writes d =
        report-Writes s d (start_new m s x v r) (start_new-Writes s s (Writes-refl s))

    pub switched-Writes :
        (i : Instance) → LeavesWritten s (switch_stopped m x v r (stop_instance m s r i))
    switched-Writes i = switch_stopped-Writes s (stop_instance m s r i) (stop_instance-Writes s i)

    pub stopped-Writes :
        (i : Instance) → LeavesWritten s (report_result x stop_it (stop_instance m s r i))
    stopped-Writes i = report-Writes s stop_it (stop_instance m s r i) (stop_instance-Writes s i)
