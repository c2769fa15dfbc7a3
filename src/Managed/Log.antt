-- ===== src/Managed/Log.antt =====
-- An append-only file of JSON lines, oldest first: _append, _latest and _current of
-- pilot/managed_runtime.py. A file that is missing has no lines.
use agent_capability_forge.Prelude.{
  String, Bool, Option, none, some, List, [], ◌∷◌, ◌++◌, map, Map, insert, if◌then◌else◌,
}

module _ {A : Type 0} where
  -- `_append`
  abbrev pub append_event : List A → A → List A
  append_event log event = log ++ event ∷ []

  -- `for line in reversed(lines): if test: return rec`
  unfoldable pub latest : (A → Bool) → List A → Option A
  latest p [] = none
  latest p (x ∷ xs) = elim (latest p xs) [ none ↦ if p x then some x else none | some y ↦ some y ]

  -- `current[rec[id_key]] = rec`, line by line
  unfoldable pub current_from : (A → String) → Map A → List A → Map A
  current_from key m [] = m
  current_from key m (x ∷ xs) = current_from key (insert (key x) x m) xs

  unfoldable pub current : (A → String) → List A → Map A
  current key log = current_from key [] log

  -- `list(current.values())`
  abbrev pub values : Map A → List A
  values m = map (λ e. e.1) m
