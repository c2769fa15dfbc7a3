-- ===== src/Fleet/Views.antt =====
-- The two readings of a log in pilot/managed_runtime.py: backwards for one key, forwards into a dict.
use agent_capability_forge.Prelude.{
  String, Bool, true, false, Option, none, some, List, [], ◌∷◌, ◌≡◌, refl, sym, ◌∙◌, ap, ◌==◌,
  ==_iff, beq-false, string_eq, Bool-cases, inl, inr, Map, lookup, insert, arith,
  lookup-insert_self, lookup-insert_ne, if◌then◌else◌,
}
use agent_capability_forge.Managed.{latest, current, current_from}

abbrev or_lookup : {A : Type 0} → Option A → Option A → Option A
or_lookup none o = o
or_lookup (some x) o = some x

or_lookup-none : {A : Type 0} (o : Option A) → or_lookup o none ≡ o
or_lookup-none none = refl
or_lookup-none (some x) = refl

or_lookup-if :
    {A : Type 0} (o n : Option A) (b : Bool) (x : A)
    → or_lookup o (if b then some x else n)
      ≡ or_lookup (elim o [ none ↦ if b then some x else none | some y ↦ some y ]) n
or_lookup-if none n true x = refl
or_lookup-if none n false x = refl
or_lookup-if (some y) n b x = refl

module _ {A : Type 0} (key : A → String) (k : String) where
  lookup-insert :
      (x : A) (m : Map A)
      → lookup k (insert (key x) x m) ≡ (if key x == k then some x else lookup k m)
  lookup-insert x m = elim (Bool-cases (key x == k)) [
    | inl e ↦ cc (e, (==_iff (key x) k).0 e, lookup-insert_self (key x) x m)
    | inr e ↦
        lookup-insert_ne k (key x) x m (λ same. beq-false (key x) k e (sym same))
        ∙ ground (arith, e)
  ]

  latest-from :
      (log : List A) (m : Map A)
      → lookup k (current_from key m log) ≡ or_lookup (latest (λ x. key x == k) log) (lookup k m)
  unfolding current_from latest
  latest-from [] m = refl
  latest-from (x ∷ log) m =
      latest-from log (insert (key x) x m)
      ∙ ap (or_lookup (latest (λ y. key y == k) log)) (lookup-insert x m)
      ∙ or_lookup-if (latest (λ y. key y == k) log) (lookup k m) (key x == k) x

  -- The last event with a key, read from the end of a log, is the entry that stands under the key
  -- in the dict made of the whole log.
  pub latest-current : (log : List A) → latest (λ x. key x == k) log ≡ lookup k (current key log)
  unfolding current lookup
  latest-current log = sym (latest-from log [] ∙ or_lookup-none (latest (λ x. key x == k) log))
