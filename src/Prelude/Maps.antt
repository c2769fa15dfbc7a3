-- ===== src/Prelude/Maps.antt =====
-- JSON objects with text keys, as Python's dicts: association lists that keep insertion order.
use Prim.Native.String.{String}
use mathlib.Core.Path.{◌≡◌}
use mathlib.Core.Logic.{◌≢◌}
use mathlib.Core.Option.{Option, none, some}
use mathlib.Core.List.{List, [], ◌∷◌}
use native.Mathlib.Omega.{arith}
use agent_capability_forge.Prelude.Tests.{if◌then◌else◌}
use agent_capability_forge.Prelude.Equality.{◌==◌, ==_iff, string_eq}

abbrev pub Map {ℓ} : Type ℓ → Type ℓ
Map V = List (String × V)

module _ {ℓ} {V : Type ℓ} where
  -- `m.get(k)`
  unfoldable pub lookup : String → Map V → Option V
  lookup k [] = none
  lookup k ((j, v) ∷ m) = if j == k then some v else lookup k m

  -- `m[k] = v`
  unfoldable pub insert : String → V → Map V → Map V
  insert k v [] = (k, v) ∷ []
  insert k v ((j, w) ∷ m) = if j == k then (j, v) ∷ m else (j, w) ∷ insert k v m

  pub lookup-insert_self : (k : String) (v : V) (m : Map V) → lookup k (insert k v m) ≡ some v
  unfolding lookup insert
  lookup-insert_self k v [] = ground (arith, ==_iff k k)
  lookup-insert_self k v ((j, w) ∷ m) =
      ground (arith, ==_iff j k, ==_iff k k, lookup-insert_self k v m)

  pub lookup-insert_ne :
      (j k : String) (v : V) (m : Map V) → j ≢ k → lookup j (insert k v m) ≡ lookup j m
  unfolding lookup insert
  lookup-insert_ne j k v [] h = ground (arith, ==_iff k j)
  lookup-insert_ne j k v ((i, w) ∷ m) h =
      ground (arith, ==_iff i k, ==_iff i j, lookup-insert_ne j k v m h)

-- `m.get(k)` where the key itself may be absent.
unfoldable pub get? {ℓ} : {V : Type ℓ} → Option String → Map V → Option V
get? none m = none
get? (some k) m = lookup k m
