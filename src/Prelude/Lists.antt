-- ===== src/Prelude/Lists.antt =====
-- `next`, `any` and `all` over a list, and reports: the codes that a sequence of
-- `if test: block(code)` statements leaves.
use mathlib.Core.Path.{◌≡◌, refl}
use mathlib.Core.Logic.{◌↔◌, ◌⊎◌, inl, inr}
use mathlib.Core.Bool.{Bool, true, false, ◌&&◌, ◌||◌}
use mathlib.Core.Option.{Option, none, some}
use mathlib.Core.List.{List, [], ◌∷◌, ◌++◌}
use native.Mathlib.Omega.{arith}
use agent_capability_forge.Prelude.Tests.{if◌then◌else◌}

module _ {ℓ} {A : Type ℓ} where
  -- `next((x for x in xs if p(x)), None)`
  unfoldable pub find : (A → Bool) → List A → Option A
  find p [] = none
  find p (x ∷ xs) = if p x then some x else find p xs

  unfoldable pub any : (A → Bool) → List A → Bool
  any p [] = false
  any p (x ∷ xs) = p x || any p xs

  unfoldable pub all : (A → Bool) → List A → Bool
  all p [] = true
  all p (x ∷ xs) = p x && all p xs

  -- `[x for x in xs if p(x)]`
  unfoldable pub select : (A → Bool) → List A → List A
  select p [] = []
  select p (x ∷ xs) = if p x then x ∷ select p xs else select p xs

  -- Every element has the property.
  abbrev pub All {κ} : (A → Type κ) → List A → Type κ
  All P [] = Unit
  All P (x ∷ xs) = P x × All P xs

  pub find-true : (p : A → Bool) (xs : List A) (x : A) → find p xs ≡ some x → p x ≡ true
  unfolding find
  find-true p [] x h = ground arith
  find-true p (y ∷ ys) x h = ground (arith, find-true p ys x)

  -- `xs ++ ys` is empty exactly when both are.
  pub append-nil_iff : (xs ys : List A) → ((xs ++ ys) ≡ []) ↔ ((xs ≡ []) × (ys ≡ []))
  append-nil_iff [] ys = ground arith
  append-nil_iff (x ∷ xs) ys = ground arith

  -- One `if test: block(code)` after another, each test beside its code.
  unfoldable pub report : List (Bool × A) → List A
  report [] = []
  report ((test, code) ∷ cs) = if test then code ∷ report cs else report cs

  -- A test that does not fire.
  abbrev pub Clear : Bool × A → Type 0
  Clear (test, _) = test ≡ false

  abbrev pub AllClear : List (Bool × A) → Type 0
  AllClear [] = Unit
  AllClear (c ∷ cs) = Clear c × AllClear cs

  -- A report is empty exactly when no test fires.
  pub report-nil : (cs : List (Bool × A)) → report cs ≡ [] → AllClear cs
  unfolding report
  report-nil [] h = tt
  report-nil ((test, code) ∷ cs) h = ground (arith, report-nil cs)

  pub report-clear : (cs : List (Bool × A)) → AllClear cs → report cs ≡ []
  unfolding report
  report-clear [] h = refl
  report-clear ((test, code) ∷ cs) h = ground (arith, report-clear cs h.1)

  -- The reports of one block after another.
  unfoldable pub collect : List (List A) → List A
  collect [] = []
  collect (b ∷ bs) = b ++ collect bs

  abbrev pub AllEmpty : List (List A) → Type ℓ
  AllEmpty [] = Unit
  AllEmpty (b ∷ bs) = (b ≡ []) × AllEmpty bs

  pub collect-nil : (bs : List (List A)) → collect bs ≡ [] → AllEmpty bs
  unfolding collect
  collect-nil [] h = tt
  collect-nil (b ∷ bs) h =
      let parts = (append-nil_iff b (collect bs)).0 h in (parts.0, collect-nil bs parts.1)

  pub collect-empty : (bs : List (List A)) → AllEmpty bs → collect bs ≡ []
  unfolding collect
  collect-empty [] h = refl
  collect-empty (b ∷ bs) h = (append-nil_iff b (collect bs)).1 (h.0, collect-empty bs h.1)

  -- Some element has the property.
  abbrev pub Exists : (A → Type 0) → List A → Type 0
  Exists P [] = ⊥
  Exists P (x ∷ xs) = P x ⊎ Exists P xs

  pub any-true : (p : A → Bool) (xs : List A) → any p xs ≡ true → Exists (λ x. p x ≡ true) xs
  unfolding any
  any-true p [] h = cc
  any-true p (x ∷ xs) h = ground (arith, any-true p xs)

  pub Exists-any : (p : A → Bool) (xs : List A) → Exists (λ x. p x ≡ true) xs → any p xs ≡ true
  unfolding any
  Exists-any p [] h = elim h [ ]
  Exists-any p (x ∷ xs) h = ground (arith, Exists-any p xs)

  pub any-false : (p : A → Bool) (xs : List A) → any p xs ≡ false → All (λ x. p x ≡ false) xs
  unfolding any
  any-false p [] h = tt
  any-false p (x ∷ xs) h = ground (arith, any-false p xs)

  pub All-any : (p : A → Bool) (xs : List A) → All (λ x. p x ≡ false) xs → any p xs ≡ false
  unfolding any
  All-any p [] h = refl
  All-any p (x ∷ xs) h = ground (arith, All-any p xs h.1)

  pub All-map {κ μ} :
      {P : A → Type κ} {Q : A → Type μ} (xs : List A) → ((x : A) → P x → Q x) → All P xs → All Q xs
  All-map [] f h = tt
  All-map (x ∷ xs) f h = (f x h.0, All-map xs f h.1)

  pub all-true : (p : A → Bool) (xs : List A) → all p xs ≡ true → All (λ x. p x ≡ true) xs
  unfolding all
  all-true p [] h = tt
  all-true p (x ∷ xs) h = ground (arith, all-true p xs)

  pub All-all : (p : A → Bool) (xs : List A) → All (λ x. p x ≡ true) xs → all p xs ≡ true
  unfolding all
  All-all p [] h = refl
  All-all p (x ∷ xs) h = ground (arith, All-all p xs h.1)

  -- A ladder of `if test: block(code)` / `elif`, one step at a time.
  pub ladder-nil :
      (b : Bool) (x : A) (rest : List A)
      → (if b then x ∷ [] else rest) ≡ []
      → (b ≡ false) × (rest ≡ [])
  ladder-nil true x rest h = cc
  ladder-nil false x rest h = (refl, h)

  pub Exists-map :
      {P Q : A → Type 0} (xs : List A) → ((x : A) → P x → Q x) → Exists P xs → Exists Q xs
  Exists-map [] f h = h
  Exists-map (x ∷ xs) f (inl h) = inl (f x h)
  Exists-map (x ∷ xs) f (inr h) = inr (Exists-map xs f h)
