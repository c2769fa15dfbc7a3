-- ===== src/Prelude/Equality.antt =====
-- Python's `==` on the values that the program compares, as a class with its law.
use Prim.Native.Nat.{ℕ, compare, Ordering}
use Prim.Native.String.{String}
use mathlib.Core.Path.{◌≡◌, refl, sym, ◌∙◌}
use mathlib.Core.Logic.{◌↔◌, ◌≢◌}
use mathlib.Core.Bool.{Bool, true, false, not, ◌&&◌, false≢true}
use mathlib.Core.Option.{Option, none, some}
use mathlib.Core.List.{List, [], ◌∷◌}
use native.Mathlib.Omega.{arith}
use text.Mathlib.Text.{◌==◌ as str_eq}
use text.Mathlib.TextEquality.{eq_iff}

pub record Comparison {ℓ} (A : Type ℓ) : Type ℓ where
  pub equal : A → A → Bool
  pub equal_iff : (x y : A) → (equal x y ≡ true) ↔ (x ≡ y)

infix 50 ◌!=◌ ◌==◌
abbrev pub ◌==◌ {ℓ} : {A : Type ℓ} ⦃c : Comparison A⦄ → A → A → Bool
◌==◌ ⦃c⦄ = c.equal

abbrev pub ◌!=◌ {ℓ} : {A : Type ℓ} ⦃c : Comparison A⦄ → A → A → Bool
◌!=◌ ⦃c⦄ a b = not (c.equal a b)

abbrev pub bool_beq : Bool → Bool → Bool
bool_beq true b = b
bool_beq false b = not b

pub bool_beq_iff : (a b : Bool) → (bool_beq a b ≡ true) ↔ (a ≡ b)
bool_beq_iff a b = ground arith

instance abbrev pub bool_eq : Comparison Bool
bool_eq = record { equal = bool_beq; equal_iff = bool_beq_iff }

abbrev pub nat_beq : ℕ → ℕ → Bool
nat_beq a b = elim (compare a b) [ Ordering.eq ↦ true | _ ↦ false ]

pub nat_beq_iff : (a b : ℕ) → (nat_beq a b ≡ true) ↔ (a ≡ b)
nat_beq_iff a b = ground arith

instance abbrev pub nat_eq : Comparison ℕ
nat_eq = record { equal = nat_beq; equal_iff = nat_beq_iff }

instance abbrev pub string_eq : Comparison String
string_eq = record { equal_iff = eq_iff; equal = str_eq }

module _ {ℓ} {A : Type ℓ} ⦃c : Comparison A⦄ where
  abbrev pub option_beq : Option A → Option A → Bool
  option_beq none none = true
  option_beq none (some b) = false
  option_beq (some a) none = false
  option_beq (some a) (some b) = c.equal a b

  pub option_beq_iff : (a b : Option A) → (option_beq a b ≡ true) ↔ (a ≡ b)
  option_beq_iff none none = ground arith
  option_beq_iff none (some b) = ground arith
  option_beq_iff (some a) none = ground arith
  option_beq_iff (some a) (some b) = ground (arith, c.equal_iff a b)

  instance abbrev pub option_eq : Comparison (Option A)
  option_eq = record { equal = option_beq; equal_iff = option_beq_iff }

  abbrev pub list_beq : List A → List A → Bool
  list_beq [] [] = true
  list_beq [] (y ∷ ys) = false
  list_beq (x ∷ xs) [] = false
  list_beq (x ∷ xs) (y ∷ ys) = c.equal x y && list_beq xs ys

  pub list_beq_iff : (xs ys : List A) → (list_beq xs ys ≡ true) ↔ (xs ≡ ys)
  list_beq_iff [] [] = ground arith
  list_beq_iff [] (y ∷ ys) = ground arith
  list_beq_iff (x ∷ xs) [] = ground arith
  list_beq_iff (x ∷ xs) (y ∷ ys) = ground (arith, c.equal_iff x y, list_beq_iff xs ys)

  instance abbrev pub list_eq : Comparison (List A)
  list_eq = record { equal = list_beq; equal_iff = list_beq_iff }

  pub ==_iff : (a b : A) → ((a == b) ≡ true) ↔ (a ≡ b)
  ==_iff a b = c.equal_iff a b

  pub beq_refl : (a : A) → c.equal a a ≡ true
  beq_refl a = (c.equal_iff a a).1 refl

  pub beq-false : (a b : A) → (a == b) ≡ false → a ≢ b
  beq-false a b h p = false≢true (sym h ∙ (c.equal_iff a b).1 p)

  pub ne-false_iff : (a b : A) → ((a != b) ≡ false) ↔ (a ≡ b)
  ne-false_iff a b = ground (arith, c.equal_iff a b)

-- The conjunction of a list of tests, by which records are compared field by field.
abbrev pub conj : List Bool → Bool
conj [] = true
conj (b ∷ bs) = b && conj bs

abbrev pub AllTrue : List Bool → Type 0
AllTrue [] = Unit
AllTrue (b ∷ bs) = (b ≡ true) × AllTrue bs

pub conj-true : (bs : List Bool) → conj bs ≡ true → AllTrue bs
conj-true [] h = tt
conj-true (true ∷ bs) h = (refl, conj-true bs h)
conj-true (false ∷ bs) h = cc

pub true-conj : (bs : List Bool) → AllTrue bs → conj bs ≡ true
true-conj [] h = refl
true-conj (true ∷ bs) h = true-conj bs h.1
true-conj (false ∷ bs) h = cc (h.0)
