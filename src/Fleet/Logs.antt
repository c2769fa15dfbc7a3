-- ===== src/Fleet/Logs.antt =====
-- An append-only log against the dict that it stands for.
use agent_capability_forge.Prelude.{
  String, Bool, true, false, none, some, List, [], ◌∷◌, ◌++◌, ◌≡◌, ◌⊎◌, inl, inr, refl, sym, ◌∙◌,
  ap, subst, arith, ◌==◌, ==_iff, beq-false, string_eq, beq_refl, if_cases, Map, lookup, insert,
  lookup-insert_ne, All, Exists, select, if◌then◌else◌,
}
use agent_capability_forge.Managed.{latest, current_from, current, values}

module _ {A : Type 0} (p : A → Bool) where
  -- An event of another kind changes nothing.
  pub latest-append_other :
      (log : List A) (x : A) → p x ≡ false → latest p (log ++ x ∷ []) ≡ latest p log
  unfolding latest
  latest-append_other [] x e = ground (arith, e)
  latest-append_other (y ∷ log) x e = rw (latest-append_other log x e) refl

  pub latest-append : (log : List A) (x : A) → p x ≡ true → latest p (log ++ x ∷ []) ≡ some x
  unfolding latest
  latest-append [] x e = ground (arith, e)
  latest-append (y ∷ log) x e = rw (latest-append log x e) refl

module _ {A : Type 0} where
  pub latest-true : (p : A → Bool) (xs : List A) (x : A) → latest p xs ≡ some x → p x ≡ true
  unfolding latest
  latest-true p [] x e = cc
  latest-true p (y ∷ ys) x e = ground (arith, latest-true p ys x)

  latest-Exists :
      (p : A → Bool) (xs : List A) (x : A) → latest p xs ≡ some x → Exists (λ y. y ≡ x) xs
  unfolding latest
  latest-Exists p [] x e = cc
  latest-Exists p (y ∷ ys) x e = ground (arith, latest-Exists p ys x)

  pub latest-none : (p : A → Bool) (xs : List A) → latest p xs ≡ none → All (λ x. p x ≡ false) xs
  unfolding latest
  latest-none p [] e = tt
  latest-none p (y ∷ ys) e = ground (arith, latest-none p ys)

  module _ (key : A → String) where
    current_from-append :
        (m : Map A) (log : List A) (x : A)
        → current_from key m (log ++ x ∷ []) ≡ insert (key x) x (current_from key m log)
    unfolding current_from
    current_from-append m [] x = refl
    current_from-append m (y ∷ log) x = current_from-append (insert (key y) y m) log x

    -- An event that is appended is an entry that is written.
    pub current-append :
        (log : List A) (x : A) → current key (log ++ x ∷ []) ≡ insert (key x) x (current key log)
    unfolding current
    current-append log x = current_from-append [] log x

    -- Each entry has its own key, and no key stands twice.
    abbrev pub Keyed : Map A → Type 0
    Keyed [] = Unit
    Keyed ((k, x) ∷ m) = (key x ≡ k) × (lookup k m ≡ none) × Keyed m

    insert-Keyed : (x : A) (m : Map A) → Keyed m → Keyed (insert (key x) x m)
    unfolding insert lookup
    insert-Keyed x [] h = (refl, refl, tt)
    insert-Keyed x ((j, y) ∷ m) h =
        if_cases Keyed (j == key x) (λ e. (sym ((==_iff j (key x)).0 e), h.1, h.2))
          (λ e. (
            h.0,
            lookup-insert_ne j (key x) x m (beq-false j (key x) e) ∙ h.1,
            insert-Keyed x m h.2,
          ))

    current_from-Keyed : (m : Map A) (log : List A) → Keyed m → Keyed (current_from key m log)
    unfolding current_from
    current_from-Keyed m [] h = h
    current_from-Keyed m (x ∷ log) h =
        current_from-Keyed (insert (key x) x m) log (insert-Keyed x m h)

    pub current-Keyed : (log : List A) → Keyed (current key log)
    unfolding current
    current-Keyed log = current_from-Keyed [] log tt

    head_or_tail :
        (b : Bool) (y x : A) (ys : List A)
        → Exists (λ z. z ≡ x) (if b then y ∷ ys else ys)
        → ((y ≡ x) × (b ≡ true)) ⊎ Exists (λ z. z ≡ x) ys
    head_or_tail true y x ys (inl same) = inl (same, refl)
    head_or_tail true y x ys (inr rest) = inr rest
    head_or_tail false y x ys e = inr e

    -- A key that is found in the rest is not the key of the head.
    lookup-tail :
        (k j : String) (y x : A) (m : Map A)
        → lookup k m ≡ none
        → lookup j m ≡ some x
        → lookup j ((k, y) ∷ m) ≡ some x
    unfolding lookup
    lookup-tail k j y x m a b =
        if_cases (λ o. o ≡ some x) (k == j)
          (λ e. cc (a, b, ap (λ z. lookup z m) ((==_iff k j).0 e))) (λ e. b)

    lookup-head : (k : String) (y : A) (m : Map A) → lookup k ((k, y) ∷ m) ≡ some y
    unfolding lookup
    lookup-head k y m = rw (beq_refl k) refl

    pub Keyed-lookup :
        (q : A → Bool) (m : Map A) (x : A)
        → Keyed m
        → Exists (λ y. y ≡ x) (select q (values m))
        → (lookup (key x) m ≡ some x) × (q x ≡ true)
    unfolding lookup select
    Keyed-lookup q [] x h e = elim e [ ]
    Keyed-lookup q ((k, y) ∷ m) x h e = elim (head_or_tail (q y) y x (select q (values m)) e) [
      | inl (same, true_) ↦ (
        subst (λ z. lookup (key z) ((k, y) ∷ m) ≡ some z) same
            (subst (λ j. lookup j ((k, y) ∷ m) ≡ some y) (sym h.0) (lookup-head k y m)),
        subst (λ z. q z ≡ true) same true_,
      )
      | inr rest ↦
          let found = Keyed-lookup q m x h.2 rest in
          (lookup-tail k (key x) y x m h.1 found.0, found.1)
    ]

    -- The last element of a kind, with the entry that it is.
    pub latest-lookup :
        (p q : A → Bool) (log : List A) (x : A)
        → latest p (select q (values (current key log))) ≡ some x
        → (lookup (key x) (current key log) ≡ some x) × (q x ≡ true) × (p x ≡ true)
    latest-lookup p q log x e =
        let found =
          Keyed-lookup q (current key log) x (current-Keyed log) (latest-Exists p _ x e) in
        (found.0, found.1, latest-true p _ x e)
