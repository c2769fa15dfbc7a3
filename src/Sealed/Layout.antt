-- ===== src/Sealed/Layout.antt =====
-- What the layout check of src/forge/capabilityizer.py (artifact_layout) guarantees of a tree.
use agent_capability_forge.Prelude.{
  String, Bool, true, false, not, ◌||◌, Option, none, some, List, [], ◌∷◌, ◌≡◌, ◌≢◌, refl, sym,
  arith, ◌==◌, string_eq, beq-false, ==_iff, All, All-map, Exists, ◌⊎◌, inl, inr, any, any-false,
  select, report, report-nil, append-nil_iff, lookup, if◌then◌else◌, or-false_iff,
}
use agent_capability_forge.Code.{
  artifact_allowlist_duplicate, artifact_allowlist_file_missing, artifact_allowlist_path_invalid,
  undeclared_artifact_file,
}
use agent_capability_forge.Frozen.{
  Tree, Sealer, contains, repeats, present, is_file, paths, invalid_path, entry_violations, wanted,
  undeclared, artifact_layout, frozen_artifact_report,
}

-- No name stands twice in the list.
abbrev pub NoRepeats : List String → Type 0
NoRepeats [] = Unit
NoRepeats (x ∷ xs) = All (λ y. x ≢ y) xs × NoRepeats xs

-- A declared entry: a valid relative path, with a file of the tree at it.
pub record IsDeclared (s : Sealer) (t : Tree) (rel : String) : Type 0 where
  pub not_empty : rel ≢ ""
  pub relative : s.is_absolute rel ≡ false
  pub inside : s.has_parent_part rel ≡ false
  pub bytes : String
  pub there : lookup rel t ≡ some bytes

-- The tree has exactly the files that the allowlist names: the list is there, not empty and without
-- repetition, every entry is a file of the tree, and every file of the tree is an entry.
pub record HasExactly (s : Sealer) (t : Tree) (allowlist : Option (List String)) : Type 0 where
  pub names : List String
  pub named : allowlist ≡ some names
  pub some_name : names ≢ []
  pub once : NoRepeats names
  pub declared : All (IsDeclared s t) names
  pub nothing_else : All (λ p. Exists (λ rel. rel ≡ p) names) (paths t)

or-true : (a b : Bool) → (a || b) ≡ true → (a ≡ true) ⊎ (b ≡ true)
or-true a b e = ground (arith, e)

contains-All : (x : String) (xs : List String) → contains x xs ≡ false → All (λ y. x ≢ y) xs
contains-All x xs e = All-map xs (λ y h. beq-false x y h) (any-false (λ y. x == y) xs e)

repeats-NoRepeats : (xs : List String) → repeats xs ≡ false → NoRepeats xs
unfolding repeats
repeats-NoRepeats [] e = tt
repeats-NoRepeats (x ∷ xs) e =
    let p = (or-false_iff (contains x xs) (repeats xs)).0 e in
    (contains-All x xs p.0, repeats-NoRepeats xs p.1)

present-some : (o : Option String) → present o ≡ true → (b : String) × (o ≡ some b)
present-some none e = cc
present-some (some b) e = (b, refl)

entry-IsDeclared :
    (s : Sealer) (t : Tree) (rel : String)
    → invalid_path s rel ≡ false
    → is_file rel t ≡ true
    → IsDeclared s t rel
unfolding invalid_path
entry-IsDeclared s t rel v f =
    let a = (or-false_iff (rel == "" || s.is_absolute rel) (s.has_parent_part rel)).0 v in
    let b = (or-false_iff (rel == "") (s.is_absolute rel)).0 a.0 in
    let g = present-some (lookup rel t) f in
    record {
      not_empty = beq-false rel "" b.0;
      relative = b.1;
      inside = a.1;
      bytes = g.0;
      there = g.1;
    }

entry_clear :
    (bad here : Bool)
    → (if bad
        then artifact_allowlist_path_invalid ∷ []
        else if here
        then []
        else artifact_allowlist_file_missing ∷ [])
      ≡ []
    → (bad ≡ false) × (here ≡ true)
entry_clear bad here e = ground (arith, e)

entries-IsDeclared :
    (s : Sealer) (t : Tree) (rels : List String)
    → entry_violations s t rels ≡ []
    → All (IsDeclared s t) rels
unfolding entry_violations
entries-IsDeclared s t [] e = tt
entries-IsDeclared s t (rel ∷ rels) e =
    let p = (append-nil_iff _ (entry_violations s t rels)).0 e in
    let c = entry_clear (invalid_path s rel) (is_file rel t) p.0 in
    (entry-IsDeclared s t rel c.0 c.1, entries-IsDeclared s t rels p.1)

kept_or_rest :
    (bad : Bool) (p rel : String) (rest rels : List String)
    → contains p (if not bad then rel ∷ rest else rest) ≡ true
    → (contains p rest ≡ true → Exists (λ x. x ≡ p) rels)
    → Exists (λ x. x ≡ p) (rel ∷ rels)
unfolding any
kept_or_rest true p rel rest rels e h = inr (h e)
kept_or_rest false p rel rest rels e h = elim (or-true (p == rel) (contains p rest) e) [
  | inl same ↦ inl (sym ((==_iff p rel).0 same))
  | inr later ↦ inr (h later)
]

-- What is wanted is one of the allowlist.
contains-wanted :
    (s : Sealer) (p : String) (rels : List String)
    → contains p (wanted s rels) ≡ true
    → Exists (λ rel. rel ≡ p) rels
unfolding wanted select any
contains-wanted s p [] e = cc
contains-wanted s p (rel ∷ rels) e =
    kept_or_rest (invalid_path s rel) p rel (wanted s rels) rels e (contains-wanted s p rels)

clear_file : (b : Bool) → (if b then [] else undeclared_artifact_file ∷ []) ≡ [] → b ≡ true
clear_file b e = ground (arith, e)

undeclared-Exists :
    (s : Sealer) (rels ps : List String)
    → undeclared (wanted s rels) ps ≡ []
    → All (λ p. Exists (λ rel. rel ≡ p) rels) ps
unfolding undeclared
undeclared-Exists s rels [] e = tt
undeclared-Exists s rels (p ∷ ps) e =
    let t = (append-nil_iff _ (undeclared (wanted s rels) ps)).0 e in
    (
      contains-wanted s p rels (clear_file (contains p (wanted s rels)) t.0),
      undeclared-Exists s rels ps t.1,
    )

pub layout-HasExactly :
    (s : Sealer) (t : Tree) (allowlist : Option (List String))
    → (frozen_artifact_report s t allowlist).violations ≡ []
    → HasExactly s t allowlist
unfolding frozen_artifact_report artifact_layout
layout-HasExactly s t none e = cc
layout-HasExactly s t (some []) e = cc
layout-HasExactly s t (some (rel ∷ rels)) e =
    let names = rel ∷ rels in
    let a = (append-nil_iff (report ((repeats names, artifact_allowlist_duplicate) ∷ [])) _).0 e in
    let b = (append-nil_iff (entry_violations s t names) _).0 a.1 in
    record {
      names = names;
      named = refl;
      some_name = λ k. cc;
      once =
          repeats-NoRepeats names
            (report-nil ((repeats names, artifact_allowlist_duplicate) ∷ []) a.0).0;
      declared = entries-IsDeclared s t names b.0;
      nothing_else = undeclared-Exists s names (paths t) b.1;
    }
