-- ===== src/Activation/Isolation.antt =====
-- What the isolation check of the execution snapshot guarantees.
use Prim.Native.Nat.{◌/◌, ◌%◌}
use agent_capability_forge.Prelude.{ℕ, List, [], ◌∷◌, ◌≡◌, ◌≢◌, ◌⊎◌, nat_eq, All, Exists}
use agent_capability_forge.Code.{Code}
use agent_capability_forge.Guard.{Stat, Node, absent, refused, stated, Place, User}

-- The mode bits of POSIX: the bit of weight `w` of `m`.
abbrev pub HasBit : ℕ → ℕ → Type 0
HasBit m w = m / w % 2 ≡ 1

-- POSIX write permission: the owner by the owner's bit, else a member of the group by the group's
-- bit, else by the others' bit.
abbrev pub CanWrite : User → Stat → Type 0
CanWrite u s =
    ((s.st_uid ≡ u.uid) × HasBit s.st_mode 128)
    ⊎ (((s.st_uid ≢ u.uid) × Exists (λ g. g ≡ s.st_gid) u.gids × HasBit s.st_mode 16)
        ⊎ ((s.st_uid ≢ u.uid) × All (λ g. g ≢ s.st_gid) u.gids × HasBit s.st_mode 2))

-- A user replaces an entry of a directory that can be written, unless the sticky bit leaves that to
-- the directory's owner.
abbrev pub CanReplace : User → Stat → Type 0
CanReplace u s = CanWrite u s × (¬ HasBit s.st_mode 512 ⊎ (s.st_uid ≡ u.uid))

-- A path that is not there, or that the user has no permission to write.
abbrev pub Unwritable : User → Node → Type 0
Unwritable u absent = Unit
Unwritable u refused = ⊥
Unwritable u (stated s) = ¬ CanWrite u s

-- No parent, up to the first that cannot be read, lets the user replace what lies in it.
abbrev pub Irreplaceable : User → List Node → Type 0
Irreplaceable u [] = Unit
Irreplaceable u (absent ∷ ps) = Unit
Irreplaceable u (refused ∷ ps) = Unit
Irreplaceable u (stated s ∷ ps) = (¬ CanReplace u s) × Irreplaceable u ps

pub record IsIsolated (u : User) (p : Place) (s : Stat) : Type 0 where
  pub owner : s.st_uid ≢ u.uid
  pub parents : Irreplaceable u p.parents
  pub dirs : All (Unwritable u) p.dirs
  pub record_file : Unwritable u p.record_file
  pub snapshot : All (Unwritable u) p.snapshot
