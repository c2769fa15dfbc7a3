-- ===== src/Ledger/WriteOnce.antt =====
-- Writes of one ledger record, alone and among other processes.
use agent_capability_forge.Prelude.{
  String, none, some, [], ◌∷◌, ◌≡◌, ◌≢◌, refl, ==_iff, if_cases, sym, ap, ◌∙◌, beq-false, lookup,
  lookup-insert_self, lookup-insert_ne, ◌==◌,
}
use agent_capability_forge.Code.{authority_binding_mismatch}
use agent_capability_forge.Records.{Authority, authority_eq}
use agent_capability_forge.Disk.{
  Doc, missing, unreadable, holds, Outcome, ok, blocked, raised, Disk, or_missing,
}
use agent_capability_forge.Ledger.{
  compare_record, link_record, check_record, make_ledger, write_record_among,
}

-- The file of `id`.
abbrev pub record_file : String → Disk → Doc Authority
record_file id d = or_missing (lookup id d.records)

-- What a write of `a` as `id` leaves, from the disk `d` that its last step sees: on success the
-- file holds `a`, on refusal it holds something else, and no other file has changed. A file that
-- was there is the same.
abbrev pub Writes : String → Authority → Disk → Outcome (Unit {0}) × Disk → Type 0
Writes id a d (ok _, d') =
    (record_file id d' ≡ holds a)
    × ((j : String) → j ≢ id → record_file j d' ≡ record_file j d)
    × (record_file id d ≢ missing → d' ≡ d)
Writes id a d (blocked cs, d') =
    (cs ≡ authority_binding_mismatch ∷ [])
    × (record_file id d ≢ missing)
    × (record_file id d ≢ holds a)
    × (d' ≡ d)
Writes id a d (raised, d') = ⊥

holds_injective : (a b : Authority) → ◌≡◌ {A = Doc Authority} (holds a) (holds b) → a ≡ b
holds_injective a b e = cc

unreadable-ne-holds : (a : Authority) → ◌≢◌ {A = Doc Authority} unreadable (holds a)
unreadable-ne-holds a e = cc

unreadable-ne-missing : ◌≢◌ {A = Doc Authority} unreadable missing
unreadable-ne-missing e = cc

holds-ne-missing : (a : Authority) → ◌≢◌ {A = Doc Authority} (holds a) missing
holds-ne-missing a e = cc

compare_unreadable-Writes :
    (id : String) (a : Authority) (d : Disk)
    → record_file id d ≡ unreadable
    → Writes id a d (compare_record none a, d)
unfolding compare_record
compare_unreadable-Writes id a d u =
    (refl, λ m. unreadable-ne-missing (sym u ∙ m), λ m. unreadable-ne-holds a (sym u ∙ m), refl)

compare-Writes :
    (id : String) (a e : Authority) (d : Disk)
    → record_file id d ≡ holds e
    → Writes id a d (compare_record (some e) a, d)
unfolding compare_record
compare-Writes id a e d u =
    if_cases (λ r. Writes id a d (r, d)) (e == a)
      (λ same. (u ∙ ap holds ((==_iff e a).0 same), λ j _. refl, λ _. refl))
      (λ other. (
        refl,
        λ m. holds-ne-missing e (sym u ∙ m),
        λ m. beq-false e a other (holds_injective e a (sym u ∙ m)),
        refl,
      ))

link-Writes :
    (id : String) (a : Authority) (f : Doc Authority) (d : Disk)
    → record_file id d ≡ f
    → Writes id a d (link_record id a f d)
unfolding link_record
link-Writes id a missing d u = (
  ap or_missing (lookup-insert_self id (holds a) d.records),
  λ j ne. ap or_missing (lookup-insert_ne j id (holds a) d.records ne),
  λ there. absurd (there u),
)
link-Writes id a unreadable d u = compare_unreadable-Writes id a d u
link-Writes id a (holds e) d u = compare-Writes id a e d u

-- The disk that the last step of a write sees: the caller's, with the ledger directory made, if the
-- record is already there, and else what other processes have made of it.
abbrev pub last_seen : (Disk → Disk) → Doc Authority → Disk → Disk
last_seen others missing d = others (make_ledger d)
last_seen others unreadable d = make_ledger d
last_seen others (holds e) d = make_ledger d

check-Writes :
    (others : Disk → Disk) (id : String) (a : Authority) (f : Doc Authority) (d : Disk)
    → record_file id d ≡ f
    → Writes id a (last_seen others f d) (check_record others id a f (make_ledger d))
unfolding check_record
check-Writes others id a missing d u =
    link-Writes id a (record_file id (others (make_ledger d))) (others (make_ledger d)) refl
check-Writes others id a unreadable d u = compare_unreadable-Writes id a (make_ledger d) u
check-Writes others id a (holds e) d u = compare-Writes id a e (make_ledger d) u

-- Whatever other processes do between the existence test and the link, writing an authority record
-- never overwrites: it succeeds exactly with the record on disk equal to the authority, it refuses
-- exactly where a different or unreadable record is there, and no other record changes.
pub write_once :
    (others : Disk → Disk) (id : String) (a : Authority) (d : Disk)
    → Writes id a (last_seen others (record_file id d) d) (write_record_among others (some id) a d)
unfolding write_record_among
write_once others id a d = check-Writes others id a (record_file id d) d refl
