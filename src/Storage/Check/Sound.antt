-- ===== src/Storage/Check/Sound.antt =====
-- src/fs/storage/storage.c: what a run of `storage_fsck` without errors says of the table.
use native.Mathlib.Decide.{ℕ_discrete}
use mathlib.Core.Path.{subst}
use project_orange_tea.Base.{
  ℕ, zero, suc, ◌+◌, ◌-◌, ◌≤◌, ◌<◌, ◌≡◌, ◌≢◌, ◌⊎◌, refl, sym, ap, Bool, true, false, ◌&&◌, not,
  Option, none, some, List, ◌==◌, arith, inl, inr, get_or,
}
use project_orange_tea.Storage.State.{Entry, blank_entry, Storage, entry_at}
use project_orange_tea.Storage.Run.{done}
use project_orange_tea.Storage.Bytes.{equal}
use project_orange_tea.Storage.Bytes.Layout.{equal→eq, eq→equal}
use project_orange_tea.Storage.Path.{normalize, last_name}
use project_orange_tea.Storage.Inode.{block_at}
use project_orange_tea.Storage.Files.{parent_exists, is_root}
use project_orange_tea.Storage.Check.{
  fault_if, is_dir_type, entry_faults, storage_fsck, clash, clashes, is_misplaced, has_normal_path,
}
use project_orange_tea.Storage.Check.Faults.{Bounded, storage_fsck-Bounded}

-- What makes an entry one that the calls could have written.
pub record IsSoundEntry {Disk : Type 0} (s : Storage Disk) (entry : Entry) : Type 0 where
  pub path_normal : normalize entry.path ≡ some entry.path
  pub not_root : is_root entry.path ≡ false
  pub parent_there : parent_exists s entry.path ≡ true
  pub typed : (entry.type ≡ b'f') ⊎ (entry.type ≡ b'd')
  pub named : entry.name ≡ last_name entry.path entry.path
  pub file_small : entry.type ≡ b'f' → entry.size < 256
  pub dir_empty : entry.type ≡ b'd' → (entry.size ≡ 0) × (block_at entry 0 ≡ 0)

-- Every entry is sound, no two have the same path, and no two files the same sector.
pub record IsSound {Disk : Type 0} (s : Storage Disk) : Type 0 where
  pub sound : (i : ℕ) → i < s.entry_count → IsSoundEntry s (entry_at s i)
  pub distinct : (i j : ℕ) → i < j → j < s.entry_count → (entry_at s i).path ≢ (entry_at s j).path
  pub apart :
      (i j : ℕ)
      → i < j
      → j < s.entry_count
      → (entry_at s i).type ≡ b'f'
      → (entry_at s j).type ≡ b'f'
      → block_at (entry_at s i) 0 ≢ 0
      → block_at (entry_at s i) 0 ≢ block_at (entry_at s j) 0

no_fault : (b : Bool) → fault_if b ≤ 0 → b ≡ false
no_fault true h = absurd (omega (arith, h))
no_fault false h = refl

normal_path : (path : List ℕ) → has_normal_path path ≡ true → normalize path ≡ some path
normal_path path h = by_result (normalize path) h
  where
    by_result :
        (r : Option (List ℕ))
        → elim r [ none ↦ false | some normalized ↦ equal normalized path ] ≡ true
        → r ≡ some path
    by_result none g = cc
    by_result (some normalized) g = ap some (equal→eq normalized path g)

no_clash :
    (entries : List Entry) (entry : Entry) (rounds j k : ℕ)
    → clashes entries entry rounds j ≤ 0
    → j ≤ k
    → k < j + rounds
    → clash entry (get_or entries k blank_entry) ≤ 0
unfolding clashes
no_clash entries entry zero j k h lo hi = absurd (omega (arith, lo, hi))
no_clash entries entry (suc rounds) j k h lo hi = elim (ℕ_discrete j k) [
  | yes e ↦ subst (λ i. clash entry (get_or entries i blank_entry) ≤ 0) e (omega (arith, h))
  | no ne ↦
      no_clash entries entry rounds (j + 1) k (omega (arith, h)) (omega (arith, lo, ne))
        (omega (arith, hi))
]

module _ {Disk : Type 0} (s : Storage Disk) (entry : Entry) (h : is_misplaced s entry ≡ false)
    (d : is_dir_type entry && not (block_at entry 0 == 0) ≡ false) where
  sound_entry : IsSoundEntry s entry
  sound_entry = record {
    path_normal = normal_path entry.path (ground arith);
    not_root = ground arith;
    parent_there = ground arith;
    typed = elim (ℕ_discrete entry.type b'f') [
      | yes file ↦ inl file
      | no other ↦ elim (ℕ_discrete entry.type b'd') [
        | yes dir ↦ inr dir
        | no neither ↦ absurd (ground arith)
      ]
    ];
    named = sym (equal→eq (last_name entry.path entry.path) entry.name (ground arith));
    file_small = λ file. ground arith;
    dir_empty = λ dir. (ground arith, ground arith);
  }

module _ {Disk : Type 0} (s : Storage Disk) (bounded : Bounded s 0) where
  bounded_sound : (i : ℕ) → i < s.entry_count → IsSoundEntry s (entry_at s i)
  unfolding entry_faults
  bounded_sound i inside =
      let total : entry_faults s i ≤ 0 = bounded i inside in
      sound_entry s (entry_at s i) (no_fault _ (omega (arith, total)))
        (no_fault _ (omega (arith, total)))

  bounded_clash : (i j : ℕ) → i < j → j < s.entry_count → clash (entry_at s i) (entry_at s j) ≤ 0
  unfolding entry_faults
  bounded_clash i j less inside =
      let total : entry_faults s i ≤ 0 = bounded i (omega (arith, less, inside)) in
      no_clash s.entries (entry_at s i) (s.entry_count - suc i) (suc i) j (omega (arith, total))
        (omega (arith, less)) (omega (arith, less, inside))

  bounded-IsSound : IsSound s
  bounded-IsSound = record {
    sound = bounded_sound;
    distinct = λ i j less inside same.
        let fault : fault_if (equal (entry_at s i).path (entry_at s j).path) ≤ 0 =
          omega (arith, bounded_clash i j less inside) in
        let differ : equal (entry_at s i).path (entry_at s j).path ≡ false = no_fault _ fault in
        let agree : equal (entry_at s i).path (entry_at s j).path ≡ true =
          eq→equal (entry_at s i).path (entry_at s j).path same in
        cc;
    apart = λ i j less inside file file' some_sector same.
        let fault : clash (entry_at s i) (entry_at s j) ≤ 0 = bounded_clash i j less inside in
        ground arith;
  }

-- Where `storage_fsck` returns STORAGE_OK, the table it looked at was sound: every entry has a
-- normal path other than the root, in a directory that is there, a name that ends its path, and a
-- size that its type allows; no two entries have the same path, and no two files the same sector.
pub storage_fsck-IsSound :
    {Disk : Type 0} (repair : Bool) (s s' : Storage Disk)
    → storage_fsck repair s ≡ done 0 s'
    → IsSound s
storage_fsck-IsSound repair s s' h = bounded-IsSound s (storage_fsck-Bounded repair s s' h)
