-- ===== src/Storage/Check/Faults.antt =====
-- src/fs/storage/storage.c: the faults of an entry and the clashes of two that `storage_fsck`
-- counts among its errors.
use native.Mathlib.Decide.{ℕ_discrete}
use mathlib.Core.Path.{subst}
use project_orange_tea.Base.{
  ℕ, zero, suc, ◌+◌, ◌≤◌, ◌<◌, ◌≡◌, refl, ap, Bool, true, false, not, Option, none, some, List,
  ◌==◌, if◌then◌else◌, arith,
}
use project_orange_tea.Storage.State.{io, notmounted, BlockDevice, Entry, Storage, entry_at}
use project_orange_tea.Storage.Run.{Run, done, fail, Cmd, Void, pure, failing_as, and_then, ◌>>=◌}
use project_orange_tea.Storage.Disk.{disk_read}
use project_orange_tea.Storage.Bitmap.{bitmap_bit, bitmap_value}
use project_orange_tea.Storage.Inode.{block_at}
use project_orange_tea.Storage.Sync.{storage_sync}
use project_orange_tea.Storage.Files.{find, parent_exists}
use project_orange_tea.Storage.Check.{
  Counts, one_corrected, more_faults, none_yet, fault_if, is_file_type, is_outside, restore_bit,
  check_bit, check_sector, check_entry, check_entries, entry_faults, check_metadata,
  count_allocated, fsck_finish, fsck_bitmap, fsck_sweeps, fsck_device, fsck_attached, storage_fsck,
  is_super_wrong,
}
use project_orange_tea.Storage.Check.Ends.{
  Ends, Ends-bind, Ends-recast, Ends-mono, Ends-both, Ends-always, Ends-whole,
}
use project_orange_tea.Storage.Check.Fixed.{whole, Fixes-check_entry, Fixes-disk_read}

module _ {Disk : Type 0} where
  -- no fewer faults are counted than `n`
  abbrev AtLeast : ℕ → Counts → Storage Disk → Type 0
  AtLeast n c s = n ≤ c.unresolved

  AtLeast-restore_bit :
      (repair : Bool) (sector : ℕ) (c : Counts) (s : Storage Disk)
      → Ends (restore_bit repair sector c s) (AtLeast c.unresolved)
  unfolding restore_bit
  AtLeast-restore_bit false sector c s = omega arith
  AtLeast-restore_bit true sector c s = step (bitmap_bit sector true s)
    where
      after : Run Disk (Unit {0}) → Run Disk Counts
      after r = elim r [
        | done _ s' ↦ done (one_corrected c) s'
        | fail _ s' ↦ done (more_faults 1 c) s'
      ]

      step : (r : Run Disk (Unit {0})) → Ends (after r) (AtLeast c.unresolved)
      step (done _ s') = omega arith
      step (fail _ s') = omega arith

  AtLeast-check_bit :
      (repair : Bool) (sector : ℕ) (c : Counts) (s : Storage Disk)
      → Ends (check_bit repair sector c s) (AtLeast c.unresolved)
  unfolding check_bit
  AtLeast-check_bit repair sector c s =
      Ends-bind (failing_as io (bitmap_value sector) s)
        (λ value. if value == 0 then restore_bit repair sector c else pure c) (λ _ _. Unit {0})
        (AtLeast c.unresolved)
        (Ends-always (failing_as io (bitmap_value sector) s) (λ _ _. Unit {0}) (λ _ _. tt))
        (λ value s' _. by_value s' (value == 0))
    where
      by_value :
          (s' : Storage Disk) (b : Bool)
          → Ends ((if b then restore_bit repair sector c else pure c) s') (AtLeast c.unresolved)
      by_value s' true = AtLeast-restore_bit repair sector c s'
      by_value s' false = omega arith

  AtLeast-check_sector :
      (dev : BlockDevice Disk) (repair : Bool) (entry : Entry) (c : Counts) (s : Storage Disk)
      → Ends (check_sector dev repair entry c s) (AtLeast c.unresolved)
  unfolding check_sector
  AtLeast-check_sector dev repair entry c s =
      by_tests (not (is_file_type entry)) (block_at entry 0 == 0)
        (is_outside dev s (block_at entry 0))
    where
      seen : Counts
      seen = record c { referenced = c.referenced + 1 }

      run : (x y z : Bool) → Run Disk Counts
      run x y z =
          if x
          then done c s
          else if y
          then done (more_faults (fault_if (not (entry.size == 0))) c) s
          else if z
          then done (more_faults 1 c) s
          else check_bit repair (block_at entry 0) seen s

      by_tests : (x y z : Bool) → Ends (run x y z) (AtLeast c.unresolved)
      by_tests true y z = omega arith
      by_tests false true z = omega arith
      by_tests false false true = omega arith
      by_tests false false false = AtLeast-check_bit repair (block_at entry 0) seen s

  AtLeast-check_entry :
      (dev : BlockDevice Disk) (repair : Bool) (i : ℕ) (c : Counts) (s : Storage Disk)
      → Ends (check_entry dev repair i c s) (AtLeast (c.unresolved + entry_faults s i))
  unfolding check_entry
  AtLeast-check_entry dev repair i c s =
      AtLeast-check_sector dev repair (entry_at s i) (more_faults (entry_faults s i) c) s

  AtLeast-check_metadata :
      (repair : Bool) (rounds sector : ℕ) (c : Counts) (s : Storage Disk)
      → Ends (check_metadata repair rounds sector c s) (AtLeast c.unresolved)
  unfolding check_metadata
  AtLeast-check_metadata repair zero sector c s = omega arith
  AtLeast-check_metadata repair (suc rounds) sector c s =
      Ends-bind (check_bit repair sector c s) (check_metadata repair rounds (sector + 1))
        (AtLeast c.unresolved) (AtLeast c.unresolved) (AtLeast-check_bit repair sector c s)
        (λ c' s' more.
          Ends-mono (check_metadata repair rounds (sector + 1) c' s') (AtLeast c'.unresolved)
            (AtLeast c.unresolved) (λ c'' _ h. omega (arith, h, more))
            (AtLeast-check_metadata repair rounds (sector + 1) c' s'))

  -- The faults of an entry are those of the table, whatever the cache holds.
  entry_faults-whole :
      (s s' : Storage Disk) (i : ℕ) → whole s' ≡ whole s → entry_faults s' i ≡ entry_faults s i
  unfolding entry_faults find parent_exists
  entry_faults-whole s s' i same =
      ap (λ v. entry_faults (record s { entries = v.entries; entry_count = v.entry_count }) i) same

  -- The errors cover those counted before, and the faults of every entry met.
  abbrev Covers : Storage Disk → ℕ → ℕ → Counts → Counts → Storage Disk → Type 0
  Covers s i rounds c c' s' =
      (c.unresolved ≤ c'.unresolved)
      × ((k : ℕ) → i ≤ k → k < i + rounds → entry_faults s k ≤ c'.unresolved)

  check_entries-Covers :
      (dev : BlockDevice Disk) (repair : Bool) (rounds i : ℕ) (c : Counts) (s : Storage Disk)
      → Ends (check_entries dev repair rounds i c s) (Covers s i rounds c)
  unfolding check_entries
  check_entries-Covers dev repair zero i c s =
      (omega arith, λ k lo hi. absurd (omega (arith, lo, hi)))
  check_entries-Covers dev repair (suc rounds) i c s =
      Ends-bind (check_entry dev repair i c s) (check_entries dev repair rounds (i + 1))
        (λ c' s'. AtLeast (c.unresolved + entry_faults s i) c' s' × (whole s' ≡ whole s))
        (Covers s i (suc rounds) c)
        (Ends-both (check_entry dev repair i c s) (AtLeast (c.unresolved + entry_faults s i))
          (λ _ s'. whole s' ≡ whole s) (AtLeast-check_entry dev repair i c s)
          (Ends-whole (check_entry dev repair i c s) s (Fixes-check_entry dev repair i c s)))
        (λ c' s' (more, same).
          Ends-mono (check_entries dev repair rounds (i + 1) c' s') (Covers s' (i + 1) rounds c')
            (Covers s i (suc rounds) c)
            (λ c'' _ (kept, rest). (
              omega (arith, kept, more),
              λ k lo hi. elim (ℕ_discrete i k) [
                | yes e ↦
                    subst (λ j. entry_faults s j ≤ c''.unresolved) e (omega (arith, kept, more))
                | no ne ↦
                    subst (λ f. f ≤ c''.unresolved) (entry_faults-whole s s' k same)
                      (rest k (omega (arith, lo, ne)) (omega (arith, hi)))
              ],
            ))
            (check_entries-Covers dev repair rounds (i + 1) c' s'))

  -- every entry's faults are at most `n`
  abbrev pub Bounded : Storage Disk → ℕ → Type 0
  Bounded s n = (k : ℕ) → k < s.entry_count → entry_faults s k ≤ n

  -- the number is `n` at least
  abbrev Reaches : ℕ → ℕ → Storage Disk → Type 0
  Reaches n m s = n ≤ m

  Reaches-fsck_finish :
      (c : Counts) (allocated : ℕ) (s : Storage Disk)
      → Ends (fsck_finish c allocated s) (Reaches c.unresolved)
  unfolding fsck_finish
  Reaches-fsck_finish c allocated s = by_saved (c.corrected == 0)
    where
      saved : Bool → Run Disk Void
      saved b = (if b then pure tt else failing_as io storage_sync) s

      total : ℕ
      total = c.unresolved + fault_if (not (allocated == c.referenced))

      by_saved : (b : Bool) → Ends (and_then (saved b) (λ _. pure total)) (Reaches c.unresolved)
      by_saved b =
          Ends-bind (saved b) (λ _. pure total) (λ _ _. Unit {0}) (Reaches c.unresolved)
            (Ends-always (saved b) (λ _ _. Unit {0}) (λ _ _. tt)) (λ _ _ _. omega arith)

  Reaches-fsck_bitmap :
      (dev : BlockDevice Disk) (repair : Bool) (c : Counts) (s : Storage Disk)
      → Ends (fsck_bitmap dev repair c s) (Reaches c.unresolved)
  unfolding fsck_bitmap
  Reaches-fsck_bitmap dev repair c s =
      Ends-bind (check_metadata repair s.data_start 0 c s) counted (AtLeast c.unresolved)
        (Reaches c.unresolved) (AtLeast-check_metadata repair s.data_start 0 c s)
        (λ c' s' more.
          Ends-bind (count_allocated dev s.bitmap_sectors 0 0 s') (fsck_finish c') (λ _ _. Unit {0})
            (Reaches c.unresolved)
            (Ends-always (count_allocated dev s.bitmap_sectors 0 0 s') (λ _ _. Unit {0})
              (λ _ _. tt))
            (λ allocated s'' _.
              Ends-mono (fsck_finish c' allocated s'') (Reaches c'.unresolved)
                (Reaches c.unresolved) (λ n _ h. omega (arith, h, more))
                (Reaches-fsck_finish c' allocated s'')))
    where
      counted : Counts → Cmd Disk ℕ
      counted c' = count_allocated dev s.bitmap_sectors 0 0 >>= fsck_finish c'

  fsck_sweeps-Bounded :
      (dev : BlockDevice Disk) (repair : Bool) (s : Storage Disk)
      → Ends (fsck_sweeps dev repair s) (λ n _. Bounded s n)
  unfolding fsck_sweeps
  fsck_sweeps-Bounded dev repair s =
      Ends-bind (check_entries dev repair s.entry_count 0 none_yet s) (fsck_bitmap dev repair)
        (Covers s 0 s.entry_count none_yet) (λ n _. Bounded s n)
        (check_entries-Covers dev repair s.entry_count 0 none_yet s)
        (λ c s' (_, covers).
          Ends-mono (fsck_bitmap dev repair c s') (Reaches c.unresolved) (λ n _. Bounded s n)
            (λ n _ h k inside. omega (arith, h, covers k (omega arith) (omega (arith, inside))))
            (Reaches-fsck_bitmap dev repair c s'))

  Bounded-whole : (s s' : Storage Disk) (n : ℕ) → whole s' ≡ whole s → Bounded s' n → Bounded s n
  Bounded-whole s s' n same h k inside =
      let count : s'.entry_count ≡ s.entry_count = ap (λ v. v.entry_count) same in
      subst (λ f. f ≤ n) (entry_faults-whole s s' k same) (h k (omega (arith, count, inside)))

  fsck_device-Bounded :
      (dev : BlockDevice Disk) (repair : Bool) (s : Storage Disk)
      → Ends (fsck_device dev repair s) (λ n _. n ≡ 0 → Bounded s n)
  unfolding fsck_device
  fsck_device-Bounded dev repair s =
      Ends-bind (failing_as io (disk_read 0) s) checked (λ _ s'. whole s' ≡ whole s)
        (λ n _. n ≡ 0 → Bounded s n)
        (Ends-recast io (disk_read 0 s) (λ _ s'. whole s' ≡ whole s)
          (Ends-whole (disk_read 0 s) s (Fixes-disk_read 0 s)))
        (λ super s' same. by_super s' same (is_super_wrong dev super s'))
    where
      checked_by : Bool → Cmd Disk ℕ
      checked_by b = if b then pure 1 else fsck_sweeps dev repair

      checked : List ℕ → Cmd Disk ℕ
      checked super s' = checked_by (is_super_wrong dev super s') s'

      by_super :
          (s' : Storage Disk)
          → whole s' ≡ whole s
          → (b : Bool) → Ends (checked_by b s') (λ n _. n ≡ 0 → Bounded s n)
      by_super s' same true = λ h. absurd (omega (arith, h))
      by_super s' same false =
          Ends-mono (fsck_sweeps dev repair s') (λ n _. Bounded s' n) (λ n _. n ≡ 0 → Bounded s n)
            (λ n _ h _. Bounded-whole s s' n same h) (fsck_sweeps-Bounded dev repair s')

  -- Where `storage_fsck` gives no error, no entry has a fault.
  pub storage_fsck-Bounded :
      (repair : Bool) (s s' : Storage Disk) → storage_fsck repair s ≡ done 0 s' → Bounded s 0
  unfolding storage_fsck
  storage_fsck-Bounded repair s s' h =
      subst (λ r. Ends r (λ n _. n ≡ 0 → Bounded s n)) h (by_mounted s.mounted) refl
    where
      attached :
          (device : Option (BlockDevice Disk))
          → Ends
              (elim device [ none ↦ fail io s | some dev ↦ fsck_device dev repair s ])
              (λ n _. n ≡ 0 → Bounded s n)
      attached none = tt
      attached (some dev) = fsck_device-Bounded dev repair s

      by_mounted :
          (b : Bool)
          → Ends
              (and_then (if b then done tt s else fail notmounted s) (λ _. fsck_attached repair))
              (λ n _. n ≡ 0 → Bounded s n)
      by_mounted true = attached s.device
      by_mounted false = tt
