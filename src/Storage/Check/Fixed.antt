-- ===== src/Storage/Check/Fixed.antt =====
-- src/fs/storage/storage.c: `storage_fsck` leaves the table of entries as it is; its sweeps leave
-- the data sectors of the entries too.
use project_orange_tea.Base.{
  ℕ, zero, suc, ◌+◌, ◌-◌, ◌≡◌, refl, ap, ◌∙◌, Bool, true, false, not, map, List, ◌==◌,
  if◌then◌else◌, arith,
}
use project_orange_tea.Storage.State.{
  Status, io, notmounted, BlockDevice, Entry, Storage, entry_at, bitmap_start,
}
use project_orange_tea.Storage.Run.{
  Run, done, fail, Cmd, Void, pure, state_of, recast, failing_as, and_then, ◌>>=◌,
}
use project_orange_tea.Storage.Disk.{disk_read, disk_write}
use project_orange_tea.Storage.Bitmap.{bitmap_sector, bitmap_bit, bitmap_value}
use project_orange_tea.Storage.Inode.{block_at}
use project_orange_tea.Storage.Sync.{storage_sync}
use project_orange_tea.Storage.Files.{must_be_mounted}
use project_orange_tea.Storage.Files.View.{
  View, view, forget, view-elim, Keeps-disk_read, Keeps, Keeps-bind, Keeps-failing_as, Keeps-if,
  view-storage_sync,
}
use project_orange_tea.Storage.Check.{
  Counts, one_corrected, more_faults, none_yet, fault_if, is_file_type, is_outside, restore_bit,
  check_bit, check_sector, check_entry, check_entries, entry_faults, check_metadata,
  count_allocated, count_bits, end_told, first_told, fsck_finish, fsck_bitmap, fsck_sweeps,
  fsck_device, fsck_attached, storage_fsck, is_super_wrong,
}

-- the view, with the data sectors
abbrev pub whole : {Disk : Type 0} → Storage Disk → View Disk
whole s = record (view s) { entries = s.entries }

abbrev forgotten : {Disk : Type 0} → View Disk → View Disk
forgotten v = record v { entries = map forget v.entries }

abbrev pub Fixes : {Disk A : Type 0} → Cmd Disk A → Type 0
Fixes {Disk} m = (s : Storage Disk) → whole (state_of (m s)) ≡ whole s

module _ {Disk A : Type 0} where
  pub Fixes-bind :
      {B : Type 0} (m : Cmd Disk A) (k : A → Cmd Disk B)
      → Fixes m
      → ((a : A) → Fixes (k a))
      → Fixes (m >>= k)
  Fixes-bind m k hm hk s = step (m s) (hm s)
    where
      step :
          (r : Run Disk A)
          → whole (state_of r) ≡ whole s
          → whole (state_of (and_then r k)) ≡ whole s
      step (done a s') e = hk a s' ∙ e
      step (fail _ s') e = e

  pub Fixes-failing_as : (e : Status) (m : Cmd Disk A) → Fixes m → Fixes (failing_as e m)
  Fixes-failing_as e m hm s = step (m s) (hm s)
    where
      step :
          (r : Run Disk A) → whole (state_of r) ≡ whole s → whole (state_of (recast e r)) ≡ whole s
      step (done a s') h = h
      step (fail _ s') h = h

  pub Fixes-if : (b : Bool) (m n : Cmd Disk A) → Fixes m → Fixes n → Fixes (if b then m else n)
  Fixes-if true m n hm hn = hm
  Fixes-if false m n hm hn = hn

  pub Fixes-Keeps : (m : Cmd Disk A) → Fixes m → Keeps m
  Fixes-Keeps m h s = ap forgotten (h s)

module _ {Disk : Type 0} where
  pub Fixes-disk_read : (sector : ℕ) → Fixes (disk_read {Disk = Disk} sector)
  unfolding disk_read
  Fixes-disk_read sector s = ground arith

  pub Fixes-disk_write :
      (sector : ℕ) (bytes : List ℕ) → Fixes (disk_write {Disk = Disk} sector bytes)
  unfolding disk_write
  Fixes-disk_write sector bytes s = ground arith

  pub Fixes-bitmap_bit : (sector : ℕ) (on : Bool) → Fixes (bitmap_bit {Disk = Disk} sector on)
  unfolding bitmap_bit
  Fixes-bitmap_bit sector on =
      Fixes-bind (disk_read _) _ (Fixes-disk_read _) (λ block. Fixes-disk_write _ _)

  pub Fixes-bitmap_value : (sector : ℕ) → Fixes (bitmap_value {Disk = Disk} sector)
  unfolding bitmap_value
  Fixes-bitmap_value sector s = ground (arith, Fixes-disk_read (bitmap_sector sector) s)

  pub Fixes-restore_bit :
      (repair : Bool) (sector : ℕ) (c : Counts) → Fixes (restore_bit {Disk = Disk} repair sector c)
  unfolding restore_bit
  Fixes-restore_bit false sector c s = refl
  Fixes-restore_bit true sector c s =
      step (bitmap_bit sector true s) (Fixes-bitmap_bit sector true s)
    where
      after : Run Disk (Unit {0}) → Run Disk Counts
      after r = elim r [
        | done _ s' ↦ done (one_corrected c) s'
        | fail _ s' ↦ done (more_faults 1 c) s'
      ]

      step :
          (r : Run Disk (Unit {0}))
          → whole (state_of r) ≡ whole s
          → whole (state_of (after r)) ≡ whole s
      step (done _ s') h = h
      step (fail _ s') h = h

  pub Fixes-check_bit :
      (repair : Bool) (sector : ℕ) (c : Counts) → Fixes (check_bit {Disk = Disk} repair sector c)
  unfolding check_bit
  Fixes-check_bit repair sector c =
      Fixes-bind (failing_as io (bitmap_value sector)) _
        (Fixes-failing_as io (bitmap_value sector) (Fixes-bitmap_value sector))
        (λ value.
          Fixes-if (value == 0) (restore_bit repair sector c) (pure c)
            (Fixes-restore_bit repair sector c) (λ s. refl))

  pub Fixes-check_sector :
      (dev : BlockDevice Disk) (repair : Bool) (entry : Entry) (c : Counts)
      → Fixes (check_sector dev repair entry c)
  unfolding check_sector
  Fixes-check_sector dev repair entry c s =
      by_tests (not (is_file_type entry)) (block_at entry 0 == 0)
        (is_outside dev s (block_at entry 0))
    where
      seen : Counts
      seen = record c { referenced = c.referenced + 1 }

      by_tests :
          (x y z : Bool)
          → whole (
              state_of (
                if x
                then done c s
                else if y
                then done (more_faults (fault_if (not (entry.size == 0))) c) s
                else if z
                then done (more_faults 1 c) s
                else check_bit repair (block_at entry 0) seen s))
            ≡ whole s
      by_tests true y z = refl
      by_tests false true z = refl
      by_tests false false true = refl
      by_tests false false false = Fixes-check_bit repair (block_at entry 0) seen s

  pub Fixes-check_entry :
      (dev : BlockDevice Disk) (repair : Bool) (i : ℕ) (c : Counts)
      → Fixes (check_entry dev repair i c)
  unfolding check_entry
  Fixes-check_entry dev repair i c s =
      Fixes-check_sector dev repair (entry_at s i) (more_faults (entry_faults s i) c) s

  pub Fixes-check_entries :
      (dev : BlockDevice Disk) (repair : Bool) (rounds i : ℕ) (c : Counts)
      → Fixes (check_entries dev repair rounds i c)
  unfolding check_entries
  Fixes-check_entries dev repair zero i c = λ s. refl
  Fixes-check_entries dev repair (suc rounds) i c =
      Fixes-bind (check_entry dev repair i c) _ (Fixes-check_entry dev repair i c)
        (λ c'. Fixes-check_entries dev repair rounds (i + 1) c')

  pub Fixes-check_metadata :
      (repair : Bool) (rounds sector : ℕ) (c : Counts)
      → Fixes (check_metadata {Disk = Disk} repair rounds sector c)
  unfolding check_metadata
  Fixes-check_metadata repair zero sector c = λ s. refl
  Fixes-check_metadata repair (suc rounds) sector c =
      Fixes-bind (check_bit repair sector c) _ (Fixes-check_bit repair sector c)
        (λ c'. Fixes-check_metadata repair rounds (sector + 1) c')

  pub Fixes-count_allocated :
      (dev : BlockDevice Disk) (rounds index allocated : ℕ)
      → Fixes (count_allocated dev rounds index allocated)
  unfolding count_allocated
  Fixes-count_allocated dev zero index allocated = λ s. refl
  Fixes-count_allocated dev (suc rounds) index allocated =
      Fixes-bind (failing_as io (disk_read (bitmap_start + index))) _
        (Fixes-failing_as io (disk_read (bitmap_start + index))
          (Fixes-disk_read (bitmap_start + index)))
        (λ block s.
          Fixes-count_allocated dev rounds (index + 1)
            (allocated
              + count_bits block (end_told dev index - first_told s index) (first_told s index))
            s)

  Keeps-check_entries :
      (dev : BlockDevice Disk) (repair : Bool) (rounds : ℕ)
      → Keeps (check_entries dev repair rounds 0 none_yet)
  Keeps-check_entries dev repair rounds =
      Fixes-Keeps (check_entries dev repair rounds 0 none_yet)
        (Fixes-check_entries dev repair rounds 0 none_yet)

  Keeps-check_metadata :
      (repair : Bool) (rounds : ℕ) (c : Counts)
      → Keeps (check_metadata {Disk = Disk} repair rounds 0 c)
  Keeps-check_metadata repair rounds c =
      Fixes-Keeps (check_metadata repair rounds 0 c) (Fixes-check_metadata repair rounds 0 c)

  Keeps-count_allocated :
      (dev : BlockDevice Disk) (rounds : ℕ) → Keeps (count_allocated dev rounds 0 0)
  Keeps-count_allocated dev rounds =
      Fixes-Keeps (count_allocated dev rounds 0 0) (Fixes-count_allocated dev rounds 0 0)

  Keeps-fsck_finish : (c : Counts) (allocated : ℕ) → Keeps (fsck_finish {Disk = Disk} c allocated)
  unfolding fsck_finish
  Keeps-fsck_finish c allocated =
      Keeps-bind (if c.corrected == 0 then pure tt else failing_as io storage_sync) _
        (Keeps-if (c.corrected == 0) (pure tt) (failing_as io storage_sync) (λ s. refl)
          (Keeps-failing_as io storage_sync view-storage_sync))
        (λ _ s. refl)

  Keeps-fsck_bitmap :
      (dev : BlockDevice Disk) (repair : Bool) (c : Counts) → Keeps (fsck_bitmap dev repair c)
  unfolding fsck_bitmap
  Keeps-fsck_bitmap dev repair c s =
      Keeps-bind (check_metadata repair s.data_start 0 c) _
        (Keeps-check_metadata repair s.data_start c)
        (λ c'.
          Keeps-bind (count_allocated dev s.bitmap_sectors 0 0) (fsck_finish c')
            (Keeps-count_allocated dev s.bitmap_sectors) (Keeps-fsck_finish c'))
        s

  Keeps-fsck_sweeps : (dev : BlockDevice Disk) (repair : Bool) → Keeps (fsck_sweeps dev repair)
  unfolding fsck_sweeps
  Keeps-fsck_sweeps dev repair s =
      Keeps-bind (check_entries dev repair s.entry_count 0 none_yet) (fsck_bitmap dev repair)
        (Keeps-check_entries dev repair s.entry_count) (Keeps-fsck_bitmap dev repair) s

  Keeps-fsck_device : (dev : BlockDevice Disk) (repair : Bool) → Keeps (fsck_device dev repair)
  unfolding fsck_device
  Keeps-fsck_device dev repair =
      Keeps-bind (failing_as io (disk_read 0)) _
        (Keeps-failing_as io (disk_read 0) (Keeps-disk_read 0))
        (λ super s.
          Keeps-if (is_super_wrong dev super s) (pure 1) (fsck_sweeps dev repair) (λ s. refl)
            (Keeps-fsck_sweeps dev repair) s)

  Keeps-must_be_mounted : Keeps (must_be_mounted {Disk = Disk})
  Keeps-must_be_mounted s = by_test s.mounted
    where
      run : Bool → Run Disk Void
      run b = if b then done tt s else fail notmounted s

      by_test : (b : Bool) → view (state_of (run b)) ≡ view s
      by_test true = refl
      by_test false = refl

  -- `storage_fsck`, with or without the repair, and on errors too, changes nothing that a client
  -- sees without looking at sectors: every entry with its path, contents and size, the descriptors
  -- and the clock stay as they are.
  pub view-storage_fsck :
      (repair : Bool) (s : Storage Disk) → view (state_of (storage_fsck repair s)) ≡ view s
  unfolding storage_fsck
  view-storage_fsck repair s =
      Keeps-bind must_be_mounted (λ _. fsck_attached repair) Keeps-must_be_mounted
        (λ _ s'.
          view-elim (view s') s'.device (fail io s') (λ dev. fsck_device dev repair s') refl
            (λ dev. Keeps-fsck_device dev repair s'))
        s
