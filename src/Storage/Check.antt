-- ===== src/Storage/Check.antt =====
-- `storage_fsck` and `count_allocated_data_sectors` of src/fs/storage/storage.c. The numbers of
-- errors are far below 2 ^ 31, so they do not wrap.
pub mod Ends
pub mod Faults
pub mod Fixed
pub mod Sound
mod Tests
use project_orange_tea.Base.{
  ℕ, zero, suc, ◌+◌, ◌-◌, ◌*◌, ◌/◌, ◌%◌, get_or, Bool, true, false, ◌&&◌, ◌||◌, not, Option, none,
  some, List, [], ◌∷◌, ltb, leb, ◌==◌, if◌then◌else◌, drop,
}
use project_orange_tea.Storage.State.{
  Status, io, notmounted, BlockDevice, Entry, blank_entry, Storage, entry_at, magic, version,
  bitmap_start, bits_per_sector, max_entries, content_capacity,
}
use project_orange_tea.Storage.Run.{
  Run, done, fail, Cmd, Void, pure, raise, current, failing_as, reject_if, ◌>>=◌, ◌>>◌,
}
use project_orange_tea.Storage.Bytes.{equal, get32, get64}
use project_orange_tea.Storage.Path.{normalize, last_name}
use project_orange_tea.Storage.Disk.{disk_read}
use project_orange_tea.Storage.Bitmap.{bit_in, bitmap_bit, bitmap_value}
use project_orange_tea.Storage.Inode.{block_at}
use project_orange_tea.Storage.Sync.{storage_sync}
use project_orange_tea.Storage.Files.{is_root, parent_exists, must_be_mounted}
use project_orange_tea.Storage.Info.{count_used}

-- `unresolved`, `corrected` and `referenced_sectors`
pub record Counts : Type 0 where
  pub unresolved : ℕ
  pub corrected : ℕ
  pub referenced : ℕ

abbrev pub none_yet : Counts
none_yet = record { unresolved = 0; corrected = 0; referenced = 0 }

abbrev pub more_faults : ℕ → Counts → Counts
more_faults n c = record c { unresolved = c.unresolved + n }

abbrev pub one_corrected : Counts → Counts
one_corrected c = record c { corrected = c.corrected + 1 }

-- `if (test) unresolved++;`
abbrev pub fault_if : Bool → ℕ
fault_if true = 1
fault_if false = 0

abbrev pub is_file_type : Entry → Bool
is_file_type entry = entry.type == b'f'

abbrev pub is_dir_type : Entry → Bool
is_dir_type entry = entry.type == b'd'

abbrev pub has_normal_path : List ℕ → Bool
has_normal_path path = elim (normalize path) [
  | none ↦ false
  | some normalized ↦ equal normalized path
]

-- two entries with one path, and two files with one sector
abbrev pub clash : Entry → Entry → ℕ
clash entry other =
    fault_if (equal entry.path other.path)
    + fault_if (
        is_file_type entry
        && is_file_type other
        && not (block_at entry 0 == 0)
        && block_at entry 0 == block_at other 0)

abbrev pub wrong_size : Entry → Bool
wrong_size entry =
    is_file_type entry && leb content_capacity entry.size
    || is_dir_type entry && not (entry.size == 0)

-- the bits set in a sector of the bitmap, from one on
unfoldable pub count_bits : List ℕ → ℕ → ℕ → ℕ
count_bits block zero sector = 0
count_bits block (suc rounds) sector =
    bit_in block (sector % bits_per_sector) + count_bits block rounds (sector + 1)

-- the loop over the entries behind one
unfoldable pub clashes : List Entry → Entry → ℕ → ℕ → ℕ
clashes entries entry zero j = 0
clashes entries entry (suc rounds) j =
    clash entry (get_or entries j blank_entry) + clashes entries entry rounds (j + 1)

module _ {Disk : Type 0} where
  abbrev pub is_misplaced : Storage Disk → Entry → Bool
  is_misplaced s entry =
      not (has_normal_path entry.path)
      || is_root entry.path
      || not (parent_exists s entry.path)
      || not (is_file_type entry) && not (is_dir_type entry)
      || not (equal (last_name entry.path entry.path) entry.name)
      || wrong_size entry

  -- what is counted of an entry before its sector is looked up
  unfoldable pub entry_faults : Storage Disk → ℕ → ℕ
  unfolding clashes
  entry_faults s i =
      let entry = entry_at s i in
      fault_if (is_misplaced s entry)
      + clashes s.entries entry (s.entry_count - suc i) (suc i)
      + count_used (drop 1 entry.blocks)
      + fault_if (is_dir_type entry && not (block_at entry 0 == 0))

  -- a sector whose bit is found to be clear
  unfoldable pub restore_bit : Bool → ℕ → Counts → Cmd Disk Counts
  restore_bit false sector c s = done (more_faults 1 c) s
  restore_bit true sector c s = elim (bitmap_bit sector true s) [
    | done _ s' ↦ done (one_corrected c) s'
    | fail _ s' ↦ done (more_faults 1 c) s'
  ]

  unfoldable pub check_bit : Bool → ℕ → Counts → Cmd Disk Counts
  unfolding restore_bit
  check_bit repair sector c = do
    value ← failing_as io (bitmap_value sector)
    if value == 0 then restore_bit repair sector c else pure c

  abbrev pub is_outside : BlockDevice Disk → Storage Disk → ℕ → Bool
  is_outside dev s sector = ltb sector s.data_start || leb dev.sector_count sector

  unfoldable pub check_sector : BlockDevice Disk → Bool → Entry → Counts → Cmd Disk Counts
  unfolding check_bit
  check_sector dev repair entry c s =
      if not (is_file_type entry)
      then done c s
      else if block_at entry 0 == 0
      then done (more_faults (fault_if (not (entry.size == 0))) c) s
      else if is_outside dev s (block_at entry 0)
      then done (more_faults 1 c) s
      else check_bit repair (block_at entry 0) (record c { referenced = c.referenced + 1 }) s

  unfoldable pub check_entry : BlockDevice Disk → Bool → ℕ → Counts → Cmd Disk Counts
  unfolding entry_faults check_sector
  check_entry dev repair i c s =
      check_sector dev repair (entry_at s i) (more_faults (entry_faults s i) c) s

  unfoldable pub check_entries : BlockDevice Disk → Bool → ℕ → ℕ → Counts → Cmd Disk Counts
  unfolding check_entry
  check_entries dev repair zero i c = pure c
  check_entries dev repair (suc rounds) i c = do
    c' ← check_entry dev repair i c
    check_entries dev repair rounds (i + 1) c'

  -- the loop over the sectors in front of the data
  unfoldable pub check_metadata : Bool → ℕ → ℕ → Counts → Cmd Disk Counts
  unfolding check_bit
  check_metadata repair zero sector c = pure c
  check_metadata repair (suc rounds) sector c = do
    c' ← check_bit repair sector c
    check_metadata repair rounds (sector + 1) c'

  -- the first data sector that a sector of the bitmap tells of, and the end of those it tells of
  abbrev pub first_told : Storage Disk → ℕ → ℕ
  first_told s index =
      if ltb (index * bits_per_sector) s.data_start then s.data_start else index * bits_per_sector

  abbrev pub end_told : BlockDevice Disk → ℕ → ℕ
  end_told dev index =
      if ltb (dev.sector_count - index * bits_per_sector) bits_per_sector
      then dev.sector_count
      else index * bits_per_sector + bits_per_sector

  unfoldable pub count_allocated : BlockDevice Disk → ℕ → ℕ → ℕ → Cmd Disk ℕ
  unfolding count_bits
  count_allocated dev zero index allocated = pure allocated
  count_allocated dev (suc rounds) index allocated = do
    block ← failing_as io (disk_read (bitmap_start + index))
    s ← current
    count_allocated dev rounds (index + 1) (
        allocated + count_bits block (end_told dev index - first_told s index) (first_told s index))

  -- `expected_bitmap`
  abbrev pub expected_bitmap : BlockDevice Disk → ℕ
  expected_bitmap dev =
      dev.sector_count / bits_per_sector
      + (if dev.sector_count % bits_per_sector == 0 then 0 else 1)

  abbrev pub is_super_wrong : BlockDevice Disk → List ℕ → Storage Disk → Bool
  is_super_wrong dev super s =
      not (get32 super 0 == magic)
      || not (get32 super 4 == version)
      || not (get32 super 8 == s.entry_count)
      || not (get64 super 16 == dev.sector_count)
      || not (get64 super 24 == expected_bitmap dev)
      || not (get64 super 32 == bitmap_start + expected_bitmap dev)
      || not (s.bitmap_sectors == expected_bitmap dev)
      || not (s.data_start == bitmap_start + expected_bitmap dev)
      || ltb max_entries s.entry_count
      || leb dev.sector_count s.data_start

  -- what is corrected is saved, and the bits set are compared with the sectors in use
  unfoldable pub fsck_finish : Counts → ℕ → Cmd Disk ℕ
  fsck_finish c allocated = do
    if c.corrected == 0 then pure tt else failing_as io storage_sync
    pure (c.unresolved + fault_if (not (allocated == c.referenced)))

  unfoldable pub fsck_bitmap : BlockDevice Disk → Bool → Counts → Cmd Disk ℕ
  unfolding check_metadata count_allocated fsck_finish
  fsck_bitmap dev repair c s =
      (do
        c' ← check_metadata repair s.data_start 0 c
        allocated ← count_allocated dev s.bitmap_sectors 0 0
        fsck_finish c' allocated)
        s

  -- the sweeps, once the superblock is right: the number of errors that are left
  unfoldable pub fsck_sweeps : BlockDevice Disk → Bool → Cmd Disk ℕ
  unfolding check_entries fsck_bitmap
  fsck_sweeps dev repair s =
      (do c ← check_entries dev repair s.entry_count 0 none_yet; fsck_bitmap dev repair c) s

  unfoldable pub fsck_device : BlockDevice Disk → Bool → Cmd Disk ℕ
  unfolding fsck_sweeps get32 get64
  fsck_device dev repair = do
    super ← failing_as io (disk_read 0)
    s ← current
    if is_super_wrong dev super s then pure 1 else fsck_sweeps dev repair

  abbrev pub fsck_attached : Bool → Cmd Disk ℕ
  fsck_attached repair s = elim s.device [ none ↦ fail io s | some dev ↦ fsck_device dev repair s ]

  -- The number is `*errors`; the code returns STORAGE_OK where it is 0 and STORAGE_ERR_CORRUPT
  -- where it is not.
  unfoldable pub storage_fsck : Bool → Cmd Disk ℕ
  unfolding fsck_device
  storage_fsck repair = do must_be_mounted; fsck_attached repair
