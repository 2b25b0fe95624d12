-- ===== src/Storage/State.antt =====
-- include/fs/storage.h, include/drivers/block_device.h and the statics of src/fs/storage/storage.c.
-- A byte and a character are numbers below 256. The arrays `path` and `name` hold strings that end
-- with a NUL byte: the model keeps the string, so what stands behind the NUL is left out.
-- `entries` is the whole array of 64, `entry_count` of which are live.
use project_orange_tea.Base.{ℕ, Bool, false, Option, List, [], replicate, get_or}

-- the STORAGE_OK and STORAGE_ERR_ codes; `unfinished` is the model's own, for a recursion that ran
-- out of fuel
pub data Status : Type 0 where
  ok inval noent exist notdir isdir nospc badfd notempty io notmounted corrupt unfinished : Status

abbrev pub is_ok : Status → Bool
is_ok ok = Bool.true
is_ok _ = false

abbrev pub max_path : ℕ
max_path = 64

abbrev pub max_entries : ℕ
max_entries = 64

abbrev pub max_file_blocks : ℕ
max_file_blocks = 8

abbrev pub sector_size : ℕ
sector_size = 512

abbrev pub content_capacity : ℕ
content_capacity = 256

abbrev pub max_fds : ℕ
max_fds = 16

abbrev pub cache_slots : ℕ
cache_slots = 4

-- STORAGE_MAGIC, STORAGE_VERSION, STORAGE_BITMAP_START, STORAGE_BITMAP_BITS_PER_SECTOR,
-- STORAGE_METADATA_OFFSET
abbrev pub magic : ℕ
magic = 0x4f525346

abbrev pub version : ℕ
version = 2

abbrev pub bitmap_start : ℕ
bitmap_start = 65

abbrev pub bits_per_sector : ℕ
bits_per_sector = 4096

abbrev pub metadata_offset : ℕ
metadata_offset = 400

-- `struct block_device`, with the context that its functions work on made explicit: a call gives
-- the context that it leaves. `none` and `false` are results other than 0. The functions are
-- outside this component (an ATA drive, a RAM disk), so they are fields of the device.
pub record BlockDevice (Disk : Type 0) : Type 0 where
  pub sector_count : ℕ
  pub read_sector : Disk → ℕ → Option (List ℕ) × Disk
  pub write_sector : Disk → ℕ → List ℕ → Bool × Disk
  pub flush : Option (Disk → Bool × Disk)

-- `struct storage_entry`
pub record Entry : Type 0 where
  pub path : List ℕ
  pub name : List ℕ
  pub type : ℕ
  pub size : ℕ
  pub blocks : List ℕ
  pub content : List ℕ
  pub file_id : ℕ
  pub created_at : ℕ
  pub modified_at : ℕ
  pub attributes : ℕ

-- an entry of zeros
abbrev pub blank_entry : Entry
blank_entry = record {
  path = [];
  name = [];
  type = 0;
  size = 0;
  blocks = replicate 8 0;
  content = replicate 256 0;
  file_id = 0;
  created_at = 0;
  modified_at = 0;
  attributes = 0;
}

-- `struct storage_fd`
pub record Fd : Type 0 where
  pub entry : ℕ
  pub offset : ℕ
  pub used : Bool

abbrev pub blank_fd : Fd
blank_fd = record { entry = 0; offset = 0; used = false }

-- `struct cache_sector`
pub record CacheSector : Type 0 where
  pub sector : ℕ
  pub bytes : List ℕ
  pub valid : Bool
  pub dirty : Bool

abbrev pub blank_slot : CacheSector
blank_slot = record { sector = 0; bytes = replicate 512 0; valid = false; dirty = false }

-- The statics. `clock` gives the readings of `storage_clock` in order, `clock_calls` counts those
-- taken.
pub record Storage (Disk : Type 0) : Type 0 where
  pub entries : List Entry
  pub fds : List Fd
  pub cache : List CacheSector
  pub cache_next_slot : ℕ
  pub device : Option (BlockDevice Disk)
  pub disk : Disk
  pub bitmap_sectors : ℕ
  pub data_start : ℕ
  pub next_file_id : ℕ
  pub last_timestamp : ℕ
  pub clock : Option (ℕ → ℕ)
  pub clock_calls : ℕ
  pub entry_count : ℕ
  pub mounted : Bool

abbrev pub entry_at : {Disk : Type 0} → Storage Disk → ℕ → Entry
entry_at s i = get_or s.entries i blank_entry

abbrev pub fd_at : {Disk : Type 0} → Storage Disk → ℕ → Fd
fd_at s fd = get_or s.fds fd blank_fd
