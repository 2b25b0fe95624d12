-- ===== src/Storage/Info.antt =====
-- The questions of src/fs/storage/storage.c: `storage_get_entry_info` and what
-- src/fs/vfs/vfs.c makes of it, the entries by their index, `storage_get_device_info` and
-- `storage_get_stats`. The pointers to fill are never null; a device's name and type are left out.
pub mod Listing
use project_orange_tea.Base.{
  ℕ, zero, suc, ◌+◌, ◌-◌, Bool, true, false, not, Option, none, some, List, [], ◌∷◌, ltb, leb, ◌==◌,
  if◌then◌else◌,
}
use project_orange_tea.Storage.State.{
  Status, inval, noent, notmounted, BlockDevice, Entry, Storage, entry_at, sector_size,
}
use project_orange_tea.Storage.Run.{
  Run, done, fail, Cmd, pure, raise, current, reject_if, ◌>>=◌, ◌>>◌,
}
use project_orange_tea.Storage.Path.{normalize, slash}
use project_orange_tea.Storage.Bitmap.{sector_limit}
use project_orange_tea.Storage.Inode.{block_at}
use project_orange_tea.Storage.Files.{find, is_root, must_be_mounted}

-- `struct storage_entry_info`
pub record EntryInfo : Type 0 where
  pub name : List ℕ
  pub path : List ℕ
  pub type : ℕ
  pub size : ℕ
  pub blocks_used : ℕ
  pub file_id : ℕ
  pub created_at : ℕ
  pub modified_at : ℕ
  pub attributes : ℕ

-- the root, with STORAGE_ATTR_SYSTEM
abbrev pub root_info : EntryInfo
root_info = record {
  name = slash;
  path = slash;
  type = b'd';
  size = 0;
  blocks_used = 0;
  file_id = 0;
  created_at = 0;
  modified_at = 0;
  attributes = 2;
}

-- the numbers of a list other than 0
abbrev pub count_used : List ℕ → ℕ
count_used [] = 0
count_used (block ∷ blocks) = let rest = count_used blocks in if block == 0 then rest else suc rest

abbrev pub info_of : Entry → EntryInfo
info_of entry = record {
  name = entry.name;
  path = entry.path;
  type = entry.type;
  size = entry.size;
  blocks_used = count_used entry.blocks;
  file_id = entry.file_id;
  created_at = entry.created_at;
  modified_at = entry.modified_at;
  attributes = entry.attributes;
}

-- `struct storage_device_info`
pub record DeviceInfo : Type 0 where
  pub sectors : ℕ
  pub sector_bytes : ℕ
  pub present : Bool
  pub is_mounted : Bool

-- `struct storage_stats`
pub record Stats : Type 0 where
  pub total_sectors : ℕ
  pub used_sectors : ℕ
  pub free_sectors : ℕ
  pub sector_bytes : ℕ
  pub file_count : ℕ
  pub directory_count : ℕ

-- what the loop of `storage_get_stats` counts of an entry
abbrev pub counted : Entry → Stats → Stats
counted entry stats =
    if entry.type == b'f'
    then record stats {
      file_count = stats.file_count + 1;
      used_sectors = stats.used_sectors + count_used entry.blocks;
    }
    else record stats { directory_count = stats.directory_count + 1 }

-- `free_sectors` is 0 where more is used than there is.
abbrev pub with_free : Stats → Stats
with_free stats = record stats { free_sectors = stats.total_sectors - stats.used_sectors }

module _ {Disk : Type 0} where
  abbrev pub lookup_info : List ℕ → Cmd Disk EntryInfo
  lookup_info normalized s = elim (find s normalized) [
    | none ↦ fail noent s
    | some index ↦ done (info_of (entry_at s index)) s
  ]

  abbrev pub normal_path : List ℕ → Cmd Disk (List ℕ)
  normal_path path s = elim (normalize path) [
    | none ↦ fail inval s
    | some normalized ↦ done normalized s
  ]

  abbrev pub told_info : List ℕ → Cmd Disk EntryInfo
  told_info normalized = if is_root normalized then pure root_info else lookup_info normalized

  unfoldable pub storage_get_entry_info : List ℕ → Cmd Disk EntryInfo
  unfolding find
  storage_get_entry_info path = do
    must_be_mounted
    normalized ← normal_path path
    told_info normalized

  -- `storage_get_entry_path` and its kin: an index outside the table gives what is empty
  abbrev pub storage_get_entry_path : Storage Disk → ℕ → List ℕ
  storage_get_entry_path s index = if ltb index s.entry_count then (entry_at s index).path else []

  abbrev pub storage_get_entry_name : Storage Disk → ℕ → List ℕ
  storage_get_entry_name s index = if ltb index s.entry_count then (entry_at s index).name else []

  abbrev pub storage_get_entry_type : Storage Disk → ℕ → ℕ
  storage_get_entry_type s index = if ltb index s.entry_count then (entry_at s index).type else 0

  abbrev pub storage_get_entry_content : Storage Disk → ℕ → List ℕ
  storage_get_entry_content s index =
      if ltb index s.entry_count then (entry_at s index).content else []

  -- `vfs_readdir`, for an index that is not negative
  unfoldable pub vfs_readdir : ℕ → Cmd Disk EntryInfo
  unfolding storage_get_entry_info
  vfs_readdir index = do
    s ← current
    reject_if (leb s.entry_count index) noent
    storage_get_entry_info (storage_get_entry_path s index)

  unfoldable pub storage_get_device_info : Storage Disk → Option DeviceInfo
  storage_get_device_info s = elim s.device [
    | none ↦ none
    | some dev ↦ some (record {
      sectors = dev.sector_count;
      sector_bytes = sector_size;
      present = true;
      is_mounted = s.mounted;
    })
  ]

  unfoldable pub count_entries : Storage Disk → ℕ → ℕ → Stats → Stats
  count_entries s zero i stats = stats
  count_entries s (suc rounds) i stats =
      count_entries s rounds (i + 1) (counted (entry_at s i) stats)

  abbrev pub no_stats : Storage Disk → Stats
  no_stats s = record {
    total_sectors = sector_limit s;
    used_sectors = elim s.device [ none ↦ 0 | some _ ↦ s.data_start ];
    free_sectors = 0;
    sector_bytes = sector_size;
    file_count = 0;
    directory_count = 0;
  }

  unfoldable pub storage_get_stats : Cmd Disk Stats
  unfolding count_entries
  storage_get_stats = do
    must_be_mounted
    s ← current
    pure (with_free (count_entries s s.entry_count 0 (no_stats s)))
