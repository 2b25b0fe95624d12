-- ===== src/Storage/Check/Tests.antt =====
-- `storage_fsck` and `vfs_readdir` on a device of 100 sectors with one file, whose sectors are a
-- function.
use project_orange_tea.Base.{
  ℕ, ◌+◌, ◌<◌, ◌≡◌, refl, true, false, none, some, List, [], ◌∷◌, ◌++◌, ◌==◌, if◌then◌else◌,
  replicate, arith,
}
use project_orange_tea.Storage.State.{
  BlockDevice, Entry, blank_entry, blank_fd, blank_slot, Storage,
}
use project_orange_tea.Storage.Run.{state_of, done}
use project_orange_tea.Storage.Inode.{super_block}
use project_orange_tea.Storage.Files.View.{view}
use project_orange_tea.Storage.Info.{info_of, vfs_readdir}
use project_orange_tea.Storage.Info.Listing.{vfs_readdir-IsSound}
use project_orange_tea.Storage.Check.{storage_fsck}
use project_orange_tea.Storage.Check.Fixed.{view-storage_fsck}
use project_orange_tea.Storage.Check.Sound.{IsSound, storage_fsck-IsSound}

abbrev Sectors : Type 0
Sectors = ℕ → List ℕ

abbrev ram : BlockDevice Sectors
ram = record {
  sector_count = 100;
  read_sector = λ disk sector. (some (disk sector), disk);
  write_sector = λ disk sector bytes. (true, λ n. if n == sector then bytes else disk n);
  flush = none;
}

-- the file "/f" with the contents "hi", in sector 66
abbrev file : Entry
file = record blank_entry {
  path = b'/' ∷ b'f' ∷ [];
  name = b'f' ∷ [];
  type = b'f';
  size = 2;
  blocks = 66 ∷ replicate 7 0;
  content = b'h' ∷ b'i' ∷ replicate 254 0;
  file_id = 1;
}

abbrev blank_disk : Storage Sectors
blank_disk = record {
  entries = file ∷ replicate 63 blank_entry;
  fds = replicate 16 blank_fd;
  cache = replicate 4 blank_slot;
  cache_next_slot = 0;
  device = some ram;
  disk = λ n. replicate 512 0;
  bitmap_sectors = 1;
  data_start = 66;
  next_file_id = 2;
  last_timestamp = 6;
  clock = none;
  clock_calls = 0;
  entry_count = 1;
  mounted = true;
}

-- the sectors 0 to 66 are in use
abbrev bitmap : List ℕ
bitmap = replicate 8 255 ++ (7 ∷ replicate 503 0)

abbrev storage : Storage Sectors
storage = record blank_disk {
  disk = λ n.
      if n == 0 then super_block blank_disk 100 else if n == 65 then bitmap else replicate 512 0;
}

clean : storage_fsck false storage ≡ done 0 (state_of (storage_fsck false storage))
unfolding storage_fsck project_orange_tea.Storage.Disk.disk_read project_orange_tea.Base.first_where
    super_block project_orange_tea.Storage.Bitmap.bitmap_value
    project_orange_tea.Storage.Bitmap.bit_in project_orange_tea.Storage.Path.normalize
    project_orange_tea.Storage.Files.parent_exists project_orange_tea.Storage.Path.parent_path
    project_orange_tea.Storage.Path.last_name
clean = refl

storage_fsck-IsSound_example : IsSound storage
storage_fsck-IsSound_example =
    storage_fsck-IsSound false storage (state_of (storage_fsck false storage)) clean

view-storage_fsck_example : view (state_of (storage_fsck true storage)) ≡ view storage
view-storage_fsck_example = view-storage_fsck true storage

vfs_readdir-IsSound_example : vfs_readdir 0 storage ≡ done (info_of file) storage
vfs_readdir-IsSound_example =
    vfs_readdir-IsSound storage storage_fsck-IsSound_example 0 (omega arith) refl
