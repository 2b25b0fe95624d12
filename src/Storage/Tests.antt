-- ===== src/Storage/Tests.antt =====
-- The storage at small inputs, on a device whose sectors are a function.
use project_orange_tea.Base.{
  inr, inl, inl, ℕ, zero, suc, ◌+◌, ◌^◌, ◌≤◌, ◌<◌, ◌≡◌, ◌≢◌, refl, sym, ap, Bool, true, false, ◌==◌,
  if◌then◌else◌, Option, none, some, List, [], ◌∷◌, ◌++◌, replicate, take, length, get_or, set, min,
  arith, if-true, if-false,
}
use project_orange_tea.Storage.State.{
  BlockDevice, Entry, blank_entry, blank_fd, blank_slot, Storage,
}
use project_orange_tea.Storage.Run.{state_of, done}
use project_orange_tea.Storage.Path.{normalize, parent_path}
use project_orange_tea.Storage.Path.Reading.{normalize_idem, normalize_bounds}
use project_orange_tea.Storage.Disk.{disk_read, disk_write}
use project_orange_tea.Storage.Disk.Cache.{
  Reliable, Coherent, disk_read-holds, disk_read-disk_write,
}
use project_orange_tea.Storage.Inode.{inode_block, data_block, set_entry, read_inode, write_inode}
use project_orange_tea.Storage.Inode.RoundTrip.{IsStorable}
use project_orange_tea.Storage.Inode.Saving.{read_inode-write_inode}
use project_orange_tea.Storage.Inode.Reading.{restored, read_inode-inode_block}
use project_orange_tea.Storage.Sync.{storage_sync}
use project_orange_tea.Storage.Files.{find, create, is_root}
use project_orange_tea.Storage.Files.Create.{find-create}
use project_orange_tea.Storage.Bytes.{equal}
use project_orange_tea.Storage.Files.View.{view, view-storage_sync}
use project_orange_tea.Storage.Content.{storage_read_file, storage_write_file}
use project_orange_tea.Storage.Content.RoundTrip.{expected, read-write}

abbrev Sectors : Type 0
Sectors = ℕ → List ℕ

abbrev put : Sectors → ℕ → List ℕ → Sectors
put disk sector bytes = λ n. if n == sector then bytes else disk n

abbrev ram : BlockDevice Sectors
ram = record {
  sector_count = 100;
  read_sector = λ disk sector. (some (disk sector), disk);
  write_sector = λ disk sector bytes. (true, put disk sector bytes);
  flush = none;
}

put_other : (n sector : ℕ) → n ≢ sector → n == sector ≡ false
put_other n sector ne = ground arith

put_self : (sector : ℕ) → sector == sector ≡ true
put_self sector = ground arith

ram-Reliable : Reliable ram (λ disk sector. disk sector)
ram-Reliable = record {
  reads = λ disk sector inside. (disk, refl, λ other. refl);
  writes = λ disk sector bytes inside whole. (
    put disk sector bytes,
    refl,
    if-true _ _ (put_self sector),
    λ other ne. if-false _ _ (put_other other sector ne),
  );
}

-- "/f"
abbrev path : List ℕ
path = b'/' ∷ b'f' ∷ []

-- the file "/f" with the contents "hi"
abbrev file : Entry
file = record {
  path = path;
  name = b'f' ∷ [];
  type = b'f';
  size = 2;
  blocks = replicate 8 0;
  content = b'h' ∷ b'i' ∷ replicate 254 0;
  file_id = 1;
  created_at = 5;
  modified_at = 6;
  attributes = 0;
}

abbrev storage : Storage Sectors
storage = record {
  entries = file ∷ replicate 63 blank_entry;
  fds = replicate 16 blank_fd;
  cache = replicate 4 blank_slot;
  cache_next_slot = 0;
  device = some ram;
  disk = λ n. replicate 512 0;
  bitmap_sectors = 1;
  data_start = 66;
  next_file_id = 2;
  last_timestamp = 6;
  clock = none;
  clock_calls = 0;
  entry_count = 1;
  mounted = true;
}

blank_slots : (n i : ℕ) → get_or (replicate n blank_slot) i blank_slot ≡ blank_slot
blank_slots zero i = refl
blank_slots (suc n) zero = refl
blank_slots (suc n) (suc i) = blank_slots n i

storage-Coherent : Coherent (λ (disk : Sectors) sector. disk sector) storage
storage-Coherent i valid = absurd (ground (arith, ap (λ c. c.valid) (blank_slots 4 i), valid))

disk_read-holds_example :
    (left : Storage Sectors) × (disk_read 3 storage ≡ done (replicate 512 0) left)
    × Coherent (λ (disk : Sectors) sector. disk sector) left
    × (left.device ≡ storage.device)
    × ((other : ℕ) → left.disk other ≡ storage.disk other)
disk_read-holds_example =
    disk_read-holds ram (λ disk sector. disk sector) ram-Reliable storage refl storage-Coherent 3
      (omega arith)

disk_read-disk_write_example :
    (written left : Storage Sectors) × (disk_write 3 (replicate 512 7) storage ≡ done tt written)
    × (disk_read 3 written ≡ done (replicate 512 7) left)
disk_read-disk_write_example =
    disk_read-disk_write ram (λ disk sector. disk sector) ram-Reliable storage refl storage-Coherent
      3 (replicate 512 7) (omega arith) refl

path_normalize : normalize path ≡ some path
unfolding normalize
path_normalize = refl

normalize_idem_example : normalize path ≡ some path
normalize_idem_example = normalize_idem path path path_normalize

normalize_bounds_example : (1 ≤ length path) × (length path < 64)
normalize_bounds_example = normalize_bounds path path path_normalize

blank_numbers : (n i : ℕ) → get_or (replicate n 0) i 0 < 2 ^ 32
blank_numbers zero i = omega arith
blank_numbers (suc n) zero = omega arith
blank_numbers (suc n) (suc i) = blank_numbers n i

file-IsStorable : IsStorable file
file-IsStorable = record {
  kind = refl;
  size_fits = omega arith;
  path_fits = omega arith;
  path_nonempty = omega arith;
  path_text = refl;
  name_fits = omega arith;
  name_text = refl;
  content_length = refl;
  block_numbers = blank_numbers 8;
  file_id_fits = omega arith;
  file_id_given = omega arith;
  created_fits = omega arith;
  modified_fits = omega arith;
  attributes_fit = omega arith;
}

-- the file when its data stand in sector 70, and a device that holds its two sectors
abbrev saved_file : Entry
saved_file = record file { blocks = 70 ∷ replicate 7 0 }

saved_file-IsStorable : IsStorable saved_file
saved_file-IsStorable = record {
  kind = refl;
  size_fits = omega arith;
  path_fits = omega arith;
  path_nonempty = omega arith;
  path_text = refl;
  name_fits = omega arith;
  name_text = refl;
  content_length = refl;
  block_numbers = numbers;
  file_id_fits = omega arith;
  file_id_given = omega arith;
  created_fits = omega arith;
  modified_fits = omega arith;
  attributes_fit = omega arith;
}
  where
    numbers : (i : ℕ) → get_or (70 ∷ replicate 7 0) i 0 < 2 ^ 32
    numbers zero = omega arith
    numbers (suc i) = blank_numbers 7 i

abbrev saved_disk : Storage Sectors
saved_disk = record storage {
  entries = replicate 64 blank_entry;
  disk = put (put storage.disk 1 (inode_block saved_file)) 70 (data_block saved_file);
}

saved_disk-Coherent : Coherent (λ (disk : Sectors) sector. disk sector) saved_disk
saved_disk-Coherent i valid = absurd (ground (arith, ap (λ c. c.valid) (blank_slots 4 i), valid))

read_inode-inode_block_example :
    (left : Storage Sectors) × (read_inode 0 saved_disk
      ≡ done tt (set_entry left 0 (restored saved_file)))
read_inode-inode_block_example =
    read_inode-inode_block ram (λ disk sector. disk sector) ram-Reliable saved_file
      saved_file-IsStorable refl 0 saved_disk refl saved_disk-Coherent (omega arith) refl
      (inr (refl, omega arith, refl))

-- the same file in a table that is still to be saved
abbrev unsaved : Storage Sectors
unsaved = record storage { entries = saved_file ∷ replicate 63 blank_entry }

unsaved-Coherent : Coherent (λ (disk : Sectors) sector. disk sector) unsaved
unsaved-Coherent i valid = absurd (ground (arith, ap (λ c. c.valid) (blank_slots 4 i), valid))

read_inode-write_inode_example :
    (written left : Storage Sectors) × (write_inode 0 unsaved ≡ done tt written)
    × (read_inode 0 written ≡ done tt (set_entry left 0 (restored saved_file)))
read_inode-write_inode_example =
    read_inode-write_inode ram (λ disk sector. disk sector) ram-Reliable 0 (omega arith) unsaved
      refl unsaved-Coherent saved_file-IsStorable refl (inr (refl, omega arith, λ e. omega arith))

view-storage_sync_example : view (state_of (storage_sync storage)) ≡ view storage
view-storage_sync_example = view-storage_sync storage

file_found : find storage path ≡ some 0
unfolding find project_orange_tea.Base.first_where normalize
file_found = refl

-- Appending "!" to "hi" and reading with room for eight bytes gives "hi!".
read-write_example :
    storage_read_file path 8 (state_of (storage_write_file path (b'!' ∷ []) true storage))
    ≡ done
        (take 8 (expected file true (b'!' ∷ [])), min 8 3, 3)
        (state_of (storage_write_file path (b'!' ∷ []) true storage))
read-write_example =
    read-write storage path (b'!' ∷ []) true 0 refl file_found refl (omega arith) (omega arith) 8
      refl

-- "/g"
abbrev other_path : List ℕ
other_path = b'/' ∷ b'g' ∷ []

other_normalize : normalize other_path ≡ some other_path
unfolding normalize
other_normalize = refl

other_free : find storage other_path ≡ none
unfolding find project_orange_tea.Base.first_where normalize
other_free = refl

other_top : parent_path other_path ≡ none
unfolding parent_path
other_top = refl

other_not_root : is_root other_path ≡ false
unfolding equal
other_not_root = refl

find-create_example : find (state_of (create other_path b'f' none storage)) other_path ≡ some 1
find-create_example =
    find-create storage other_path other_path b'f' none refl other_normalize other_not_root refl
      other_free (omega arith) (inl other_top) (omega arith)
