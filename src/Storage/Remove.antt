-- ===== src/Storage/Remove.antt =====
-- `remove_entry_at`, `remove_path`, `storage_unlink`, `storage_rmdir`, `storage_remove_tree` and
-- `storage_remove_entry` of src/fs/storage/storage.c.
use project_orange_tea.Base.{
  ℕ, zero, suc, ◌+◌, ◌-◌, Bool, true, false, ◌&&◌, ◌||◌, not, none, some, List, [], ◌∷◌, ltb, leb,
  ◌==◌, if◌then◌else◌, map, get_or, set, first_where,
}
use project_orange_tea.Storage.State.{
  Status, noent, notdir, isdir, notempty, io, Entry, blank_entry, Fd, Storage, entry_at,
}
use project_orange_tea.Storage.Run.{
  done, fail, Cmd, Void, pure, raise, current, modify, failing_as, reject_if, ◌>>=◌, ◌>>◌,
}
use project_orange_tea.Storage.Bytes.{equal, path_prefix}
use project_orange_tea.Storage.Bitmap.{bitmap_bit, sector_limit}
use project_orange_tea.Storage.Sync.{storage_sync}
use project_orange_tea.Storage.Files.{find, is_dir, proper_path, must_be_mounted}

-- `for (i = index; i + 1 < entry_count; i++) entries[i] = entries[i + 1];`, `rounds` times
unfoldable pub shift_down : ℕ → ℕ → List Entry → List Entry
shift_down zero i entries = entries
shift_down (suc rounds) i entries =
    shift_down rounds (i + 1) (set entries i (get_or entries (i + 1) blank_entry))

-- a descriptor of the removed entry, or of one behind it
abbrev pub close_from : ℕ → Fd → Fd
close_from index fd = if fd.used && leb index fd.entry then record fd { used = false } else fd

abbrev pub wrong_type : ℕ → Status
wrong_type required = if required == b'f' then isdir else notdir

abbrev pub in_tree : List ℕ → Entry → Bool
in_tree normalized entry = equal entry.path normalized || path_prefix entry.path normalized

module _ {Disk : Type 0} where
  abbrev pub bad_sector : Storage Disk → ℕ → Bool
  bad_sector s sector = ltb sector s.data_start || leb (sector_limit s) sector

  abbrev pub release_sector : ℕ → Cmd Disk Void
  release_sector sector = do
    s ← current
    reject_if (bad_sector s sector) io
    failing_as io (bitmap_bit sector false)

  -- The loop over the data sectors of an entry. With a data sector and no device the code would
  -- follow a null pointer; here it fails.
  unfoldable pub release_blocks : List ℕ → Cmd Disk Void
  release_blocks [] = pure tt
  release_blocks (sector ∷ sectors) = do
    if sector == 0 then pure tt else release_sector sector
    release_blocks sectors

  abbrev pub drop_entry : ℕ → Storage Disk → Storage Disk
  drop_entry index s = record s {
    entries = shift_down (s.entry_count - 1 - index) index s.entries;
    entry_count = s.entry_count - 1;
    fds = map (close_from index) s.fds;
  }

  unfoldable pub remove_entry_at : ℕ → Cmd Disk Void
  unfolding release_blocks
  remove_entry_at index = do
    s ← current
    release_blocks (entry_at s index).blocks
    modify (drop_entry index)

  abbrev pub is_below : Storage Disk → List ℕ → ℕ → ℕ → Bool
  is_below s normalized index i = not (i == index) && path_prefix (entry_at s i).path normalized

  unfoldable pub remove_path : List ℕ → ℕ → Cmd Disk Void
  unfolding remove_entry_at
  remove_path path required = do
    must_be_mounted
    normalized ← proper_path path
    s ← current
    index ← (elim (find s normalized) [ none ↦ raise noent | some i ↦ pure i ])
    reject_if (not ((entry_at s index).type == required)) (wrong_type required)
    elim (first_where (is_below s normalized index) s.entry_count 0) [
      | none ↦ pure tt
      | some _ ↦ if required == b'd' then raise notempty else pure tt
    ]
    remove_entry_at index
    storage_sync

  unfoldable pub storage_unlink : List ℕ → Cmd Disk Void
  unfolding remove_path
  storage_unlink path = remove_path path b'f'

  unfoldable pub storage_rmdir : List ℕ → Cmd Disk Void
  unfolding remove_path
  storage_rmdir path = remove_path path b'd'

  -- the loop of `storage_remove_tree` over the entries below `n`, the last one first
  unfoldable pub remove_tree_below : List ℕ → ℕ → Cmd Disk Void
  unfolding remove_entry_at
  remove_tree_below normalized zero = pure tt
  remove_tree_below normalized (suc i) = do
    s ← current
    if in_tree normalized (entry_at s i) then remove_entry_at i else pure tt
    remove_tree_below normalized i

  unfoldable pub storage_remove_tree : List ℕ → Cmd Disk Void
  unfolding remove_tree_below
  storage_remove_tree path = do
    must_be_mounted
    normalized ← proper_path path
    s ← current
    index ← (elim (find s normalized) [ none ↦ raise noent | some i ↦ pure i ])
    reject_if (not (is_dir (entry_at s index))) notdir
    remove_tree_below normalized s.entry_count
    storage_sync

  unfoldable pub storage_remove_entry : List ℕ → Storage Disk → Bool × Storage Disk
  unfolding storage_rmdir storage_unlink
  storage_remove_entry path s = elim (find s path) [
    | none ↦ (false, s)
    | some i ↦
        elim (if is_dir (entry_at s i) then storage_rmdir path s else storage_unlink path s) [
          | done _ s' ↦ (true, s')
          | fail _ s' ↦ (false, s')
        ]
  ]
