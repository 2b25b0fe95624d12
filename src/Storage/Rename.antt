-- ===== src/Storage/Rename.antt =====
-- `storage_rename` of src/fs/storage/storage.c.
use project_orange_tea.Base.{
  ℕ, zero, suc, ◌+◌, Bool, ◌&&◌, ◌||◌, not, none, some, List, ◌++◌, leb, if◌then◌else◌, get_or, set,
  drop, length, first_where,
}
use project_orange_tea.Storage.State.{
  Status, ok, inval, noent, exist, notdir, Entry, blank_entry, Storage, entry_at, max_path,
}
use project_orange_tea.Storage.Run.{Cmd, Void, pure, raise, current, modify, reject_if, ◌>>=◌, ◌>>◌}
use project_orange_tea.Storage.Bytes.{equal, path_prefix, text_copy}
use project_orange_tea.Storage.Path.{last_name}
use project_orange_tea.Storage.Sync.{storage_sync}
use project_orange_tea.Storage.Files.{find, parent_exists, is_dir, proper_path, must_be_mounted}

-- What stays the same through the call: the old and the new path, and whether a directory moves.
pub record Move : Type 0 where
  pub old_path : List ℕ
  pub new_root : List ℕ
  pub of_dir : Bool

-- `is_root || is_child`
abbrev pub is_source : Move → Entry → Bool
is_source m entry = equal entry.path m.old_path || (m.of_dir && path_prefix entry.path m.old_path)

abbrev pub suffix_of : Move → Entry → List ℕ
suffix_of m entry = drop (length m.old_path) entry.path

abbrev pub moved_path : Move → Entry → List ℕ
moved_path m entry = m.new_root ++ suffix_of m entry

abbrev pub moved : Move → Entry → Entry
moved m entry =
    if is_source m entry
    then record entry {
      path = moved_path m entry;
      name = text_copy (last_name (moved_path m entry) (moved_path m entry)) 16;
    }
    else entry

-- the second loop: the paths and names change
unfoldable pub move_entries : Move → ℕ → ℕ → List Entry → List Entry
move_entries m zero i entries = entries
move_entries m (suc rounds) i entries =
    move_entries m rounds (i + 1) (set entries i (moved m (get_or entries i blank_entry)))

module _ {Disk : Type 0} where
  abbrev pub collides : Storage Disk → Move → List ℕ → ℕ → Bool
  collides s m path j = not (is_source m (entry_at s j)) && equal (entry_at s j).path path

  -- the first loop, over `rounds` entries from `i` on: each new path must fit and be free
  unfoldable pub check_moves : Storage Disk → Move → ℕ → ℕ → Status
  check_moves s m zero i = ok
  check_moves s m (suc rounds) i =
      let rest = check_moves s m rounds (i + 1) in
      let entry = entry_at s i in
      if is_source m entry
      then (if leb max_path (length (moved_path m entry))
          then inval
          else elim (first_where (collides s m (moved_path m entry)) s.entry_count 0) [
            | none ↦ rest
            | some _ ↦ exist
          ])
      else rest

  unfoldable pub storage_rename : List ℕ → List ℕ → Cmd Disk Void
  unfolding check_moves move_entries
  storage_rename source destination = do
    s ← current
    must_be_mounted
    index ← (elim (find s source) [ none ↦ raise noent | some i ↦ pure i ])
    normalized ← proper_path destination
    elim (find s normalized) [ none ↦ pure tt | some _ ↦ raise exist ]
    reject_if (not (parent_exists s normalized)) notdir
    let entry = entry_at s index
    reject_if (is_dir entry && path_prefix normalized entry.path) inval
    let m : Move = record {
      old_path = text_copy entry.path 64;
      new_root = normalized;
      of_dir = is_dir entry;
    }
    elim (check_moves s m s.entry_count 0) [ ok ↦ pure tt | status ↦ raise status ]
    modify (λ s. record s { entries = move_entries m s.entry_count 0 s.entries })
    storage_sync
