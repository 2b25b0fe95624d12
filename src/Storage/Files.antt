-- ===== src/Storage/Files.antt =====
-- `find`, `parent_exists`, `create`, `storage_mkdir` and `storage_create_file` of
-- src/fs/storage/storage.c.
pub mod Create
pub mod Table
pub mod View
use project_orange_tea.Base.{
  ℕ, zero, suc, ◌+◌, ◌-◌, ◌%◌, ◌^◌, ◌≤◌, ◌<◌, Bool, true, false, ◌&&◌, ◌||◌, not, Option, none,
  some, List, [], ◌∷◌, ◌++◌, ltb, leb, ◌==◌, if◌then◌else◌, map, replicate, get_or, set, take,
  length, first_where, min,
}
use project_orange_tea.Storage.State.{
  Status, ok, inval, noent, exist, notdir, isdir, nospc, notempty, io, notmounted, corrupt,
  unfinished, is_ok, BlockDevice, Entry, blank_entry, Fd, Storage, entry_at, max_entries, max_path,
  content_capacity, max_fds,
}
use project_orange_tea.Storage.Run.{
  Run, done, fail, Cmd, Void, pure, raise, current, modify, failing_as, reject_if, ◌>>=◌, ◌>>◌,
  succeeds,
}
use project_orange_tea.Storage.Bytes.{blit, slice, equal, path_prefix, text_copy, c_string}
use project_orange_tea.Storage.Path.{normalize, slash, last_name, parent_path}
use project_orange_tea.Storage.Bitmap.{bitmap_bit}
use project_orange_tea.Storage.Inode.{set_entry}
use project_orange_tea.Storage.Sync.{timestamp_now, storage_sync, closed}

abbrev pub is_dir : Entry → Bool
is_dir entry = entry.type == b'd'

abbrev pub is_root : List ℕ → Bool
is_root path = equal path slash

-- The entry that `create` writes behind the others. Past the end of the array of 64 the code writes
-- outside it; the model then writes nothing, and still counts the entry.
abbrev pub new_entry : List ℕ → ℕ → ℕ → Entry
new_entry normalized type id = record blank_entry {
  path = text_copy normalized 64;
  name = text_copy (last_name normalized normalized) 16;
  type = type;
  file_id = id;
}

-- `next_file_id++`, which skips 0
abbrev pub id_after : ℕ → ℕ
id_after id = if (id + 1) % 2 ^ 32 == 0 then 1 else (id + 1) % 2 ^ 32

-- `text_copy` of the contents, and the size counted up to the NUL
abbrev pub with_text : Entry → List ℕ → Entry
with_text entry text =
    let kept = text_copy text 256 in
    record entry { content = blit (replicate 256 0) 0 kept; size = length kept }

-- the contents are stored for a file that is given some
abbrev pub filled : Entry → Option (List ℕ) → Entry
filled entry none = entry
filled entry (some text) = if entry.type == b'f' then with_text entry text else entry

-- `content` and `size` of an entry that holds `bytes`, with a NUL behind them
abbrev pub with_content_at : Entry → ℕ → List ℕ → Entry
with_content_at entry offset bytes = record entry {
  content = set (blit entry.content offset bytes) (offset + length bytes) 0;
  size = offset + length bytes;
}

module _ {Disk : Type 0} where
  abbrev pub has_path : Storage Disk → List ℕ → ℕ → Bool
  has_path s normalized i = equal (entry_at s i).path normalized

  -- `find`; `none` is its -1.
  unfoldable pub find : Storage Disk → List ℕ → Option ℕ
  find s path = elim (normalize path) [
    | none ↦ none
    | some normalized ↦ first_where (has_path s normalized) s.entry_count 0
  ]

  unfoldable pub parent_exists : Storage Disk → List ℕ → Bool
  parent_exists s path = elim (parent_path path) [
    | none ↦ true
    | some parent ↦ elim (find s parent) [ none ↦ false | some i ↦ is_dir (entry_at s i) ]
  ]

  -- A path that normalises to something else than the root, or STORAGE_ERR_INVAL.
  abbrev pub proper_path : List ℕ → Cmd Disk (List ℕ)
  proper_path path s = elim (normalize path) [
    | none ↦ fail inval s
    | some normalized ↦ if is_root normalized then fail inval s else done normalized s
  ]

  abbrev pub must_be_mounted : Cmd Disk Void
  must_be_mounted s = if s.mounted then done tt s else fail notmounted s

  abbrev pub add_entry : Entry → Storage Disk → Storage Disk
  add_entry entry s = record s {
    entries = set s.entries s.entry_count entry;
    entry_count = s.entry_count + 1;
  }

  -- the last part of `create`: the entry is written and everything saved
  unfoldable pub append_entry : List ℕ → ℕ → Option (List ℕ) → Cmd Disk Void
  append_entry normalized type text = do
    s ← current
    modify (λ s. record s { next_file_id = id_after s.next_file_id })
    now ← timestamp_now
    let made = new_entry normalized type s.next_file_id
    modify (add_entry (filled (record made { created_at = now; modified_at = now }) text))
    storage_sync

  -- `parent_directory`, with the call of `create` for a directory as a parameter. A root parent
  -- and a directory are accepted; a missing one is created.
  abbrev pub parent_directory : (List ℕ → Cmd Disk Void) → List ℕ → Cmd Disk Bool
  parent_directory make path s = elim (parent_path path) [
    | none ↦ done true s
    | some parent ↦ elim (find s parent) [
      | some i ↦ done (is_dir (entry_at s i)) s
      | none ↦ elim (make parent s) [
        | done _ s' ↦ done true s'
        | fail unfinished s' ↦ fail unfinished s'
        | fail _ s' ↦ done false s'
      ]
    ]
  ]

  -- `create` calls itself for the parent through `parent_directory`; each parent is shorter than
  -- its child, so 64 rounds are enough.
  unfoldable pub create_rounds : ℕ → List ℕ → ℕ → Option (List ℕ) → Cmd Disk Void
  unfolding append_entry find
  create_rounds zero path type text = raise unfinished
  create_rounds (suc rounds) path type text = do
    must_be_mounted
    s ← current
    normalized ← proper_path path
    reject_if (not (type == b'f') && not (type == b'd')) inval
    elim (find s normalized) [ none ↦ pure tt | some _ ↦ raise exist ]
    reject_if (s.entry_count == max_entries) notdir
    present ← parent_directory (λ parent. create_rounds rounds parent b'd' none) normalized
    reject_if (not present) notdir
    append_entry normalized type text

  unfoldable pub create : List ℕ → ℕ → Option (List ℕ) → Cmd Disk Void
  unfolding create_rounds
  create path type text = create_rounds 64 path type text

  unfoldable pub storage_mkdir : List ℕ → Cmd Disk Void
  storage_mkdir path = do
    must_be_mounted
    normalized ← proper_path path
    s ← current
    reject_if (not (parent_exists s normalized)) notdir
    create normalized b'd' none

  -- The buffer is never null.
  unfoldable pub storage_create_file : List ℕ → List ℕ → Cmd Disk Void
  storage_create_file path bytes = do
    must_be_mounted
    reject_if (leb content_capacity (length bytes)) nospc
    normalized ← proper_path path
    s ← current
    elim (find s normalized) [ none ↦ pure tt | some _ ↦ raise exist ]
    reject_if (not (parent_exists s normalized)) notdir
    create normalized b'f' none
    s' ← current
    index ← (elim (find s' normalized) [ none ↦ raise io | some i ↦ pure i ])
    modify (λ s. set_entry s index (with_content_at (entry_at s index) 0 bytes))
    storage_sync
