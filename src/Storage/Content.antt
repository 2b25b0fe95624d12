-- ===== src/Storage/Content.antt =====
-- `storage_write_file`, `storage_read_file` and `storage_copy` of src/fs/storage/storage.c, and the
-- calls on descriptors. A buffer that is filled is the list of the bytes put into it; buffers are
-- never null.
pub mod RoundTrip
use project_orange_tea.Base.{
  ℕ, zero, suc, ◌+◌, ◌-◌, ◌%◌, ◌^◌, ◌≤◌, ◌<◌, Bool, true, false, ◌&&◌, ◌||◌, not, Option, none,
  some, List, [], ◌∷◌, ◌++◌, ltb, leb, ◌==◌, if◌then◌else◌, map, replicate, get_or, set, take, drop,
  length, first_where, min,
}
use project_orange_tea.Storage.State.{
  Status, ok, inval, noent, exist, notdir, isdir, nospc, badfd, notempty, io, notmounted, corrupt,
  unfinished, is_ok, BlockDevice, Entry, blank_entry, Fd, Storage, entry_at, fd_at, max_entries,
  max_path, content_capacity, max_fds, sector_size,
}
use project_orange_tea.Storage.Run.{
  Run, done, fail, Cmd, Void, pure, raise, current, modify, failing_as, reject_if, ◌>>=◌, ◌>>◌,
  succeeds,
}
use project_orange_tea.Storage.Bytes.{blit, slice, equal, path_prefix, text_copy, c_string}
use project_orange_tea.Storage.Path.{normalize, slash, last_name, parent_path}
use project_orange_tea.Storage.Bitmap.{bitmap_bit, sector_limit}
use project_orange_tea.Storage.Inode.{set_entry, is_file, block_at}
use project_orange_tea.Storage.Sync.{timestamp_now, storage_sync}
use project_orange_tea.Storage.Files.{
  find, has_path, parent_exists, is_root, is_dir, proper_path, must_be_mounted, create,
  storage_create_file,
}

-- `copy(content + offset, buffer, length)`
abbrev pub write_at : Entry → ℕ → List ℕ → List ℕ
write_at entry offset bytes = blit entry.content offset bytes

-- `size = n`, with a NUL at that place
abbrev pub sized : Entry → List ℕ → ℕ → Entry
sized entry content n = record entry { content = set content n 0; size = n }

abbrev pub is_free_fd : Fd → Bool
is_free_fd fd = not fd.used

abbrev pub no_room : ℕ → ℕ → Bool
no_room offset n = leb content_capacity offset || leb (content_capacity - offset) n

abbrev pub available : Entry → ℕ → ℕ
available entry offset = if ltb offset entry.size then entry.size - offset else 0

abbrev pub larger_size : ℕ → ℕ → ℕ
larger_size old new = if ltb old new then new else old

module _ {Disk : Type 0} where
  abbrev pub put_entry : ℕ → Entry → Storage Disk → Storage Disk
  put_entry index entry s = set_entry s index entry

  abbrev pub found_or : Status → List ℕ → Cmd Disk ℕ
  found_or status path s = elim (find s path) [ none ↦ fail status s | some i ↦ done i s ]

  -- a file that is missing is created
  abbrev pub ensure_file : List ℕ → Cmd Disk Void
  ensure_file path s = elim (find s path) [ none ↦ create path b'f' none s | some _ ↦ done tt s ]

  unfoldable pub storage_write_file : List ℕ → List ℕ → Bool → Cmd Disk ℕ
  storage_write_file path bytes append = do
    must_be_mounted
    reject_if (leb content_capacity (length bytes)) nospc
    ensure_file path
    index ← found_or noent path
    s ← current
    let entry = entry_at s index
    reject_if (not (is_file entry)) isdir
    let offset : ℕ = if append then entry.size else 0
    reject_if (no_room offset (length bytes)) nospc
    modify (put_entry index (sized entry (write_at entry offset bytes) (offset + length bytes)))
    now ← timestamp_now
    modify (λ s. set_entry s index (record (entry_at s index) { modified_at = now }))
    failing_as io storage_sync
    pure (length bytes)

  -- The bytes copied into a buffer of `capacity`, their number, and what goes through `length`.
  unfoldable pub storage_read_file : List ℕ → ℕ → Cmd Disk (List ℕ × ℕ × ℕ)
  storage_read_file path capacity = do
    must_be_mounted
    index ← found_or noent path
    s ← current
    let entry = entry_at s index
    reject_if (not (is_file entry)) isdir
    let count = if ltb entry.size capacity then entry.size else capacity
    pure (slice entry.content 0 count, count, entry.size)

  unfoldable pub storage_copy : List ℕ → List ℕ → Cmd Disk Void
  storage_copy source destination = do
    s ← current
    must_be_mounted
    index ← found_or noent source
    reject_if (not (is_file (entry_at s index))) isdir
    storage_create_file destination (slice (entry_at s index).content 0 (entry_at s index).size)

  abbrev pub open_fd : ℕ → ℕ → Storage Disk → Storage Disk
  open_fd fd entry s = record s {
    fds = set s.fds fd (record { entry = entry; offset = 0; used = true });
  }

  unfoldable pub storage_open : List ℕ → Bool → Cmd Disk ℕ
  storage_open path create_if_missing = do
    must_be_mounted
    if create_if_missing then ensure_file path else pure tt
    entry ← found_or noent path
    s ← current
    reject_if (not (is_file (entry_at s entry))) isdir
    fd ← (elim (first_where (λ fd. is_free_fd (fd_at s fd)) max_fds 0) [
      | none ↦ raise nospc
      | some fd ↦ pure fd
    ])
    modify (open_fd fd entry)
    pure fd

  -- A descriptor below 0 is not given: it would be refused as one of 16 or more is.
  abbrev pub is_bad_fd : Storage Disk → ℕ → Bool
  is_bad_fd s fd = leb max_fds fd || not (fd_at s fd).used

  unfoldable pub storage_close : ℕ → Cmd Disk Void
  storage_close fd = do
    s ← current
    reject_if (is_bad_fd s fd) badfd
    modify (λ s. record s { fds = set s.fds fd (record (fd_at s fd) { used = false }) })

  abbrev pub advance : ℕ → ℕ → Storage Disk → Storage Disk
  advance fd n s = record s {
    fds = set s.fds fd (record (fd_at s fd) { offset = (fd_at s fd).offset + n });
  }

  -- the bytes read; their number is the result of the code
  unfoldable pub storage_read : ℕ → ℕ → Cmd Disk (List ℕ)
  storage_read fd n = do
    must_be_mounted
    s ← current
    reject_if (is_bad_fd s fd) badfd
    let entry = entry_at s (fd_at s fd).entry
    let offset = (fd_at s fd).offset
    let left = available entry offset
    let count = if ltb left n then left else n
    modify (advance fd count)
    pure (slice entry.content offset count)

  unfoldable pub storage_write : ℕ → List ℕ → Cmd Disk ℕ
  storage_write fd bytes = do
    must_be_mounted
    s ← current
    reject_if (is_bad_fd s fd) badfd
    let index = (fd_at s fd).entry
    let offset = (fd_at s fd).offset
    let entry = entry_at s index
    reject_if (no_room offset (length bytes)) nospc
    modify (advance fd (length bytes))
    modify (
        put_entry index (
          sized entry (write_at entry offset bytes)
            (larger_size entry.size (offset + length bytes))))
    failing_as io storage_sync
    pure (length bytes)

  unfoldable pub storage_seek : ℕ → ℕ → Cmd Disk Void
  storage_seek fd offset = do
    must_be_mounted
    s ← current
    reject_if (is_bad_fd s fd || leb content_capacity offset) badfd
    modify (λ s. record s { fds = set s.fds fd (record (fd_at s fd) { offset = offset }) })
