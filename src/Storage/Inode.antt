-- ===== src/Storage/Inode.antt =====
-- `write_inode`, `read_inode` and `write_super` of src/fs/storage/storage.c: the bytes of an entry
-- and of the superblock.
pub mod Fields
pub mod RoundTrip
pub mod Reading
pub mod Saving
use project_orange_tea.Base.{
  ℕ, zero, suc, ◌+◌, ◌-◌, ◌*◌, ◌/◌, ◌%◌, ◌^◌, Bool, true, false, ◌&&◌, ◌||◌, not, Option, none,
  some, List, [], ◌∷◌, ◌++◌, ltb, leb, ◌==◌, if◌then◌else◌, get_or, set, replicate, take, length,
}
use project_orange_tea.Storage.Run.{
  Run, done, fail, Cmd, Void, pure, raise, current, modify, failing_as, reject_if, ◌>>=◌, ◌>>◌,
}
use project_orange_tea.Storage.State.{
  Status, ok, io, nospc, corrupt, is_ok, BlockDevice, Entry, Storage, entry_at, sector_size, magic,
  version, content_capacity, metadata_offset,
}
use project_orange_tea.Storage.Bytes.{blit, slice, c_string, get32, get64, put32, put64}
use project_orange_tea.Storage.Disk.{disk_read, disk_write}
use project_orange_tea.Storage.Bitmap.{allocate_sector}

-- a sequence of writes into a buffer, each at its offset
unfoldable pub blits : List ℕ → List (ℕ × List ℕ) → List ℕ
unfolding blit
blits buffer [] = buffer
blits buffer ((offset, bytes) ∷ rest) = blits (blit buffer offset bytes) rest

-- `zero(block, sizeof(block))`
abbrev pub zero_block : List ℕ
zero_block = replicate 512 0

-- the bytes of an array of `capacity` characters that holds a string
unfoldable pub char_array : List ℕ → ℕ → List ℕ
char_array text capacity = take capacity (text ++ replicate capacity 0)

abbrev pub is_file : Entry → Bool
is_file entry = entry.type == b'f'

abbrev pub block_at : Entry → ℕ → ℕ
block_at entry i = get_or entry.blocks i 0

-- the writes of `write_inode` into the zeroed sector, in their order
abbrev pub inode_writes : Entry → List (ℕ × List ℕ)
inode_writes entry =
    (0, (entry.type % 256) ∷ [])
    ∷ (8, put64 entry.size)
    ∷ (16, put32 (block_at entry 0))
    ∷ (20, put32 (block_at entry 1))
    ∷ (24, put32 (block_at entry 2))
    ∷ (28, put32 (block_at entry 3))
    ∷ (32, put32 (block_at entry 4))
    ∷ (36, put32 (block_at entry 5))
    ∷ (40, put32 (block_at entry 6))
    ∷ (44, put32 (block_at entry 7))
    ∷ (64, char_array entry.path 64)
    ∷ (128, char_array entry.name 16)
    ∷ (144, if is_file entry then entry.content else [])
    ∷ (400, put32 entry.file_id)
    ∷ (404, put64 entry.created_at)
    ∷ (412, put64 entry.modified_at)
    ∷ (420, put32 entry.attributes)
    ∷ []

unfoldable pub inode_block : Entry → List ℕ
unfolding blits char_array
inode_block entry = blits zero_block (inode_writes entry)

-- the data sector of a file
unfoldable pub data_block : Entry → List ℕ
unfolding blit
data_block entry = blit zero_block 0 (take entry.size entry.content)

abbrev pub set_entry : {Disk : Type 0} → Storage Disk → ℕ → Entry → Storage Disk
set_entry s index entry = record s { entries = set s.entries index entry }

abbrev pub with_sector : Entry → ℕ → Entry
with_sector entry sector = record entry { blocks = set entry.blocks 0 sector }

-- a file with contents and no data sector yet
abbrev pub needs_sector : Entry → Bool
needs_sector entry = is_file entry && not (entry.size == 0) && block_at entry 0 == 0

abbrev pub has_sector : Entry → Bool
has_sector entry = is_file entry && not (block_at entry 0 == 0)

module _ {Disk : Type 0} where
  -- the first part of `write_inode`: a data sector, where one is needed
  unfoldable pub assign_sector : ℕ → Cmd Disk Void
  assign_sector index = do
    s ← current
    if needs_sector (entry_at s index)
        then (do
          sector ← failing_as nospc allocate_sector
          modify (λ s. set_entry s index (with_sector (entry_at s index) sector)))
        else pure tt

  -- the second part: the contents
  unfoldable pub write_data : ℕ → Cmd Disk Void
  write_data index = do
    s ← current
    if has_sector (entry_at s index)
        then failing_as io
            (disk_write (block_at (entry_at s index) 0) (data_block (entry_at s index)))
        else pure tt

  unfoldable pub write_inode : ℕ → Cmd Disk Void
  unfolding assign_sector write_data
  write_inode index = do
    assign_sector index
    write_data index
    s ← current
    disk_write (index + 1) (inode_block (entry_at s index))

  abbrev pub super_writes : Storage Disk → ℕ → List (ℕ × List ℕ)
  super_writes s sector_count =
      (0, put32 magic)
      ∷ (4, put32 version)
      ∷ (8, put32 s.entry_count)
      ∷ (16, put64 sector_count)
      ∷ (24, put64 s.bitmap_sectors)
      ∷ (32, put64 s.data_start)
      ∷ (40, put32 s.next_file_id)
      ∷ (48, put64 s.last_timestamp)
      ∷ []

  unfoldable pub super_block : Storage Disk → ℕ → List ℕ
  unfolding blits
  super_block s sector_count = blits zero_block (super_writes s sector_count)

  -- Called only with a device attached.
  unfoldable pub write_super : Cmd Disk Void
  unfolding super_block
  write_super s = elim s.device [
    | none ↦ fail io s
    | some dev ↦ disk_write 0 (super_block s dev.sector_count) s
  ]

-- the first part of `read_inode`: the fields and their tests, up to the contents
unfoldable pub parse_inode : Entry → List ℕ → Status × Entry
parse_inode old block =
    let typed = record old { type = get_or block 0 0; size = get64 block 8 } in
    let named = record typed {
      blocks =
          get32 block 16
          ∷ get32 block 20
          ∷ get32 block 24
          ∷ get32 block 28
          ∷ get32 block 32
          ∷ get32 block 36
          ∷ get32 block 40
          ∷ get32 block 44
          ∷ [];
      path = c_string (slice block 64 64);
      name = c_string (slice block 128 16);
    } in
    if not (typed.type == b'f') && not (typed.type == b'd') || ltb content_capacity typed.size
    then (corrupt, typed)
    else if get_or block 64 0 == 0 || not (get_or block 127 0 == 0)
    then (corrupt, named)
    else (ok, named)

-- the last part: the metadata, and a NUL at the end of the contents
unfoldable pub parse_metadata : Entry → ℕ → List ℕ → Entry
parse_metadata entry index block =
    let id = get32 block 400 in
    record entry {
      file_id = if id == 0 then (index + 1) % 2 ^ 32 else id;
      created_at = get64 block 404;
      modified_at = get64 block 412;
      attributes = get32 block 420;
      content = set entry.content 255 0;
    }

-- the contents that stand in the inode itself, for a file; a directory has none
abbrev pub with_content : Entry → List ℕ → Entry
with_content entry block =
    if is_file entry
    then record entry { content = slice block 144 256 }
    else record entry { content = set entry.content 0 0 }

module _ {Disk : Type 0} where
  -- the contents of a file that has a data sector
  unfoldable pub load_data : Entry → Cmd Disk Entry
  load_data entry =
      if has_sector entry
      then (do
        bytes ← disk_read (block_at entry 0)
        pure (record entry { content = slice bytes 0 256 }))
      else pure entry

  -- What stands in the entry after a failure: the fields that were read before it.
  unfoldable pub read_inode : ℕ → Cmd Disk Void
  unfolding parse_inode parse_metadata load_data
  read_inode index = do
    block ← disk_read (index + 1)
    s ← current
    let (status, entry) = parse_inode (entry_at s index) block
    let found = with_content entry block
    if is_ok status
        then (do
          modify (λ s. set_entry s index found)
          loaded ← load_data found
          modify (λ s. set_entry s index (parse_metadata loaded index block)))
        else (do modify (λ s. set_entry s index entry); raise corrupt)
