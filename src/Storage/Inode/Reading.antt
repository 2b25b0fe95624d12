-- ===== src/Storage/Inode/Reading.antt =====
-- src/fs/storage/storage.c: `read_inode` on a device that holds an inode and its data sector.
use project_orange_tea.Base.{
  ℕ, zero, suc, ◌+◌, ◌-◌, ◌≤◌, ◌++◌, take, length, length-take, replicate, arith, ◌<◌, ◌≡◌, ◌⊎◌,
  refl, ap, ◌∙◌, true, false, some, List, [], ◌∷◌, set, inl, inr, if◌then◌else◌,
}
use project_orange_tea.Storage.State.{Status, corrupt, is_ok, BlockDevice, Entry, Storage, entry_at}
use project_orange_tea.Storage.Run.{
  done, Cmd, Void, pure, raise, modify, and_then, and_then-done, ◌>>=◌, ◌>>◌,
}
use project_orange_tea.Storage.Bytes.{blit, slice}
use project_orange_tea.Storage.Disk.Cache.{Reliable, Coherent, disk_read-holds}
use project_orange_tea.Storage.Inode.{
  inode_block, data_block, is_file, block_at, has_sector, set_entry, parse_inode, parse_metadata,
  with_content, load_data, read_inode,
}
use project_orange_tea.Storage.Inode.RoundTrip.{
  IsStorable, parse_inode-inode_block, metadata_back, content_back,
}

-- The contents that are read: of a file with a data sector its first `size` bytes and zeros behind
-- them, of another those in the inode.
abbrev pub contents_back : Entry → List ℕ
contents_back entry =
    if has_sector entry
    then take entry.size entry.content ++ replicate (256 - entry.size) 0
    else entry.content

-- The entry that is read: the file's, with those contents and a NUL at their end.
abbrev pub restored : Entry → Entry
restored entry = record entry {
  blocks =
      block_at entry 0
      ∷ block_at entry 1
      ∷ block_at entry 2
      ∷ block_at entry 3
      ∷ block_at entry 4
      ∷ block_at entry 5
      ∷ block_at entry 6
      ∷ block_at entry 7
      ∷ [];
  content = set (contents_back entry) 255 0;
}

take-zeros : (k n : ℕ) → k ≤ n → take {A = ℕ} k (replicate n 0) ≡ replicate k 0
take-zeros zero n h = refl
take-zeros (suc k) zero h = absurd (omega arith)
take-zeros (suc k) (suc n) h = ap (λ xs. 0 ∷ xs) (take-zeros k n (omega arith))

-- Bytes at the start of a zeroed buffer stand before zeros.
take-blit_zeros :
    (k n : ℕ) (bytes : List ℕ)
    → length bytes ≤ k
    → k ≤ n
    → take {A = ℕ} k (blit (replicate n 0) 0 bytes) ≡ bytes ++ replicate (k - length bytes) 0
unfolding blit
take-blit_zeros zero n [] fits h = refl
take-blit_zeros zero n (b ∷ bytes) fits h = absurd (omega arith)
take-blit_zeros (suc k) zero bytes fits h = absurd (omega arith)
take-blit_zeros (suc k) (suc n) [] fits h =
    let all : suc k ≡ suc k - 0 = omega arith in
    take-zeros (suc k) (suc n) h ∙ ap (λ m. replicate {A = ℕ} m 0) all
take-blit_zeros (suc k) (suc n) (b ∷ bytes) fits h =
    let left : k - length bytes ≡ suc k - suc (length bytes) = omega arith in
    ap (λ xs. b ∷ xs) (take-blit_zeros k n bytes (omega arith) (omega arith))
    ∙ ap (λ m. b ∷ (bytes ++ replicate m 0)) left

data_back :
    (entry : Entry)
    → IsStorable entry
    → slice (data_block entry) 0 256
      ≡ take entry.size entry.content ++ replicate (256 - entry.size) 0
unfolding data_block slice
data_back entry h =
    let whole : length (take entry.size entry.content) ≡ entry.size =
      omega (arith, length-take entry.size entry.content, h.size_fits, h.content_length) in
    take-blit_zeros 256 512 (take entry.size entry.content) (omega (arith, whole, h.size_fits))
      (omega arith)
    ∙ ap (λ m. take entry.size entry.content ++ replicate (256 - m) 0) whole

module _ {Disk : Type 0} (index : ℕ) where
  abbrev with_metadata : List ℕ → Entry → Cmd Disk Void
  with_metadata block loaded = modify (λ s. set_entry s index (parse_metadata loaded index block))

  abbrev parsed : List ℕ → Status × Entry → Cmd Disk Void
  parsed block (status, entry) =
      let found = with_content entry block in
      if is_ok status
      then (do
        modify (λ s. set_entry s index found)
        loaded ← load_data found
        with_metadata block loaded)
      else (do modify (λ s. set_entry s index entry); raise corrupt)

  abbrev with_block : List ℕ → Cmd Disk Void
  with_block block s = parsed block (parse_inode (entry_at s index) block) s

module _ {Disk : Type 0} (dev : BlockDevice Disk) (holds : Disk → ℕ → List ℕ)
    (works : Reliable dev holds) (entry : Entry) (storable : IsStorable entry)
    (file : is_file entry ≡ true) (index : ℕ) where
  -- the entry before its metadata are read, with the contents `content`
  abbrev named : Entry → List ℕ → Entry
  named old content = record (restored entry) {
    content = content;
    file_id = old.file_id;
    created_at = old.created_at;
    modified_at = old.modified_at;
    attributes = old.attributes;
  }

  -- The data sector holds the file's data block, if the file has one.
  abbrev pub HasData : Storage Disk → Type 0
  HasData s =
      (has_sector entry ≡ false)
      ⊎ ((has_sector entry ≡ true)
          × (block_at entry 0 < dev.sector_count)
          × (holds s.disk (block_at entry 0) ≡ data_block entry))

  loads :
      (s : Storage Disk) (old : Entry)
      → s.device ≡ some dev
      → Coherent holds s
      → HasData s
      → (left : Storage Disk) × (load_data (named old entry.content) s
          ≡ done (named old (contents_back entry)) left)
  unfolding load_data
  loads s old attached coherent (inl none') = (s, rw none' refl)
  loads s old attached coherent (inr (sector, inside, stored)) =
      let (left, read, _, _, _) =
        disk_read-holds dev holds works s attached coherent (block_at entry 0) inside in
      (
        left,
        rw sector (
            and_then-done (λ bytes. pure (named old (slice bytes 0 256)))
              (read ∙ ap (λ b. done b left) stored)
            ∙ ap (λ c. done (named old c) left) (data_back entry storable)),
      )

  -- On a device that works, with a cache that agrees with it: where the sector of an inode holds
  -- the bytes that were made of a file's entry that fits its fields, and the data sector, if the
  -- file has one, the file's data block, `read_inode` succeeds and puts the file's entry into the
  -- table, whatever stood there: every field as it was; the contents, where the file has a
  -- data sector, its first `size` bytes and zeros, and else all of them; a NUL at their end.
  pub read_inode-inode_block :
      (s : Storage Disk)
      → s.device ≡ some dev
      → Coherent holds s
      → index + 1 < dev.sector_count
      → holds s.disk (index + 1) ≡ inode_block entry
      → HasData s
      → (left : Storage Disk) × (read_inode index s
          ≡ done tt (set_entry left index (restored entry)))
  unfolding read_inode
  read_inode-inode_block s attached coherent inside here stored =
      let block = inode_block entry in
      let (read, got, agrees, same, kept) =
        disk_read-holds dev holds works s attached coherent (index + 1) inside in
      let old = entry_at read index in
      let contents : with_content (named old old.content) block ≡ named old entry.content =
        rw (file, content_back entry storable file) refl in
      let put = set_entry read index (named old entry.content) in
      let (left, loaded) = loads put old (same ∙ attached) agrees (still s read kept stored) in
      (
        left,
        and_then-done (with_block index) (got ∙ ap (λ b. done b read) here)
            ∙ ap (λ p. parsed index block p read) (parse_inode-inode_block entry storable old)
            ∙ ap
                (λ found.
                  and_then (load_data found (set_entry read index found))
                    (with_metadata index block))
                contents
            ∙ and_then-done (with_metadata index block) loaded
            ∙ ap (λ e. done tt (set_entry left index e))
                (metadata_back entry storable index (named old (contents_back entry))),
      )
    where
      still :
          (s read : Storage Disk)
          → ((other : ℕ) → holds read.disk other ≡ holds s.disk other)
          → HasData s
          → HasData read
      still s read kept (inl e) = inl e
      still s read kept (inr (e, inside, stored)) =
          inr (e, inside, kept (block_at entry 0) ∙ stored)
