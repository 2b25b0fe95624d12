-- ===== src/Storage/Inode/RoundTrip.antt =====
-- src/fs/storage/storage.c: the bytes of `inode_block`, which `write_inode` puts into a sector, as
-- `parse_inode`, `with_content` and `parse_metadata`, the parts of `read_inode`, decode them.
use project_orange_tea.Base.{
  ℕ, suc, ◌+◌, ◌%◌, ◌^◌, ◌≤◌, ◌<◌, ◌≡◌, refl, sym, ap, ◌∙◌, true, false, ◌&&◌, ◌||◌, not, List, [],
  ◌∷◌, ◌==◌, ltb, if◌then◌else◌, get_or, set, length, length-replicate, arith, if-false, get_elem?,
  some, drop,
}
use project_orange_tea.Storage.State.{ok, Entry, content_capacity}
use project_orange_tea.Storage.Bytes.{slice, c_string, get32, get64, put32, put64}
use project_orange_tea.Storage.Inode.{
  zero_block, char_array, is_file, block_at, inode_writes, inode_block, parse_inode, parse_metadata,
}
use project_orange_tea.Storage.Inode.Fields.{
  clear, Within, slice-blits, get_or-slice, get32-slice, get64-slice, get32-put32, get64-put64,
  has_nul, c_string-char_array, length-char_array, char_array-zero, char_array-first,
}

-- An entry that a sector can hold: a file or a directory, with strings that fit in their arrays and
-- numbers that fit in their fields.
pub record IsStorable (entry : Entry) : Type 0 where
  pub kind : (entry.type == b'f') || (entry.type == b'd') ≡ true
  pub size_fits : entry.size ≤ content_capacity
  pub path_fits : length entry.path < 64
  pub path_nonempty : 0 < length entry.path
  pub path_text : has_nul entry.path ≡ false
  pub name_fits : length entry.name < 16
  pub name_text : has_nul entry.name ≡ false
  pub content_length : length entry.content ≡ content_capacity
  pub block_numbers : (i : ℕ) → block_at entry i < 2 ^ 32
  pub file_id_fits : entry.file_id < 2 ^ 32
  pub file_id_given : 0 < entry.file_id
  pub created_fits : entry.created_at < 2 ^ 64
  pub modified_fits : entry.modified_at < 2 ^ 64
  pub attributes_fit : entry.attributes < 2 ^ 32

-- where the fields of an inode stand, and how long they are
abbrev ranges : List (ℕ × ℕ)
ranges =
    (0, 1)
    ∷ (8, 8)
    ∷ (16, 4)
    ∷ (20, 4)
    ∷ (24, 4)
    ∷ (28, 4)
    ∷ (32, 4)
    ∷ (36, 4)
    ∷ (40, 4)
    ∷ (44, 4)
    ∷ (64, 64)
    ∷ (128, 16)
    ∷ (144, 256)
    ∷ (400, 4)
    ∷ (404, 8)
    ∷ (412, 8)
    ∷ (420, 4)
    ∷ []

module _ (entry : Entry) (h : IsStorable entry) where
  content_within : length (if is_file entry then entry.content else []) ≤ 256
  content_within = ground (arith, h.content_length)

  writes-Within : Within (inode_writes entry) ranges
  writes-Within = (
    refl,
    omega arith,
    (
      refl,
      omega arith,
      (
        refl,
        omega arith,
        (
          refl,
          omega arith,
          (
            refl,
            omega arith,
            (
              refl,
              omega arith,
              (
                refl,
                omega arith,
                (
                  refl,
                  omega arith,
                  (
                    refl,
                    omega arith,
                    (
                      refl,
                      omega arith,
                      (
                        refl,
                        omega (arith, length-char_array entry.path 64),
                        (
                          refl,
                          omega (arith, length-char_array entry.name 16),
                          (
                            refl,
                            content_within,
                            (
                              refl,
                              omega arith,
                              (refl, omega arith, (refl, omega arith, (refl, omega arith, tt))),
                            ),
                          ),
                        ),
                      ),
                    ),
                  ),
                ),
              ),
            ),
          ),
        ),
      ),
    ),
  )

  abbrev block : List ℕ
  block = inode_block entry

  field :
      (k o : ℕ) (bytes : List ℕ) (n : ℕ)
      → length bytes ≡ n
      → get_elem? (inode_writes entry) k ≡ some (o, bytes)
      → clear o n (drop (suc k) ranges) ≡ true
      → o + n ≤ 512
      → slice block o n ≡ bytes
  unfolding inode_block
  field k o bytes n e at later fits =
      ap (λ m. slice block o m) (sym e)
      ∙ slice-blits zero_block k (inode_writes entry) ranges o bytes writes-Within at
          (ap (λ m. clear o m (drop (suc k) ranges)) e ∙ later)
          (omega (arith, length-replicate {A = ℕ} 512 0))

  number32 :
      (k o v : ℕ)
      → get_elem? (inode_writes entry) k ≡ some (o, put32 v)
      → clear o 4 (drop (suc k) ranges) ≡ true
      → o + 4 ≤ 512
      → v < 2 ^ 32
      → get32 block o ≡ v
  number32 k o v at later fits small =
      get32-slice block o
      ∙ ap (λ b. get32 b 0) (field k o (put32 v) 4 refl at later fits)
      ∙ get32-put32 v small

  number64 :
      (k o v : ℕ)
      → get_elem? (inode_writes entry) k ≡ some (o, put64 v)
      → clear o 8 (drop (suc k) ranges) ≡ true
      → o + 8 ≤ 512
      → v < 2 ^ 64
      → get64 block o ≡ v
  number64 k o v at later fits small =
      get64-slice block o
      ∙ ap (λ b. get64 b 0) (field k o (put64 v) 8 refl at later fits)
      ∙ get64-put64 v small

  size_back : get64 block 8 ≡ entry.size
  size_back = number64 1 8 entry.size refl refl (omega arith) (omega (arith, h.size_fits))

  path_bytes : slice block 64 64 ≡ char_array entry.path 64
  path_bytes =
      field 10 64 (char_array entry.path 64) 64 (length-char_array entry.path 64) refl refl
        (omega arith)

  -- what `parse_inode` reads of the sector, whatever the entry held before
  abbrev pub read_back : Entry → Entry
  read_back old = record old {
    path = entry.path;
    name = entry.name;
    type = entry.type;
    size = entry.size;
    blocks =
        block_at entry 0
        ∷ block_at entry 1
        ∷ block_at entry 2
        ∷ block_at entry 3
        ∷ block_at entry 4
        ∷ block_at entry 5
        ∷ block_at entry 6
        ∷ block_at entry 7
        ∷ [];
  }

  type_back : get_or block 0 0 ≡ entry.type
  type_back =
      sym (get_or-slice block 0 1 0 0 (omega arith))
      ∙ ap (λ b. get_or b 0 0) (field 0 0 ((entry.type % 256) ∷ []) 1 refl refl refl (omega arith))
      ∙ ground (arith, h.kind)

  path_back : c_string (slice block 64 64) ≡ entry.path
  path_back = ap c_string path_bytes ∙ c_string-char_array entry.path 64 h.path_fits h.path_text

  name_back : c_string (slice block 128 16) ≡ entry.name
  name_back =
      ap c_string (
        field 11 128 (char_array entry.name 16) 16 (length-char_array entry.name 16) refl refl
          (omega arith))
      ∙ c_string-char_array entry.name 16 h.name_fits h.name_text

  last_nul : get_or block 127 0 ≡ 0
  last_nul =
      sym (get_or-slice block 64 64 63 0 (omega arith))
      ∙ ap (λ b. get_or b 63 0) path_bytes
      ∙ char_array-zero entry.path 64 63 (omega (arith, h.path_fits))

  first_byte : get_or block 64 0 == 0 ≡ false
  first_byte =
      rw (sym (get_or-slice block 64 64 0 0 (omega arith)) ∙ ap (λ b. get_or b 0 0) path_bytes)
        (char_array-first entry.path 64 h.path_nonempty h.path_text (omega arith))

  number_back :
      (i : ℕ) (k o : ℕ)
      → get_elem? (inode_writes entry) k ≡ some (o, put32 (block_at entry i))
      → clear o 4 (drop (suc k) ranges) ≡ true
      → o + 4 ≤ 512
      → get32 block o ≡ block_at entry i
  number_back i k o at later fits =
      number32 k o (block_at entry i) at later fits (h.block_numbers i)

  accepted :
      not (get_or block 0 0 == b'f') && not (get_or block 0 0 == b'd')
        || ltb content_capacity (get64 block 8)
      ≡ false
  accepted = rw (type_back, size_back) (ground (arith, h.kind, h.size_fits))

  named : get_or block 64 0 == 0 || not (get_or block 127 0 == 0) ≡ false
  named = rw (first_byte, last_nul) refl

  -- A sector that was written for an entry is accepted, and gives its type, size, blocks, path and
  -- name, whatever the table held before.
  pub parse_inode-inode_block : (old : Entry) → parse_inode old block ≡ (ok, read_back old)
  unfolding parse_inode
  parse_inode-inode_block old =
      if-false _ _ accepted
      ∙ if-false _ _ named
      ∙ rw
          (
            type_back,
            size_back,
            path_back,
            name_back,
            number_back 0 2 16 refl refl (omega arith),
            number_back 1 3 20 refl refl (omega arith),
            number_back 2 4 24 refl refl (omega arith),
            number_back 3 5 28 refl refl (omega arith),
            number_back 4 6 32 refl refl (omega arith),
            number_back 5 7 36 refl refl (omega arith),
            number_back 6 8 40 refl refl (omega arith),
            number_back 7 9 44 refl refl (omega arith),
          )
          refl

  pub metadata_back :
      (index : ℕ) (loaded : Entry)
      → parse_metadata loaded index block ≡ record loaded {
        file_id = entry.file_id;
        created_at = entry.created_at;
        modified_at = entry.modified_at;
        attributes = entry.attributes;
        content = set loaded.content 255 0;
      }
  unfolding parse_metadata
  metadata_back index loaded =
      let given : entry.file_id == 0 ≡ false = ground (arith, h.file_id_given) in
      rw
        (
          number32 13 400 entry.file_id refl refl (omega arith) h.file_id_fits,
          number64 14 404 entry.created_at refl refl (omega arith) h.created_fits,
          number64 15 412 entry.modified_at refl refl (omega arith) h.modified_fits,
          number32 16 420 entry.attributes refl refl (omega arith) h.attributes_fit,
          given,
        )
        refl

  pub content_back : is_file entry ≡ true → slice block 144 256 ≡ entry.content
  content_back file =
      ap (λ b. slice block 144 b) refl
      ∙ field 12 144 entry.content 256 h.content_length (rw file refl) refl (omega arith)
