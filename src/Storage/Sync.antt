-- ===== src/Storage/Sync.antt =====
-- `storage_sync`, `storage_attach_block_device`, `storage_format`, `storage_mount`,
-- `storage_unmount`, `storage_init` and `timestamp_now` of src/fs/storage/storage.c.
use project_orange_tea.Base.{
  ℕ, zero, suc, ◌+◌, ◌-◌, ◌/◌, ◌%◌, ◌^◌, Bool, true, false, ◌&&◌, ◌||◌, not, Option, none, some,
  List, [], ◌∷◌, ltb, leb, ◌==◌, if◌then◌else◌, map,
}
use project_orange_tea.Storage.State.{
  inval, noent, nospc, io, corrupt, BlockDevice, Fd, Storage, entry_at, blank_slot, bitmap_start,
  bits_per_sector, magic, version, max_entries,
}
use project_orange_tea.Storage.Run.{
  done, fail, Cmd, Void, pure, current, modify, failing_as, reject_if, ◌>>=◌, ◌>>◌,
}
use project_orange_tea.Storage.Bytes.{get32, get64}
use project_orange_tea.Storage.Disk.{disk_read, disk_write}
use project_orange_tea.Storage.Bitmap.{bitmap_bit}
use project_orange_tea.Storage.Inode.{zero_block, write_inode, read_inode, write_super}

abbrev pub empty_cache : {Disk : Type 0} → Storage Disk → Storage Disk
empty_cache s = record s { cache = map (λ _. blank_slot) s.cache; cache_next_slot = 0 }

abbrev pub bitmap_size : ℕ → ℕ
bitmap_size sector_count = (sector_count + bits_per_sector - 1) / bits_per_sector

abbrev pub larger : ℕ → ℕ → ℕ
larger a b = if ltb a b then b else a

-- `next_file_id` after the loop, at 32 bits
abbrev pub next_id : ℕ → ℕ → ℕ
next_id next highest =
    let raised = if leb next highest then (highest + 1) % 2 ^ 32 else next in
    if raised == 0 then (highest + 1) % 2 ^ 32 else raised

abbrev pub closed : Fd → Fd
closed fd = record fd { used = false }

abbrev pub is_blank : List ℕ → Bool
is_blank [] = true
is_blank (b ∷ bytes) = b == 0 && is_blank bytes

module _ {Disk : Type 0} where
  -- the reading of the clock, or 0 where no clock is set, pushed past the last timestamp
  abbrev pub next_timestamp : Storage Disk → ℕ
  next_timestamp s =
      let reading : ℕ = elim s.clock [ none ↦ 0 | some clock ↦ clock s.clock_calls ] in
      if leb reading s.last_timestamp then (s.last_timestamp + 1) % 2 ^ 64 else reading

  abbrev pub tick : Storage Disk → Storage Disk
  tick s = record s { last_timestamp = next_timestamp s; clock_calls = s.clock_calls + 1 }

  unfoldable pub timestamp_now : Cmd Disk ℕ
  timestamp_now s = done (next_timestamp s) (tick s)

  -- `for (i = index; i < index + rounds; i++) if (write_inode(i) != STORAGE_OK) return IO;`
  unfoldable pub write_inodes : ℕ → ℕ → Cmd Disk Void
  write_inodes zero index = pure tt
  write_inodes (suc rounds) index = do
    failing_as io (write_inode index)
    write_inodes rounds (index + 1)

  unfoldable pub flush_device : BlockDevice Disk → Cmd Disk Void
  flush_device dev s = elim dev.flush [
    | none ↦ done tt s
    | some flush ↦
        let (flushed, disk) = flush s.disk in
        if flushed then done tt (record s { disk = disk }) else fail io (record s { disk = disk })
  ]

  unfoldable pub write_all : BlockDevice Disk → Cmd Disk Void
  unfolding write_inodes flush_device
  write_all dev = do
    s ← current
    if s.mounted then failing_as io write_super else pure tt
    write_inodes s.entry_count 0
    flush_device dev

  unfoldable pub storage_sync : Cmd Disk Void
  unfolding write_all
  storage_sync s = elim s.device [
    | none ↦ if s.mounted then done tt s else fail noent s
    | some dev ↦ write_all dev s
  ]

  unfoldable pub storage_attach_block_device : Option (BlockDevice Disk) → Disk → Cmd Disk Void
  storage_attach_block_device none disk s = fail inval s
  storage_attach_block_device (some dev) disk s =
      if ltb dev.sector_count 70
      then fail inval s
      else done tt (
          empty_cache
            (record s { device = some dev; disk = disk; mounted = false; entry_count = 0 }))

  -- `for (i = first; i < first + rounds; i++) if (disk_write(i, block) != STORAGE_OK) return IO;`
  -- with a block of zeros
  unfoldable pub clear_sectors : ℕ → ℕ → Cmd Disk Void
  clear_sectors zero first = pure tt
  clear_sectors (suc rounds) first = do
    disk_write first zero_block
    clear_sectors rounds (first + 1)

  unfoldable pub mark_sectors : ℕ → ℕ → Cmd Disk Void
  mark_sectors zero first = pure tt
  mark_sectors (suc rounds) first = do
    failing_as io (bitmap_bit first true)
    mark_sectors rounds (first + 1)

  -- the writes of `storage_format`, once the layout is known
  unfoldable pub format_sectors : Cmd Disk Void
  unfolding clear_sectors mark_sectors
  format_sectors = do
    s ← current
    failing_as io write_super
    clear_sectors s.bitmap_sectors bitmap_start
    mark_sectors s.data_start 0
    clear_sectors max_entries 1
    modify (λ s. record s { mounted = true })

  unfoldable pub storage_format : Cmd Disk Void
  unfolding format_sectors
  storage_format s = elim s.device [
    | none ↦ fail noent s
    | some dev ↦
        let sectors = bitmap_size dev.sector_count in
        let planned = record s {
          mounted = false;
          bitmap_sectors = sectors;
          data_start = bitmap_start + sectors;
        } in
        if leb dev.sector_count planned.data_start
        then fail nospc planned
        else format_sectors
            (record (empty_cache planned) { entry_count = 0; next_file_id = 1; last_timestamp = 0 })
  ]

  -- what the loop of `storage_mount` does with an inode that it has read
  abbrev pub seen_inode : ℕ → ℕ → Storage Disk → Storage Disk
  seen_inode index highest s =
      if ltb s.last_timestamp (entry_at s index).modified_at
      then record s { last_timestamp = (entry_at s index).modified_at }
      else s

  -- The loop over the inodes; its result is the highest file id.
  unfoldable pub read_inodes : ℕ → ℕ → ℕ → Cmd Disk ℕ
  read_inodes zero index highest = pure highest
  read_inodes (suc rounds) index highest = do
    failing_as corrupt (read_inode index)
    s ← current
    modify (seen_inode index highest)
    read_inodes rounds (index + 1) (larger highest (entry_at s index).file_id)

  -- The fields of the superblock. A count of 2 ^ 31 or more is negative as an `int`: the model
  -- keeps the pattern, which the test that follows refuses either way.
  abbrev pub with_super : List ℕ → Storage Disk → Storage Disk
  with_super block s = record s {
    entry_count = get32 block 8;
    bitmap_sectors = get64 block 24;
    data_start = get64 block 32;
    next_file_id = get32 block 40;
    last_timestamp = get64 block 48;
  }

  abbrev pub is_super : BlockDevice Disk → List ℕ → Bool
  is_super dev block =
      get32 block 0 == magic && get32 block 4 == version && get64 block 16 == dev.sector_count

  abbrev pub bad_layout : BlockDevice Disk → Storage Disk → Bool
  bad_layout dev s =
      ltb max_entries s.entry_count || leb dev.sector_count s.data_start || s.bitmap_sectors == 0

  unfoldable pub mount_device : BlockDevice Disk → Cmd Disk Void
  unfolding read_inodes get32 get64
  mount_device dev = do
    block ← disk_read 0
    reject_if (not (is_super dev block)) noent
    modify (with_super block)
    s ← current
    reject_if (bad_layout dev s) corrupt
    highest ← read_inodes s.entry_count 0 0
    modify (λ s. record s { next_file_id = next_id s.next_file_id highest; mounted = true })

  unfoldable pub storage_mount : Cmd Disk Void
  unfolding mount_device
  storage_mount s =
      let fresh = record s { mounted = false; entry_count = 0 } in
      elim s.device [ none ↦ fail noent fresh | some dev ↦ mount_device dev fresh ]

  unfoldable pub storage_unmount : Cmd Disk Void
  unfolding storage_sync
  storage_unmount = do storage_sync; modify (λ s. record s { mounted = false })

  -- Whether the sectors from `sector` on hold only zeros. A sector that cannot be read does not,
  -- and none is read behind one that does not.
  unfoldable pub blank_sectors : ℕ → ℕ → Cmd Disk Bool
  blank_sectors zero sector s = done true s
  blank_sectors (suc rounds) sector s =
      let rest = blank_sectors rounds (sector + 1) in
      elim (disk_read sector s) [
        | fail _ s' ↦ done false s'
        | done block s' ↦ if is_blank block then rest s' else done false s'
      ]

  -- A blank device is formatted.
  unfoldable pub format_if_blank : BlockDevice Disk → Cmd Disk Void
  unfolding blank_sectors
  format_if_blank dev = do
    blank ← blank_sectors (bitmap_start + bitmap_size dev.sector_count) 0
    if blank then storage_format else pure tt

  -- `storage_init` of the kernel, where __STDC_HOSTED__ is 0; it gives no result.
  unfoldable pub storage_init : Storage Disk → Storage Disk
  unfolding format_if_blank
  storage_init s =
      let s0 = record s { fds = map closed s.fds } in
      elim s0.device [
        | none ↦ s0
        | some dev ↦ elim (storage_mount s0) [
          | done _ s1 ↦ s1
          | fail noent s1 ↦ elim (format_if_blank dev s1) [ done _ s2 ↦ s2 | fail _ s2 ↦ s2 ]
          | fail _ s1 ↦ s1
        ]
      ]
