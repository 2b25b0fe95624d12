-- ===== src/Storage/Disk.antt =====
-- `disk_read`, `disk_write`, `storage_read_blocks` and `storage_write_blocks` of
-- src/fs/storage/storage.c: sectors through the write-through cache. The buffers are never null
-- here, and a device always has its two functions, so those tests are left out.
pub mod Cache
use project_orange_tea.Base.{
  ℕ, zero, suc, ◌+◌, ◌-◌, ◌%◌, Bool, true, false, ◌&&◌, ◌||◌, not, Option, none, some, List, [],
  ◌∷◌, map, ltb, leb, ◌==◌, if◌then◌else◌, get_or, set, first_where, length,
}
use project_orange_tea.Storage.Run.{Run, done, fail, Cmd, Void}
use project_orange_tea.Storage.State.{
  Status, ok, inval, io, BlockDevice, CacheSector, blank_slot, cache_slots, Storage,
}

abbrev pub hit : ℕ → CacheSector → Bool
hit sector c = c.valid && c.sector == sector

abbrev pub refresh : ℕ → List ℕ → CacheSector → CacheSector
refresh sector bytes c = if hit sector c then record c { bytes = bytes; dirty = false } else c

module _ {Disk : Type 0} where
  abbrev pub cached : Storage Disk → ℕ → CacheSector
  cached s i = get_or s.cache i blank_slot

  abbrev pub is_hit : Storage Disk → ℕ → ℕ → Bool
  is_hit s sector i = hit sector (cached s i)

  abbrev pub is_vacant : Storage Disk → ℕ → Bool
  is_vacant s i = not (cached s i).valid

  -- the first slot that is not valid, or else the next one in turn
  abbrev pub victim : Storage Disk → ℕ
  victim s = elim (first_where (is_vacant s) cache_slots 0) [
    | none ↦ s.cache_next_slot % cache_slots
    | some i ↦ i
  ]

  abbrev pub remember : Storage Disk → ℕ → List ℕ → Storage Disk
  remember s sector bytes = record s {
    cache =
        set s.cache (victim s)
          (record { sector = sector; bytes = bytes; valid = true; dirty = false });
    cache_next_slot = (victim s + 1) % cache_slots;
  }

  -- a read that the cache does not serve
  abbrev pub fetch : BlockDevice Disk → ℕ → Cmd Disk (List ℕ)
  fetch dev sector s =
      let (result, disk) = dev.read_sector s.disk sector in
      elim result [
        | none ↦ fail io (record s { disk = disk })
        | some bytes ↦ done bytes (remember (record s { disk = disk }) sector bytes)
      ]

  unfoldable pub disk_read : ℕ → Cmd Disk (List ℕ)
  disk_read sector s = elim s.device [
    | none ↦ fail io s
    | some dev ↦
        if leb dev.sector_count sector
        then fail io s
        else elim (first_where (is_hit s sector) cache_slots 0) [
          | none ↦ fetch dev sector s
          | some i ↦ done (cached s i).bytes s
        ]
  ]

  unfoldable pub disk_write : ℕ → List ℕ → Cmd Disk Void
  disk_write sector bytes s = elim s.device [
    | none ↦ fail io s
    | some dev ↦
        if leb dev.sector_count sector
        then fail io s
        else let (written, disk) = dev.write_sector s.disk sector bytes in
          if written
          then done tt (record s { disk = disk; cache = map (refresh sector bytes) s.cache })
          else fail io (record s { disk = disk })
  ]

-- `storage_read_blocks` past its tests: the blocks read from `block` on, and the context left
pub read_loop : {Disk : Type 0} → BlockDevice Disk → Disk → ℕ → ℕ → Option (List (List ℕ)) × Disk
read_loop dev disk block zero = (some [], disk)
read_loop dev disk block (suc count) =
    let (result, disk') = dev.read_sector disk block in
    let (rest, disk'') = read_loop dev disk' (block + 1) count in
    elim result [
      | none ↦ (none, disk')
      | some bytes ↦ (elim rest [ none ↦ none | some blocks ↦ some (bytes ∷ blocks) ], disk'')
    ]

-- The caller's `device` may be null; the blocks read stand for the filled buffer.
pub storage_read_blocks :
    {Disk : Type 0} → Option (BlockDevice Disk) → Disk → ℕ → ℕ → (Status × List (List ℕ)) × Disk
unfolding read_loop
storage_read_blocks none disk block count = ((inval, []), disk)
storage_read_blocks (some dev) disk block count =
    if ltb dev.sector_count block || ltb (dev.sector_count - block) count
    then ((inval, []), disk)
    else let (result, disk') = read_loop dev disk block count in
      (elim result [ none ↦ (io, []) | some blocks ↦ (ok, blocks) ], disk')

pub write_loop : {Disk : Type 0} → BlockDevice Disk → Disk → ℕ → List (List ℕ) → Status × Disk
write_loop dev disk block [] = (ok, disk)
write_loop dev disk block (bytes ∷ rest) =
    let (written, disk') = dev.write_sector disk block bytes in
    let later = write_loop dev disk' (block + 1) rest in if written then later else (io, disk')

pub storage_write_blocks :
    {Disk : Type 0} → Option (BlockDevice Disk) → Disk → ℕ → List (List ℕ) → Status × Disk
unfolding write_loop
storage_write_blocks none disk block blocks = (inval, disk)
storage_write_blocks (some dev) disk block blocks =
    if ltb dev.sector_count block || ltb (dev.sector_count - block) (length blocks)
    then (inval, disk)
    else write_loop dev disk block blocks
