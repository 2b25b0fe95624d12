-- ===== src/Storage/Bitmap.antt =====
-- `bitmap_bit`, `bitmap_value`, `sector_used`, `storage_sector_limit` and `allocate_sector` of
-- src/fs/storage/storage.c: one bit for each sector of the device.
use Prim.Native.Nat.{bit_and, bit_or}
use project_orange_tea.Base.{
  ℕ, zero, suc, ◌+◌, ◌-◌, ◌/◌, ◌%◌, ◌^◌, Bool, true, false, none, some, List, leb, ◌==◌,
  if◌then◌else◌, get_or, set,
}
use project_orange_tea.Storage.Run.{
  done, fail, Cmd, Void, pure, raise, current, failing_as, reject_if, ◌>>=◌, ◌>>◌,
}
use project_orange_tea.Storage.State.{io, nospc, Storage, bitmap_start, bits_per_sector}
use project_orange_tea.Storage.Disk.{disk_read, disk_write}

-- where the bit of a sector stands
abbrev pub bitmap_sector : ℕ → ℕ
bitmap_sector sector = bitmap_start + sector / bits_per_sector

abbrev pub bit_of : ℕ → ℕ
bit_of sector = sector % bits_per_sector

-- `block[bit / 8] |= 1u << (bit % 8)`, or `&= ~(1u << (bit % 8))`
unfoldable pub with_bit : List ℕ → ℕ → Bool → List ℕ
with_bit block bit on =
    let byte = get_or block (bit / 8) 0 in
    set block (bit / 8)
      (if on then bit_or byte (2 ^ (bit % 8)) else bit_and byte (255 - 2 ^ (bit % 8)))

-- `(block[bit / 8] >> (bit % 8)) & 1`
unfoldable pub bit_in : List ℕ → ℕ → ℕ
bit_in block bit = get_or block (bit / 8) 0 / 2 ^ (bit % 8) % 2

module _ {Disk : Type 0} where
  unfoldable pub bitmap_bit : ℕ → Bool → Cmd Disk Void
  bitmap_bit sector on = do
    block ← disk_read (bitmap_sector sector)
    disk_write (bitmap_sector sector) (with_bit block (bit_of sector) on)

  -- The number is what goes through `value`.
  unfoldable pub bitmap_value : ℕ → Cmd Disk ℕ
  bitmap_value sector = do
    s ← current
    reject_if (leb (bitmap_start + s.bitmap_sectors) (bitmap_sector sector)) io
    block ← disk_read (bitmap_sector sector)
    pure (bit_in block (bit_of sector))

  -- A sector whose bit cannot be read counts as used.
  unfoldable pub sector_used : ℕ → Cmd Disk Bool
  unfolding bitmap_value
  sector_used sector s = elim (bitmap_value sector s) [
    | done value s' ↦ done (if value == 0 then false else true) s'
    | fail _ s' ↦ done true s'
  ]

  -- STORAGE_CAPACITY_SECTORS is 0, its default, so the device alone sets the limit.
  abbrev pub sector_limit : Storage Disk → ℕ
  sector_limit s = elim s.device [ none ↦ 0 | some dev ↦ dev.sector_count ]

  -- The loop of `allocate_sector` over `rounds` sectors from `sector` on. The number is what goes
  -- through `result`.
  unfoldable pub allocate_from : ℕ → ℕ → Cmd Disk ℕ
  unfolding sector_used bitmap_bit
  allocate_from zero sector = raise nospc
  allocate_from (suc rounds) sector = do
    used ← sector_used sector
    let next = allocate_from rounds (sector + 1)
    if used then next else (do failing_as io (bitmap_bit sector true); pure (sector % 2 ^ 32))

  unfoldable pub allocate_sector : Cmd Disk ℕ
  unfolding allocate_from
  allocate_sector s = elim s.device [
    | none ↦ fail nospc s
    | some dev ↦ allocate_from (sector_limit s - s.data_start) s.data_start s
  ]
