-- ===== src/Storage/Files/View.antt =====
-- src/fs/storage/storage.c: what the calls that only move sectors leave alone. Saving the table
-- gives a file its data sector, and touches nothing else that a client sees.
use project_orange_tea.Base.{
  ℕ, zero, suc, ◌+◌, ◌-◌, ◌≡◌, refl, ap, ◌∙◌, Bool, true, false, Option, none, some, List, [], ◌∷◌,
  map, if◌then◌else◌, get_or, set, arith,
}
use project_orange_tea.Storage.State.{
  Status, io, nospc, noent, BlockDevice, Entry, blank_entry, Fd, Storage, entry_at,
}
use project_orange_tea.Storage.Run.{
  Run, done, fail, Cmd, pure, state_of, recast, failing_as, and_then, ◌>>=◌,
}
use project_orange_tea.Storage.Disk.{disk_read, disk_write}
use project_orange_tea.Storage.Bitmap.{
  bitmap_sector, sector_limit, bitmap_bit, bitmap_value, sector_used, allocate_from,
  allocate_sector,
}
use project_orange_tea.Storage.Inode.{
  set_entry, block_at, data_block, needs_sector, has_sector, with_sector, assign_sector, write_data,
  write_inode, super_block, write_super,
}
use project_orange_tea.Storage.Sync.{write_inodes, flush_device, write_all, storage_sync}

-- an entry without its data sectors
abbrev pub forget : Entry → Entry
forget entry = record entry { blocks = [] }

-- the statics that a client can tell apart without looking at sectors
pub record View (Disk : Type 0) : Type 0 where
  pub entries : List Entry
  pub fds : List Fd
  pub device : Option (BlockDevice Disk)
  pub bitmap_sectors : ℕ
  pub data_start : ℕ
  pub next_file_id : ℕ
  pub last_timestamp : ℕ
  pub clock : Option (ℕ → ℕ)
  pub clock_calls : ℕ
  pub entry_count : ℕ
  pub mounted : Bool

abbrev pub view : {Disk : Type 0} → Storage Disk → View Disk
view s = record {
  entries = map forget s.entries;
  fds = s.fds;
  device = s.device;
  bitmap_sectors = s.bitmap_sectors;
  data_start = s.data_start;
  next_file_id = s.next_file_id;
  last_timestamp = s.last_timestamp;
  clock = s.clock;
  clock_calls = s.clock_calls;
  entry_count = s.entry_count;
  mounted = s.mounted;
}

-- A call keeps the view on every path, errors included.
abbrev pub Keeps : {Disk A : Type 0} → Cmd Disk A → Type 0
Keeps {Disk} m = (s : Storage Disk) → view (state_of (m s)) ≡ view s

module _ {Disk A : Type 0} where
  pub Keeps-bind :
      {B : Type 0} (m : Cmd Disk A) (k : A → Cmd Disk B)
      → Keeps m
      → ((a : A) → Keeps (k a))
      → Keeps (m >>= k)
  Keeps-bind m k hm hk s = step (m s) (hm s)
    where
      step : (r : Run Disk A) → view (state_of r) ≡ view s → view (state_of (and_then r k)) ≡ view s
      step (done a s') e = hk a s' ∙ e
      step (fail _ s') e = e

  pub Keeps-failing_as : (e : Status) (m : Cmd Disk A) → Keeps m → Keeps (failing_as e m)
  Keeps-failing_as e m hm s = step (m s) (hm s)
    where
      step : (r : Run Disk A) → view (state_of r) ≡ view s → view (state_of (recast e r)) ≡ view s
      step (done a s') h = h
      step (fail _ s') h = h

  pub Keeps-if : (b : Bool) (m n : Cmd Disk A) → Keeps m → Keeps n → Keeps (if b then m else n)
  Keeps-if true m n hm hn = hm
  Keeps-if false m n hm hn = hn

-- a call that asks for the device first
pub view-elim :
    {Disk A : Type 0} (v : View Disk) (device : Option (BlockDevice Disk)) (without : Run Disk A)
    (with_device : BlockDevice Disk → Run Disk A)
    → view (state_of without) ≡ v
    → ((dev : BlockDevice Disk) → view (state_of (with_device dev)) ≡ v)
    → view (state_of (elim device [ none ↦ without | some dev ↦ with_device dev ])) ≡ v
view-elim v none without with_device h k = h
view-elim v (some dev) without with_device h k = k dev

module _ {Disk : Type 0} where
  pub Keeps-disk_read : (sector : ℕ) → Keeps (disk_read {Disk = Disk} sector)
  unfolding disk_read
  Keeps-disk_read sector s = ground arith

  pub Keeps-disk_write :
      (sector : ℕ) (bytes : List ℕ) → Keeps (disk_write {Disk = Disk} sector bytes)
  unfolding disk_write
  Keeps-disk_write sector bytes s = ground arith

  pub Keeps-bitmap_bit : (sector : ℕ) (on : Bool) → Keeps (bitmap_bit {Disk = Disk} sector on)
  unfolding bitmap_bit
  Keeps-bitmap_bit sector on =
      Keeps-bind (disk_read _) _ (Keeps-disk_read _) (λ block. Keeps-disk_write _ _)

  pub Keeps-bitmap_value : (sector : ℕ) → Keeps (bitmap_value {Disk = Disk} sector)
  unfolding bitmap_value
  Keeps-bitmap_value sector s = ground (arith, Keeps-disk_read (bitmap_sector sector) s)

  pub Keeps-sector_used : (sector : ℕ) → Keeps (sector_used {Disk = Disk} sector)
  unfolding sector_used
  Keeps-sector_used sector s = step (bitmap_value sector s) refl (Keeps-bitmap_value sector s)
    where
      step :
          (r : Run Disk ℕ)
          → bitmap_value sector s ≡ r
          → view (state_of r) ≡ view s
          → view (state_of (sector_used sector s)) ≡ view s
      step (done value s') e h = rw (e, sector_used) h
      step (fail _ s') e h = rw (e, sector_used) h

  pub Keeps-allocate_from : (rounds sector : ℕ) → Keeps (allocate_from {Disk = Disk} rounds sector)
  unfolding allocate_from
  Keeps-allocate_from zero sector = λ s. refl
  Keeps-allocate_from (suc rounds) sector =
      Keeps-bind (sector_used sector) _ (Keeps-sector_used sector) λ used.
        Keeps-if used _ _ (Keeps-allocate_from rounds (sector + 1)) (
          Keeps-bind (failing_as io (bitmap_bit sector true)) _
            (Keeps-failing_as io (bitmap_bit sector true) (Keeps-bitmap_bit sector true))
            (λ _ s. refl))

  pub Keeps-allocate_sector : Keeps (allocate_sector {Disk = Disk})
  unfolding allocate_sector
  Keeps-allocate_sector s =
      view-elim (view s) s.device (fail nospc s)
        (λ dev. allocate_from (sector_limit s - s.data_start) s.data_start s) refl
        (λ dev. Keeps-allocate_from (sector_limit s - s.data_start) s.data_start s)

map-set_same :
    (xs : List Entry) (i : ℕ) (v : Entry)
    → forget v ≡ forget (get_or xs i blank_entry)
    → map forget (set xs i v) ≡ map forget xs
map-set_same [] i v e = refl
map-set_same (x ∷ xs) zero v e = ap (λ y. y ∷ map forget xs) e
map-set_same (x ∷ xs) (suc i) v e = ap (λ l. forget x ∷ l) (map-set_same xs i v e)

module _ {Disk : Type 0} where
  -- Giving an entry a data sector keeps the view.
  view-with_sector :
      (s : Storage Disk) (index sector : ℕ)
      → view (set_entry s index (with_sector (entry_at s index) sector)) ≡ view s
  view-with_sector s index sector =
      ap (λ entries. record (view s) { entries = entries }) (map-set_same s.entries index _ refl)

  pub Keeps-assign_sector : (index : ℕ) → Keeps (assign_sector {Disk = Disk} index)
  unfolding assign_sector
  Keeps-assign_sector index s =
      Keeps-if (needs_sector (entry_at s index)) _ (pure tt)
        (Keeps-bind (failing_as nospc allocate_sector) _
          (Keeps-failing_as nospc allocate_sector Keeps-allocate_sector)
          (λ sector s'. view-with_sector s' index sector))
        (λ s. refl) s

  pub Keeps-write_data : (index : ℕ) → Keeps (write_data {Disk = Disk} index)
  unfolding write_data
  Keeps-write_data index s =
      Keeps-if (has_sector (entry_at s index)) _ (pure tt)
        (Keeps-failing_as io
          (disk_write (block_at (entry_at s index) 0) (data_block (entry_at s index)))
          (Keeps-disk_write (block_at (entry_at s index) 0) (data_block (entry_at s index))))
        (λ s. refl) s

  pub Keeps-write_inode : (index : ℕ) → Keeps (write_inode {Disk = Disk} index)
  unfolding write_inode
  Keeps-write_inode index =
      Keeps-bind (assign_sector index) _ (Keeps-assign_sector index)
        λ _. Keeps-bind (write_data index) _ (Keeps-write_data index) λ _ s. Keeps-disk_write _ _ s

  pub Keeps-write_super : Keeps (write_super {Disk = Disk})
  unfolding write_super
  Keeps-write_super s =
      view-elim (view s) s.device (fail io s)
        (λ dev. disk_write 0 (super_block s dev.sector_count) s) refl
        (λ dev. Keeps-disk_write 0 (super_block s dev.sector_count) s)

  pub Keeps-write_inodes : (rounds index : ℕ) → Keeps (write_inodes {Disk = Disk} rounds index)
  unfolding write_inodes
  Keeps-write_inodes zero index = λ s. refl
  Keeps-write_inodes (suc rounds) index =
      Keeps-bind (failing_as io (write_inode index)) _
        (Keeps-failing_as io (write_inode index) (Keeps-write_inode index))
        (λ _. Keeps-write_inodes rounds (index + 1))

  pub Keeps-flush_device : (dev : BlockDevice Disk) → Keeps (flush_device dev)
  unfolding flush_device
  Keeps-flush_device dev s = ground arith

  -- Saving everything keeps the view, whether it succeeds or not.
  pub Keeps-write_all : (dev : BlockDevice Disk) → Keeps (write_all dev)
  unfolding write_all
  Keeps-write_all dev s =
      Keeps-bind (if s.mounted then failing_as io write_super else pure tt) _
        (Keeps-if s.mounted _ (pure tt) (Keeps-failing_as io write_super Keeps-write_super)
          (λ s. refl))
        (λ _.
          Keeps-bind (write_inodes s.entry_count 0) _ (Keeps-write_inodes s.entry_count 0)
            (λ _. Keeps-flush_device dev))
        s

  -- `storage_sync` changes nothing that a client sees without looking at sectors, whether it
  -- succeeds or not.
  pub view-storage_sync : (s : Storage Disk) → view (state_of (storage_sync s)) ≡ view s
  unfolding storage_sync
  view-storage_sync s =
      view-elim (view s) s.device (if s.mounted then done tt s else fail noent s)
        (λ dev. write_all dev s) (ground arith) (λ dev. Keeps-write_all dev s)
