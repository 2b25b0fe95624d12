-- ===== src/Storage/Disk/Cache.antt =====
-- src/fs/storage/storage.c: the write-through cache is transparent. On a device that works, reading
-- a sector gives what the device holds, and a write is what a later read of the sector
-- sees.
use project_orange_tea.Base.{
  ℕ, zero, suc, ◌<◌, ◌≡◌, ◌≢◌, ◌⊎◌, inl, inr, refl, sym, ap, ◌∙◌, Bool, true, false, Option, none,
  some, List, [], ◌∷◌, map, length, get_or, set, first_where, first_where-IsFirst, Option-cases,
  Bool-cases, if-false, elim-none, elim-some, arith, leb, if◌then◌else◌,
}
use project_orange_tea.Storage.State.{
  io, BlockDevice, CacheSector, blank_slot, Storage, sector_size,
}
use project_orange_tea.Storage.Run.{Run, Void, done, fail}
use project_orange_tea.Storage.Disk.{
  hit, refresh, cached, is_hit, remember, fetch, victim, disk_read, disk_write,
}

-- A device that works: `holds` is the content of a sector; a read gives it and leaves every sector,
-- a write of a whole sector puts the bytes there and leaves the others.
pub record Reliable {Disk : Type 0} (dev : BlockDevice Disk) (holds : Disk → ℕ → List ℕ)
    : Type 0 where
  pub reads :
      (disk : Disk) (sector : ℕ)
      → sector < dev.sector_count
      → (left : Disk) × (dev.read_sector disk sector ≡ (some (holds disk sector), left))
        × ((other : ℕ) → holds left other ≡ holds disk other)
  pub writes :
      (disk : Disk) (sector : ℕ) (bytes : List ℕ)
      → sector < dev.sector_count
      → length bytes ≡ sector_size
      → (left : Disk) × (dev.write_sector disk sector bytes ≡ (true, left))
        × (holds left sector ≡ bytes)
        × ((other : ℕ) → other ≢ sector → holds left other ≡ holds disk other)

-- Every valid slot holds the bytes of its sector.
abbrev pub Coherent : {Disk : Type 0} → (Disk → ℕ → List ℕ) → Storage Disk → Type 0
Coherent holds s =
    (i : ℕ) → (cached s i).valid ≡ true → (cached s i).bytes ≡ holds s.disk (cached s i).sector

set-cases :
    (xs : List CacheSector) (i j : ℕ) (v d : CacheSector)
    → (get_or (set xs i v) j d ≡ v) ⊎ (get_or (set xs i v) j d ≡ get_or xs j d)
set-cases [] i j v d = inr refl
set-cases (x ∷ xs) zero zero v d = inl refl
set-cases (x ∷ xs) zero (suc j) v d = inr refl
set-cases (x ∷ xs) (suc i) zero v d = inr refl
set-cases (x ∷ xs) (suc i) (suc j) v d = set-cases xs i j v d

get_or-map-refresh :
    (sector : ℕ) (bytes : List ℕ) (xs : List CacheSector) (i : ℕ)
    → get_or (map (refresh sector bytes) xs) i blank_slot
      ≡ refresh sector bytes (get_or xs i blank_slot)
get_or-map-refresh sector bytes [] i = refl
get_or-map-refresh sector bytes (x ∷ xs) zero = refl
get_or-map-refresh sector bytes (x ∷ xs) (suc i) = get_or-map-refresh sector bytes xs i

module _ {Disk : Type 0} (dev : BlockDevice Disk) (holds : Disk → ℕ → List ℕ)
    (works : Reliable dev holds) where
  -- what a slot has after a refresh that goes with a write
  refresh-coherent :
      (disk left : Disk) (sector : ℕ) (bytes : List ℕ) (c : CacheSector)
      → holds left sector ≡ bytes
      → ((other : ℕ) → other ≢ sector → holds left other ≡ holds disk other)
      → (c.valid ≡ true → c.bytes ≡ holds disk c.sector)
      → (refresh sector bytes c).valid ≡ true
      → (refresh sector bytes c).bytes ≡ holds left (refresh sector bytes c).sector
  refresh-coherent disk left sector bytes c here others h valid = elim (Bool-cases (hit sector c)) [
    | inl yes' ↦ rw yes' (sym here ∙ ap (holds left) (sym (sector-hit yes')))
    | inr no' ↦
        let v : c.valid ≡ true = rw no' at valid in
        rw no' (h v ∙ sym (others c.sector (λ e. ground (arith, v, e, no'))))
  ]
    where
      sector-hit : hit sector c ≡ true → c.sector ≡ sector
      sector-hit e = ground arith

  module _ (s : Storage Disk) (attached : s.device ≡ some dev) (coherent : Coherent holds s)
      (sector : ℕ) (inside : sector < dev.sector_count) where
    in_range : leb dev.sector_count sector ≡ false
    in_range = ground arith

    abbrev fetched : Option (List ℕ) × Disk → Run Disk (List ℕ)
    fetched (result, disk) = elim result [
      | none ↦ fail io (record s { disk = disk })
      | some bytes ↦ done bytes (remember (record s { disk = disk }) sector bytes)
    ]

    abbrev finished : List ℕ → Bool × Disk → Run Disk Void
    finished bytes (written, disk) =
        if written
        then done tt (record s { disk = disk; cache = map (refresh sector bytes) s.cache })
        else fail io (record s { disk = disk })

    reading : disk_read sector s ≡ elim (first_where (is_hit s sector) 4 0) [
      | none ↦ fetch dev sector s
      | some i ↦ done (cached s i).bytes s
    ]
    unfolding disk_read
    reading = elim-some _ _ attached ∙ if-false _ _ in_range

    hit-holds : (i : ℕ) → is_hit s sector i ≡ true → (cached s i).bytes ≡ holds s.disk sector
    hit-holds i h =
        let v : (cached s i).valid ≡ true = ground arith in
        let e : (cached s i).sector ≡ sector = ground arith in coherent i v ∙ ap (holds s.disk) e

    remembered :
        (left : Disk)
        → ((other : ℕ) → holds left other ≡ holds s.disk other)
        → Coherent holds (remember (record s { disk = left }) sector (holds s.disk sector))
    remembered left same i valid =
        let start : Storage Disk = record s { disk = left } in
        elim (set-cases s.cache (victim start) i
          (record { sector = sector; bytes = holds s.disk sector; valid = true; dirty = false })
          blank_slot) [
            | inl new ↦
                ap (λ c. c.bytes) new ∙ sym (same sector) ∙ ap (λ c. holds left c.sector) (sym new)
            | inr old ↦
                ap (λ c. c.bytes) old
                ∙ coherent i (ap (λ c. c.valid) (sym old) ∙ valid)
                ∙ sym (same (cached s i).sector)
                ∙ ap (λ c. holds left c.sector) (sym old)
          ]

    -- A sector inside the device is read: the bytes are those that the device holds, whether or not
    -- they come from the cache; no sector changes, and the cache still agrees with the device.
    pub disk_read-holds :
        (left : Storage Disk) × (disk_read sector s ≡ done (holds s.disk sector) left)
        × Coherent holds left
        × (left.device ≡ s.device)
        × ((other : ℕ) → holds left.disk other ≡ holds s.disk other)
    unfolding disk_read
    disk_read-holds = elim (Option-cases (first_where (is_hit s sector) 4 0)) [
      | inl miss ↦
          let (left, read, same) = works.reads s.disk sector inside in
          let start : Storage Disk = record s { disk = left } in
          (
            remember start sector (holds s.disk sector),
            reading ∙ elim-none _ _ miss ∙ ap (λ r. fetched r) read,
            (λ i. remembered left same i),
            refl,
            same,
          )
      | inr (i, found) ↦
          let first = first_where-IsFirst (is_hit s sector) 4 0 i found in
          (
            s,
            reading ∙ elim-some _ _ found ∙ ap (λ b. done b s) (hit-holds i first.holds),
            coherent,
            refl,
            (λ other. refl),
          )
    ]

    -- A whole sector is written: the device then holds the bytes, the other sectors are as before,
    -- and the cache still agrees with the device.
    pub disk_write-holds :
        (bytes : List ℕ)
        → length bytes ≡ sector_size
        → (left : Storage Disk) × (disk_write sector bytes s ≡ done tt left)
          × Coherent holds left
          × (left.device ≡ s.device)
          × (holds left.disk sector ≡ bytes)
          × ((other : ℕ) → other ≢ sector → holds left.disk other ≡ holds s.disk other)
    unfolding disk_write
    disk_write-holds bytes whole =
        let (left, wrote, here, others) = works.writes s.disk sector bytes inside whole in
        (
          record s { disk = left; cache = map (refresh sector bytes) s.cache },
          elim-some _ _ attached ∙ if-false _ _ in_range ∙ ap (λ r. finished bytes r) wrote,
          (λ i valid.
              let e = get_or-map-refresh sector bytes s.cache i in
              ap (λ c. c.bytes) e
              ∙ refresh-coherent s.disk left sector bytes (cached s i) here others (coherent i)
                  (ap (λ c. c.valid) (sym e) ∙ valid)
              ∙ ap (λ c. holds left c.sector) (sym e)),
          refl,
          here,
          others,
        )

-- What was written to a sector is what a later read of it gives, through the cache or not.
pub disk_read-disk_write :
    {Disk : Type 0} (dev : BlockDevice Disk) (holds : Disk → ℕ → List ℕ)
    → Reliable dev holds
    → (s : Storage Disk) → s.device ≡ some dev
    → Coherent holds s
    → (sector : ℕ) (bytes : List ℕ) → sector < dev.sector_count
    → length bytes ≡ sector_size
    → (written left : Storage Disk) × (disk_write sector bytes s ≡ done tt written)
      × (disk_read sector written ≡ done bytes left)
disk_read-disk_write dev holds works s attached coherent sector bytes inside whole =
    let (written, wrote, agrees, same, here, others) =
      disk_write-holds dev holds works s attached coherent sector inside bytes whole in
    let (left, read, agrees', same', kept) =
      disk_read-holds dev holds works written (same ∙ attached) agrees sector inside in
    (written, left, wrote, read ∙ ap (λ b. done b left) here)
