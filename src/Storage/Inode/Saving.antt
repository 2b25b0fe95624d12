-- ===== src/Storage/Inode/Saving.antt =====
-- src/fs/storage/storage.c: `write_inode` and then `read_inode`, through the cache and the device.
use project_orange_tea.Base.{
  ℕ, ◌+◌, ◌<◌, ◌≡◌, ◌≢◌, ◌⊎◌, refl, sym, ap, ◌∙◌, true, false, some, List, [], ◌∷◌, inl, inr,
  length, arith, length-replicate,
}
use project_orange_tea.Storage.State.{io, BlockDevice, Entry, Storage, entry_at, sector_size}
use project_orange_tea.Storage.Run.{done, state_of, recast, and_then-done}
use project_orange_tea.Storage.Bytes.Layout.{length-blit}
use project_orange_tea.Storage.Disk.{disk_write}
use project_orange_tea.Storage.Disk.Cache.{Reliable, Coherent, disk_write-holds}
use project_orange_tea.Storage.Inode.{
  zero_block, blits, inode_writes, inode_block, data_block, is_file, block_at, needs_sector,
  has_sector, set_entry, assign_sector, write_data, write_inode, read_inode,
}
use project_orange_tea.Storage.Inode.RoundTrip.{IsStorable}
use project_orange_tea.Storage.Inode.Reading.{restored, HasData, read_inode-inode_block}

length-blits :
    (buffer : List ℕ) (writes : List (ℕ × List ℕ)) → length (blits buffer writes) ≡ length buffer
unfolding blits
length-blits buffer [] = refl
length-blits buffer ((offset, bytes) ∷ rest) = length-blits _ rest ∙ length-blit buffer offset bytes

length-inode_block : (entry : Entry) → length (inode_block entry) ≡ sector_size
unfolding inode_block
length-inode_block entry =
    length-blits zero_block (inode_writes entry) ∙ length-replicate {A = ℕ} 512 0

length-data_block : (entry : Entry) → length (data_block entry) ≡ sector_size
unfolding data_block
length-data_block entry = length-blit zero_block 0 _ ∙ length-replicate {A = ℕ} 512 0

-- Writing a sector leaves the table.
entries-disk_write :
    {Disk : Type 0} (sector : ℕ) (bytes : List ℕ) (s : Storage Disk)
    → (state_of (disk_write sector bytes s)).entries ≡ s.entries
unfolding disk_write
entries-disk_write sector bytes s = ground arith

module _ {Disk : Type 0} (dev : BlockDevice Disk) (holds : Disk → ℕ → List ℕ)
    (works : Reliable dev holds) (index : ℕ) (inside : index + 1 < dev.sector_count) where
  -- The file has its data sector, inside the device and apart from the inode's, or it needs none.
  abbrev pub IsPlaced : Entry → Type 0
  IsPlaced entry =
      (has_sector entry ≡ false) × (needs_sector entry ≡ false)
      ⊎ (has_sector entry ≡ true)
        × (block_at entry 0 < dev.sector_count)
        × (block_at entry 0 ≢ index + 1)

  -- what is known of the storage when the data are written
  abbrev Saved : Entry → Storage Disk → Type 0
  Saved entry t =
      (t.device ≡ some dev)
      × Coherent holds t
      × (entry_at t index ≡ entry)
      × ((has_sector entry ≡ false)
          ⊎ (has_sector entry ≡ true) × (holds t.disk (block_at entry 0) ≡ data_block entry))

  module _ (s : Storage Disk) (attached : s.device ≡ some dev) (coherent : Coherent holds s) where
    abbrev entry : Entry
    entry = entry_at s index

    assigned : IsPlaced entry → assign_sector index s ≡ done tt s
    unfolding assign_sector
    assigned (inl (no_sector, not_needed)) = rw not_needed refl
    assigned (inr (sector, _, _)) =
        let not_needed : needs_sector entry ≡ false = ground (arith, sector) in rw not_needed refl

    wrote_data :
        IsPlaced entry → (t : Storage Disk) × (write_data index s ≡ done tt t) × Saved entry t
    unfolding write_data
    wrote_data (inl (no_sector, not_needed)) =
        (s, rw no_sector refl, (attached, coherent, refl, inl no_sector))
    wrote_data (inr (sector, in_device, apart)) =
        let (t, wrote, agrees, same, here, others) =
          disk_write-holds dev holds works s attached coherent (block_at entry 0) in_device
            (data_block entry) (length-data_block entry) in
        let table : t.entries ≡ s.entries =
          ap (λ r. (state_of r).entries) (sym wrote)
          ∙ entries-disk_write (block_at entry 0) (data_block entry) s in
        (
          t,
          rw sector (ap (recast io) wrote),
          (
            same ∙ attached,
            agrees,
            ap (λ l. entry_at (record s { entries = l }) index) table,
            inr (sector, here),
          ),
        )

    -- On a device that works, with a cache that agrees with it: saving a file's entry that fits its
    -- fields, and that has its data sector in the device apart from the inode's or needs none,
    -- succeeds, and `read_inode` afterwards succeeds and puts the entry into the table: every field
    -- as it was; the contents, where the file has a data sector, its first `size` bytes and zeros,
    -- and else all of them; a NUL at their end.
    pub read_inode-write_inode :
        (storable : IsStorable entry)
        → is_file entry ≡ true
        → IsPlaced entry
        → (written left : Storage Disk) × (write_inode index s ≡ done tt written)
          × (read_inode index written ≡ done tt (set_entry left index (restored entry)))
    unfolding write_inode
    read_inode-write_inode storable file placed =
        let (t, saved, (attached', agrees', same_entry, stored)) = wrote_data placed in
        let (written, wrote, agrees, same, here, others) =
          disk_write-holds dev holds works t attached' agrees' (index + 1) inside
            (inode_block (entry_at t index)) (length-inode_block (entry_at t index)) in
        let (left, read) =
          read_inode-inode_block dev holds works entry storable file index written
            (same ∙ attached') agrees inside (here ∙ ap inode_block same_entry)
            (kept t written others placed stored) in
        (written, left, and_then-done _ (assigned placed) ∙ and_then-done _ saved ∙ wrote, read)
      where
        kept :
            (t written : Storage Disk)
            → ((other : ℕ) → other ≢ index + 1 → holds written.disk other ≡ holds t.disk other)
            → IsPlaced entry
            → ((has_sector entry ≡ false)
                ⊎ (has_sector entry ≡ true) × (holds t.disk (block_at entry 0) ≡ data_block entry))
            → HasData dev holds works entry storable file index written
        kept t written others (inl (no_sector, _)) stored = inl no_sector
        kept t written others (inr (sector, in_device, apart)) (inl no_sector) = inl no_sector
        kept t written others (inr (sector, in_device, apart)) (inr (_, stored)) =
            inr (sector, in_device, others (block_at entry 0) apart ∙ stored)
