-- ===== src/Storage/Content/RoundTrip.antt =====
-- src/fs/storage/storage.c: what `storage_write_file` stores is what `storage_read_file` gives
-- back.
use native.Mathlib.Decide.{ℕ_discrete}
use mathlib.Core.Path.{ap₂}
use project_orange_tea.Base.{
  ℕ, ◌+◌, ◌<◌, ◌≡◌, refl, sym, ap, ◌∙◌, Bool, true, false, not, some, List, ◌++◌, ltb, leb,
  if◌then◌else◌, length, take, get_or-set_self, get_or-set_ne, length-set, length-take, take_all,
  ltb→lt, ltb→le, arith, Bool-cases, inl, inr, min,
}
use project_orange_tea.Storage.State.{
  Status, Entry, blank_entry, Storage, entry_at, content_capacity,
}
use project_orange_tea.Storage.Run.{
  Run, done, fail, Void, state_of, recast, and_then, and_then-done, passes,
}
use project_orange_tea.Storage.Bytes.{slice}
use project_orange_tea.Storage.Bytes.Layout.{
  slice-blit, slice-blit_before, slice-set_after, slice-append, take-slice,
}
use project_orange_tea.Storage.Inode.{set_entry, is_file}
use project_orange_tea.Storage.Sync.{next_timestamp, tick, timestamp_now, storage_sync}
use project_orange_tea.Storage.Files.{find, must_be_mounted}
use project_orange_tea.Storage.Files.View.{view, view-storage_sync}
use project_orange_tea.Storage.Files.Table.{forget-entry_at, find-view, find_cong, mounted-view}
use project_orange_tea.Storage.Content.{
  write_at, sized, found_or, ensure_file, no_room, storage_write_file, storage_read_file,
}

-- where the new bytes go: behind the old ones, or over them
abbrev pub start_of : Entry → Bool → ℕ
start_of entry append = if append then entry.size else 0

-- the contents that a file of `entry` has once `bytes` are written to it
abbrev pub expected : Entry → Bool → List ℕ → List ℕ
expected entry append bytes = slice entry.content 0 (start_of entry append) ++ bytes

abbrev pub rewritten : Entry → Bool → List ℕ → Entry
rewritten entry append bytes =
    sized entry (write_at entry (start_of entry append) bytes)
      (start_of entry append + length bytes)

-- The bytes up to the size of a rewritten file are the expected ones.
slice-rewritten :
    (entry : Entry) (append : Bool) (bytes : List ℕ)
    → length entry.content ≡ content_capacity
    → start_of entry append + length bytes < content_capacity
    → slice (rewritten entry append bytes).content 0 (start_of entry append + length bytes)
      ≡ expected entry append bytes
slice-rewritten entry append bytes full fits =
    slice-set_after (write_at entry start bytes) (start + length bytes) 0 0 (start + length bytes)
      (omega arith)
    ∙ slice-append (write_at entry start bytes) start (length bytes)
    ∙ ap₂ ◌++◌ (slice-blit_before entry.content start bytes 0 start (omega arith))
        (slice-blit entry.content start bytes (omega arith))
  where
    start : ℕ
    start = start_of entry append

abbrev at_time : ℕ → Entry → Entry
at_time now entry = record entry { modified_at = now }

-- What a buffer of `capacity` receives of a file of `size` bytes.
read_part :
    (content : List ℕ) (size capacity : ℕ)
    → slice content 0 (if ltb size capacity then size else capacity)
      ≡ take capacity (slice content 0 size)
unfolding slice
read_part content size capacity = elim (Bool-cases (ltb size capacity)) [
  | inl h ↦ rw h (
      sym (
        take_all capacity (take size content)
          (omega (arith, length-take size content, ltb→lt size capacity h))))
  | inr h ↦ rw h (sym (take-slice content capacity size (ltb→le size capacity h)))
]

abbrev reading : List ℕ → ℕ → ℕ → List ℕ × ℕ × ℕ
reading content size capacity =
    let count = if ltb size capacity then size else capacity in (slice content 0 count, count, size)

read_count :
    (size capacity : ℕ) → (if ltb size capacity then size else capacity) ≡ min capacity size
read_count size capacity = ground arith

module _ {Disk : Type 0} (s : Storage Disk) where
  mounted-ok : s.mounted ≡ true → must_be_mounted s ≡ done tt s
  mounted-ok h = ground arith

  module _ (path : List ℕ) (i : ℕ) (h : find s path ≡ some i) where
    ensure_file-found : ensure_file path s ≡ done tt s
    ensure_file-found = rw (h, ensure_file)

    found_or-found : (e : Status) → found_or e path s ≡ done i s
    found_or-found e = rw (h, found_or)

module _ {Disk : Type 0} (s : Storage Disk) (path bytes : List ℕ) (append : Bool) (i : ℕ)
    (mounted : s.mounted ≡ true) (found : find s path ≡ some i)
    (file : is_file (entry_at s i) ≡ true)
    (fits : start_of (entry_at s i) append + length bytes < content_capacity) where
  abbrev stored : Storage Disk
  stored = set_entry s i (rewritten (entry_at s i) append bytes)

  -- the statics when `storage_write_file` comes to save them
  abbrev stamped : Storage Disk
  stamped =
      let t = tick stored in
      set_entry t i (record (entry_at t i) { modified_at = next_timestamp stored })

  write_file-sync :
      storage_write_file path bytes append s
      ≡ and_then (recast Status.io (storage_sync stamped)) (λ _. done (length bytes))
  unfolding storage_write_file timestamp_now
  write_file-sync =
      let short : leb content_capacity (length bytes) ≡ false = ground arith in
      let room : no_room (start_of (entry_at s i) append) (length bytes) ≡ false = ground arith in
      and_then-done _ (mounted-ok s mounted)
      ∙ and_then-done _ (passes s _ _ short)
      ∙ and_then-done _ (ensure_file-found s path i found)
      ∙ and_then-done _ (found_or-found s path i found _)
      ∙ and_then-done _ (passes s _ _ (ap not file))
      ∙ and_then-done _ (passes s _ _ room)

  -- the statics that `storage_write_file` leaves, whether saving them succeeded or not
  abbrev pub after_write : Storage Disk
  after_write = state_of (storage_write_file path bytes append s)

  view-after_write : view after_write ≡ view stamped
  view-after_write =
      ap (λ r. view (state_of r)) write_file-sync
      ∙ saved (storage_sync stamped) (view-storage_sync stamped)
    where
      saved :
          (r : Run Disk Void)
          → view (state_of r) ≡ view stamped
          → view (state_of (and_then (recast Status.io r) (λ _. done (length bytes))))
            ≡ view stamped
      saved (done a t) h = h
      saved (fail e t) h = h

  module _ (i_in : i < length s.entries) where
    stored-entry : entry_at stored i ≡ rewritten (entry_at s i) append bytes
    stored-entry = get_or-set_self s.entries i _ blank_entry i_in

    stamped-entry :
        entry_at stamped i
        ≡ record (rewritten (entry_at s i) append bytes) { modified_at = next_timestamp stored }
    stamped-entry =
        get_or-set_self stored.entries i _ blank_entry
          (omega (arith, length-set s.entries i (rewritten (entry_at s i) append bytes)))
        ∙ ap (at_time (next_timestamp stored)) stored-entry

    stamped-path : (k : ℕ) → (entry_at stamped k).path ≡ (entry_at s k).path
    stamped-path k = elim (ℕ_discrete i k) [
      | yes e ↦ rw (← e, stamped-entry)
      | no ne ↦
          ap (λ e. e.path) (get_or-set_ne stored.entries i k _ blank_entry ne)
          ∙ ap (λ e. e.path) (get_or-set_ne s.entries i k _ blank_entry ne)
    ]

    find-after_write : find after_write path ≡ some i
    find-after_write =
        find-view after_write stamped view-after_write path
        ∙ find_cong stamped s stamped-path refl path
        ∙ found

    -- Reading a file back after a write gives the expected bytes, as many as the buffer takes, and
    -- the size of the file.
    pub read-write :
        (capacity : ℕ)
        → length (entry_at s i).content ≡ content_capacity
        → storage_read_file path capacity after_write
          ≡ done
              (
                take capacity (expected (entry_at s i) append bytes),
                min capacity (start_of (entry_at s i) append + length bytes),
                start_of (entry_at s i) append + length bytes,
              )
              after_write
    unfolding storage_read_file
    read-write capacity full =
        let e = forget-entry_at after_write stamped view-after_write i in
        let size : (entry_at after_write i).size ≡ start_of (entry_at s i) append + length bytes =
          ap (λ x. x.size) e ∙ ap (λ x. x.size) stamped-entry in
        let content : (entry_at after_write i).content
            ≡ (rewritten (entry_at s i) append bytes).content =
          ap (λ x. x.content) e ∙ ap (λ x. x.content) stamped-entry in
        let type : is_file (entry_at after_write i) ≡ is_file (entry_at s i) =
          ap is_file e ∙ ap is_file stamped-entry in
        and_then-done _
          (mounted-ok after_write (mounted-view after_write stamped view-after_write ∙ mounted))
        ∙ and_then-done _ (found_or-found after_write path i find-after_write _)
        ∙ and_then-done _ (passes after_write _ _ (ap not (type ∙ file)))
        ∙ ap₂ (λ xs n. done (reading xs n capacity) after_write) content size
        ∙ ap₂ (λ xs n. done (xs, n, end) after_write)
            (read_part new end capacity
              ∙ ap (take capacity) (slice-rewritten (entry_at s i) append bytes full fits))
            (read_count end capacity)
      where
        end : ℕ
        end = start_of (entry_at s i) append + length bytes

        new : List ℕ
        new = (rewritten (entry_at s i) append bytes).content
