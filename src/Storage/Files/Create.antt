-- ===== src/Storage/Files/Create.antt =====
-- src/fs/storage/storage.c: `create` under a directory that exists.
use project_orange_tea.Base.{
  ℕ, zero, suc, ◌+◌, ◌<◌, ◌≡◌, ◌≢◌, ◌⊎◌, refl, sym, ap, ◌∙◌, Bool, true, false, ◌&&◌, not, Option,
  none, some, List, ◌==◌, if-true, if-false, elim-none, elim-some, length, take_all,
  get_or-set_self, get_or-set_ne, first_where, first_where-none, first_where-IsFirst, arith,
  Bool-cases, Option-cases, inl, inr,
}
use project_orange_tea.Storage.State.{
  exist, notdir, Entry, blank_entry, Storage, entry_at, max_entries,
}
use project_orange_tea.Storage.Run.{
  done, Cmd, Void, pure, raise, state_of, and_then-done, passes, reject_if, ◌>>◌,
}
use project_orange_tea.Storage.Bytes.{equal}
use project_orange_tea.Storage.Bytes.Layout.{eq→equal}
use project_orange_tea.Storage.Path.{normalize, parent_path}
use project_orange_tea.Storage.Path.Reading.{normalize_idem, normalize_bounds}
use project_orange_tea.Storage.Sync.{next_timestamp, tick, timestamp_now, storage_sync}
use project_orange_tea.Storage.Files.{
  is_dir, is_root, new_entry, id_after, filled, has_path, find, proper_path, must_be_mounted,
  add_entry, append_entry, parent_directory, create_rounds, create,
}
use project_orange_tea.Storage.Files.View.{view-storage_sync}
use project_orange_tea.Storage.Files.Table.{find-view}

-- The parent of a normalised path is the root, or a directory of the table.
abbrev pub HasParent : {Disk : Type 0} → Storage Disk → List ℕ → Type 0
HasParent s normalized =
    (parent_path normalized ≡ none)
    ⊎ ((parent : List ℕ) × (i : ℕ) × (parent_path normalized ≡ some parent)
        × (find s parent ≡ some i)
        × (is_dir (entry_at s i) ≡ true))

-- A search that fails below `n` and holds at `n` gives `n`.
first_where-last :
    (test : ℕ → Bool) (rounds i : ℕ)
    → first_where test rounds i ≡ none
    → test (i + rounds) ≡ true
    → first_where test (rounds + 1) i ≡ some (i + rounds)
unfolding first_where
first_where-last test zero i e h =
    let here : i + 0 ≡ i = omega arith in
    let hit : test i ≡ true = ap test (sym here) ∙ h in if-true _ _ hit ∙ ap some (sym here)
first_where-last test (suc rounds) i e h = elim (Bool-cases (test i)) [
  | inl hit ↦ absurd (ground arith)
  | inr miss ↦
      let there : suc i + rounds ≡ i + suc rounds = omega arith in
      let e' : first_where test rounds (suc i) ≡ none = rw miss at e in
      ap (λ k. first_where test k i) (add_one rounds)
      ∙ if-false _ _ miss
      ∙ ap (λ k. first_where test k (suc i)) (one_more rounds)
      ∙ first_where-last test rounds (suc i) e' (ap test there ∙ h)
      ∙ ap some there
]
  where
    add_one : (k : ℕ) → suc k + 1 ≡ suc (suc k)
    add_one k = omega arith

    one_more : (k : ℕ) → suc k ≡ k + 1
    one_more k = omega arith

module _ {Disk : Type 0} (s : Storage Disk) (path normalized : List ℕ) (type : ℕ)
    (text : Option (List ℕ)) (mounted : s.mounted ≡ true)
    (proper : normalize path ≡ some normalized) (not_root : is_root normalized ≡ false)
    (kind : not (type == b'f') && not (type == b'd') ≡ false) (free : find s normalized ≡ none)
    (room : s.entry_count < max_entries) (parent : HasParent s normalized) where
  accepted : proper_path path s ≡ done normalized s
  accepted = elim-some _ _ proper ∙ if-false _ _ not_root

  parent_ready : (make : List ℕ → Cmd Disk Void) → parent_directory make normalized s ≡ done true s
  parent_ready make = elim parent [
    | inl top ↦ elim-none _ _ top
    | inr (p, i, below, found, dir) ↦
        elim-some _ _ below ∙ elim-some _ _ found ∙ ap (λ b. done b s) dir
  ]

  abbrev absent : Option ℕ → Cmd Disk Void
  absent found = elim found [ none ↦ pure tt | some _ ↦ raise exist ]

  in_place :
      (rounds : ℕ)
      → create_rounds (suc rounds) path type text s ≡ append_entry normalized type text s
  unfolding create_rounds
  in_place rounds =
      let mounted_ok : must_be_mounted s ≡ done tt s = ground arith in
      let space : s.entry_count == max_entries ≡ false = ground arith in
      and_then-done _ mounted_ok
      ∙ and_then-done _ accepted
      ∙ and_then-done _ (passes s _ _ kind)
      ∙ and_then-done _ (ap (λ found. absent found s) free)
      ∙ and_then-done _ (passes s _ _ space)
      ∙ and_then-done
          (λ present. reject_if (not present) notdir >> append_entry normalized type text)
          (parent_ready (λ p. create_rounds rounds p b'd' none))
      ∙ and_then-done (λ _. append_entry normalized type text) (passes s notdir _ refl)

  -- Where the parent exists and there is room, `create` is its last part alone.
  create_in_place : create path type text s ≡ append_entry normalized type text s
  unfolding create
  create_in_place = in_place 63

  abbrev made : Entry
  made = record (new_entry normalized type s.next_file_id) {
    created_at = next_timestamp s;
    modified_at = next_timestamp s;
  }

  -- the statics when `create` comes to save them
  abbrev appended : Storage Disk
  appended =
      add_entry (filled made text) (tick (record s { next_file_id = id_after s.next_file_id }))

  append_entry-sync : append_entry normalized type text s ≡ storage_sync appended
  unfolding append_entry timestamp_now
  append_entry-sync = refl

  module _ (whole : s.entry_count < length s.entries) where
    appended-entry : entry_at appended s.entry_count ≡ filled made text
    appended-entry = get_or-set_self s.entries s.entry_count (filled made text) blank_entry whole

    filled-path : (e : Entry) (t : Option (List ℕ)) → (filled e t).path ≡ e.path
    filled-path e none = refl
    filled-path e (some t) = elim (Bool-cases (e.type == b'f')) [
      | inl f ↦ rw f refl
      | inr d ↦ rw d refl
    ]

    new-path : (entry_at appended s.entry_count).path ≡ normalized
    new-path =
        ap (λ e. e.path) appended-entry
        ∙ filled-path made text
        ∙ take_all 63 normalized (omega (arith, (normalize_bounds path normalized proper).1))

    old-path : (k : ℕ) → s.entry_count ≢ k → (entry_at appended k).path ≡ (entry_at s k).path
    old-path k ne =
        ap (λ e. e.path) (get_or-set_ne s.entries s.entry_count k (filled made text) blank_entry ne)

    searched : first_where (has_path s normalized) s.entry_count 0 ≡ none
    unfolding find
    searched = sym (elim-some _ _ (normalize_idem path normalized proper)) ∙ free

    none_before : first_where (has_path appended normalized) s.entry_count 0 ≡ none
    none_before = elim (Option-cases (first_where (has_path appended normalized) s.entry_count 0)) [
      | inl e ↦ e
      | inr (j, found) ↦
          let first = first_where-IsFirst (has_path appended normalized) s.entry_count 0 j found in
          let below : j < s.entry_count = omega (arith, first.below) in
          let old : has_path s normalized j ≡ true =
            ap (λ p. equal p normalized) (sym (old-path j (λ e. omega arith))) ∙ first.holds in
          let miss =
            first_where-none (has_path s normalized) s.entry_count 0 j searched (omega arith)
              (omega arith) in
          absurd (ground (arith, old, miss))
    ]

    find-appended : find appended path ≡ some s.entry_count
    unfolding find
    find-appended =
        elim-some _ _ proper
        ∙ first_where-last (has_path appended normalized) s.entry_count 0 none_before
            (ap (has_path appended normalized) from_zero ∙ eq→equal _ _ new-path)
        ∙ ap some from_zero
      where
        from_zero : 0 + s.entry_count ≡ s.entry_count
        from_zero = omega arith

    -- On a mounted storage with room in a whole table, creating a file or directory at a free path
    -- other than the root, whose parent is the root or a directory of the table, makes a lookup of
    -- the path give the slot behind all entries, whether saving succeeded or not.
    pub find-create : find (state_of (create path type text s)) path ≡ some s.entry_count
    find-create =
        ap (λ r. find (state_of r) path) (create_in_place ∙ append_entry-sync)
        ∙ find-view (state_of (storage_sync appended)) appended (view-storage_sync appended) path
        ∙ find-appended
