-- ===== src/Storage/Info/Listing.antt =====
-- src/fs/storage/storage.c and src/fs/vfs/vfs.c: what `vfs_readdir` gives at each index of a
-- sound table.
use project_orange_tea.Base.{
  ℕ, ◌≤◌, ◌<◌, ◌≡◌, ap, ◌∙◌, true, false, none, some, List, [], leb, ltb, if-true, if-false,
  elim-some, arith, Bool-cases, inl, inr, first_where, first_where_at,
}
use project_orange_tea.Storage.State.{noent, notmounted, inval, Storage, entry_at}
use project_orange_tea.Storage.Run.{done, fail, pure, and_then-done, ◌>>=◌, passes}
use project_orange_tea.Storage.Bytes.{equal}
use project_orange_tea.Storage.Bytes.Layout.{equal→eq, equal_refl}
use project_orange_tea.Storage.Files.{has_path, find}
use project_orange_tea.Storage.Info.{
  info_of, root_info, lookup_info, normal_path, told_info, storage_get_entry_info,
  storage_get_entry_path, vfs_readdir,
}
use project_orange_tea.Storage.Check.Sound.{IsSound}

module _ {Disk : Type 0} (s : Storage Disk) (sound : IsSound s) (i : ℕ)
    (inside : i < s.entry_count) where
  abbrev path : List ℕ
  path = (entry_at s i).path

  other_path : (m : ℕ) → 0 ≤ m → m < i → has_path s path m ≡ false
  other_path m _ less = elim (Bool-cases (equal (entry_at s m).path path)) [
    | inl same ↦ absurd (sound.distinct m i less inside (equal→eq (entry_at s m).path path same))
    | inr differ ↦ differ
  ]

  -- the path of an entry leads to it
  pub find-entry_at : find s path ≡ some i
  unfolding find
  find-entry_at =
      elim-some none (λ normalized. first_where (has_path s normalized) s.entry_count 0)
        ((sound.sound i inside).path_normal)
      ∙ first_where_at (has_path s path) s.entry_count 0 i (omega arith) (omega (arith, inside))
          (equal_refl path) other_path

  info-entry_at : s.mounted ≡ true → storage_get_entry_info path s ≡ done (info_of (entry_at s i)) s
  unfolding storage_get_entry_info
  info-entry_at on =
      and_then-done (λ _. normal_path path >>= told_info)
        (if-true (done tt s) (fail notmounted s) on)
      ∙ and_then-done told_info (
          elim-some (fail inval s) (λ normalized. done normalized s)
            (sound.sound i inside).path_normal)
      ∙ ap (λ m. m s) (if-false (pure root_info) (lookup_info path) (sound.sound i inside).not_root)
      ∙ elim-some (fail noent s) (λ index. done (info_of (entry_at s index)) s) find-entry_at

  -- Of a mounted storage with a sound table, `vfs_readdir` gives at each index in the table what is
  -- told of the entry there, and changes nothing.
  pub vfs_readdir-IsSound : s.mounted ≡ true → vfs_readdir i s ≡ done (info_of (entry_at s i)) s
  unfolding vfs_readdir
  vfs_readdir-IsSound on =
      let below : leb s.entry_count i ≡ false = ground arith in
      let live : ltb i s.entry_count ≡ true = ground arith in
      and_then-done (λ _. storage_get_entry_info (storage_get_entry_path s i))
        (passes s noent (leb s.entry_count i) below)
      ∙ ap (λ p. storage_get_entry_info p s) (if-true path [] live)
      ∙ info-entry_at on
