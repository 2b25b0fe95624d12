-- ===== src/Desktop.antt =====
-- src/ui/core/desktop_storage.c: the directories and files that the desktop sees to at its start.
pub mod Tables
use project_orange_tea.Base.{
  ℕ, zero, suc, ◌+◌, Bool, true, false, ◌&&◌, not, List, [], ◌∷◌, ◌++◌, ltb, leb, ◌==◌,
  if◌then◌else◌, drop, length, codes, is_prefix, all,
}
use project_orange_tea.Desktop.Tables.{Seed, desktop_directories, desktop_tasks}
use project_orange_tea.Storage.State.{inval, noent, exist, notdir, isdir, Storage, max_path}
use project_orange_tea.Storage.Run.{Run, done, fail, Cmd, Void, pure, raise, ◌>>=◌, ◌>>◌}
use project_orange_tea.Storage.Files.{storage_mkdir, storage_create_file}
use project_orange_tea.Storage.Content.{storage_copy}
use project_orange_tea.Storage.Info.{EntryInfo, storage_get_entry_info, vfs_readdir}

-- a directory whose files move to another
pub record Migration : Type 0 where
  pub source : List ℕ
  pub destination : List ℕ

-- `name[position]` runs along the source: the path is the source and a name without a slash in it
abbrev pub not_slash : ℕ → Bool
not_slash c = not (c == b'/')

abbrev pub name_in : List ℕ → List ℕ → List ℕ
name_in source path = drop (length source) path

abbrev pub is_child : List ℕ → List ℕ → Bool
is_child source path =
    is_prefix source path
    && (ltb 0 (length (name_in source path)) && all not_slash (name_in source path))

-- a file that moves
abbrev pub moves : List ℕ → EntryInfo → Bool
moves source info = info.type == b'f' && is_child source info.path

module _ {Disk : Type 0} where
  abbrev pub ensured_directory : List ℕ → Run Disk EntryInfo → Run Disk Void
  ensured_directory path (done info s) = if info.type == b'd' then done tt s else fail notdir s
  ensured_directory path (fail noent s) = storage_mkdir path s
  ensured_directory path (fail e s) = fail e s

  unfoldable pub ensure_directory : List ℕ → Cmd Disk Void
  unfolding storage_get_entry_info storage_mkdir
  ensure_directory path s = ensured_directory path (storage_get_entry_info path s)

  abbrev pub copied : Run Disk Void → Run Disk Void
  copied (done _ s) = done tt s
  copied (fail exist s) = done tt s
  copied (fail e s) = fail e s

  -- the file is copied where the target is not there yet
  abbrev pub copied_if_missing : List ℕ → List ℕ → Run Disk EntryInfo → Run Disk Void
  copied_if_missing path target (done _ s) = done tt s
  copied_if_missing path target (fail noent s) = copied (storage_copy path target s)
  copied_if_missing path target (fail e s) = fail e s

  abbrev pub copy_to : List ℕ → List ℕ → Cmd Disk Void
  copy_to path target s = copied_if_missing path target (storage_get_entry_info target s)

  abbrev pub migrate_named : Migration → List ℕ → Cmd Disk Void
  migrate_named m path s =
      if leb max_path (length m.destination + length (name_in m.source path))
      then fail inval s
      else copy_to path (m.destination ++ name_in m.source path) s

  -- An entry that is not told of, or that does not move, is passed over.
  abbrev pub migrate_told : Migration → Run Disk EntryInfo → Run Disk Void
  migrate_told m (fail _ s) = done tt s
  migrate_told m (done info s) =
      if moves m.source info then migrate_named m info.path s else done tt s

  -- the loop over the entries that were there at first
  unfoldable pub migrate_from : Migration → ℕ → ℕ → Cmd Disk Void
  unfolding storage_get_entry_info storage_copy vfs_readdir
  migrate_from m zero index = pure tt
  migrate_from m (suc rounds) index = do
    (λ s. migrate_told m (vfs_readdir index s))
    migrate_from m rounds (index + 1)

  unfoldable pub migrate_files : Migration → Cmd Disk Void
  unfolding migrate_from
  migrate_files m s = migrate_from m s.entry_count 0 s

  abbrev pub ensured_task : Seed → Run Disk EntryInfo → Run Disk Void
  ensured_task task (done info s) = if info.type == b'f' then done tt s else fail isdir s
  ensured_task task (fail noent s) = storage_create_file task.path task.content s
  ensured_task task (fail e s) = fail e s

  unfoldable pub ensure_task : Seed → Cmd Disk Void
  unfolding storage_get_entry_info storage_create_file
  ensure_task task s = ensured_task task (storage_get_entry_info task.path s)

  -- a loop that stops at the first failure
  unfoldable pub for_all : {A : Type 0} → (A → Cmd Disk Void) → List A → Cmd Disk Void
  for_all call [] = pure tt
  for_all call (x ∷ xs) = do call x; for_all call xs

abbrev pub migrations : List Migration
migrations =
    record { source = codes "/C:/menu/"; destination = codes "/C:/ProgramData/ORTos/Menu/" }
    ∷ record {
      source = codes "/C:/menu/taskbar/";
      destination = codes "/C:/ProgramData/ORTos/Taskbar/";
    }
    ∷ record {
      source = codes "/C:/user/admin/desktop/";
      destination = codes "/C:/Users/admin/Desktop/";
    }
    ∷ record {
      source = codes "/C:/Users/admin/Desktop/";
      destination = codes "/C:/Users/Guest/Desktop/";
    }
    ∷ []

-- `desktop_storage_init`, of any two tables
unfoldable pub init_tables : {Disk : Type 0} → List (List ℕ) → List Seed → Cmd Disk Void
unfolding for_all ensure_directory migrate_files ensure_task
init_tables directories tasks = do
  for_all ensure_directory directories
  for_all migrate_files migrations
  for_all ensure_task tasks

unfoldable pub desktop_storage_init : {Disk : Type 0} → Cmd Disk Void
unfolding init_tables
desktop_storage_init = init_tables desktop_directories desktop_tasks
