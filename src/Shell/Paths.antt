-- ===== src/Shell/Paths.antt =====
-- The paths of src/apps/shell/shell.c.
use project_orange_tea.Base.{
  ℕ, ◌+◌, ◌-◌, Bool, false, ◌&&◌, ◌||◌, not, Option, none, some, List, [], ◌∷◌, ◌++◌, ltb, ◌==◌,
  if◌then◌else◌, take, drop, length, codes, is_prefix, char_at,
}
use project_orange_tea.Shell.Words.{copy_string}
use project_orange_tea.Storage.State.{Storage, max_path}
use project_orange_tea.Storage.Run.{Run, done, fail}
use project_orange_tea.Storage.Bytes.{equal}
use project_orange_tea.Storage.Path.{last_name}
use project_orange_tea.Storage.Info.{EntryInfo, storage_get_entry_info}
use project_orange_tea.Vfs.{resolve_path}

-- `shell_set_current_dir`
abbrev pub set_current_dir : List ℕ → List ℕ
set_current_dir path = take (max_path - 1) path

-- `shell_resolve_path`, from the current directory
abbrev pub shell_resolve_path : List ℕ → List ℕ → ℕ → Option (List ℕ)
shell_resolve_path current_dir path max_len = resolve_path current_dir path max_len

-- what `shell_print_drive_path` prints
abbrev pub drive_path : List ℕ → List ℕ
drive_path current_dir =
    if equal current_dir (codes "/C:")
    then codes "C:/"
    else if is_prefix (codes "/C:/") current_dir
    then codes "C:" ++ drop 3 current_dir
    else current_dir

-- the path ends, or a slash follows, where the prefix ends
abbrev pub is_at_end : List ℕ → ℕ → Bool
is_at_end path n = char_at path n == 0 || char_at path n == b'/'

abbrev pub is_in_tree : List ℕ → List ℕ → Bool
is_in_tree path tree = is_prefix tree path && is_at_end path (length tree)

abbrev pub protected_trees : List (List ℕ)
protected_trees =
    codes "/C:/System"
    ∷ codes "/C:/Program Files"
    ∷ codes "/C:/ProgramData"
    ∷ codes "/C:/Recovery"
    ∷ codes "/C:/menu"
    ∷ codes "/C:/user"
    ∷ []

abbrev pub protected_directories : List (List ℕ)
protected_directories =
    codes "/"
    ∷ codes "/C:"
    ∷ codes "/C:/Users"
    ∷ codes "/C:/Users/Guest"
    ∷ codes "/C:/Users/admin"
    ∷ []

-- a loop that returns 1 on the first hit
abbrev pub any_of : (List ℕ → Bool) → List (List ℕ) → Bool
any_of test [] = false
any_of test (path ∷ paths) = test path || any_of test paths

unfoldable pub path_is_protected : List ℕ → Bool
unfolding equal
path_is_protected path =
    any_of (is_in_tree path) protected_trees || any_of (equal path) protected_directories

unfoldable pub path_contains : List ℕ → List ℕ → Bool
path_contains parent path =
    is_prefix parent path
    && (char_at path (length parent) == 0
        || char_at path (length parent) == b'/' && ltb 0 (length parent))

abbrev pub basename : List ℕ → List ℕ
basename path = last_name path path

abbrev pub is_directory : {Disk : Type 0} → Run Disk EntryInfo → Bool
is_directory (done info s) = info.type == b'd'
is_directory (fail e s) = false

-- a name in a directory, with no second slash behind the root
abbrev pub joined : List ℕ → List ℕ → ℕ → List ℕ
joined target name max_len =
    let front =
      (if ltb 1 (length target)
        then copy_string target max_len ++ (b'/' ∷ [])
        else copy_string target max_len) in
    front ++ copy_string name (max_len - length front)

-- `shell_join_target`: the target, or the source's name in it where it is a directory
unfoldable pub join_target : {Disk : Type 0} → Storage Disk → List ℕ → List ℕ → ℕ → Option (List ℕ)
unfolding storage_get_entry_info last_name
join_target s source target max_len =
    if not (is_directory (storage_get_entry_info target s))
    then some (copy_string target max_len)
    else if ltb max_len (length target + length (basename source) + 2)
    then none
    else some (joined target (basename source) max_len)
