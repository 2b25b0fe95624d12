-- ===== src/Shell/Create.antt =====
-- `shell_create_command`, `shell_mkdir_command`, `shell_read_editor_line` and
-- `shell_directory_has_child` of src/apps/shell/shell.c. What a command prints is its outcome.
pub mod Parents
use project_orange_tea.Base.{
  ℕ, zero, suc, ◌+◌, ◌-◌, Bool, true, false, ◌&&◌, ◌||◌, not, Option, none, some, List, [], ◌∷◌,
  ◌++◌, ltb, leb, ◌==◌, if◌then◌else◌, take, drop, length, codes, is_prefix, char_at, take_while,
  drop_while,
}
use project_orange_tea.Shell.Words.{skip_spaces, read_word, is_space, is_bare}
use project_orange_tea.Shell.Paths.{shell_resolve_path}
use project_orange_tea.Storage.State.{Status, Storage, max_path}
use project_orange_tea.Storage.Run.{Run, done, fail, Cmd, Void}
use project_orange_tea.Storage.Bytes.{equal}
use project_orange_tea.Storage.Files.{storage_mkdir, storage_create_file}
use project_orange_tea.Storage.Info.{EntryInfo, storage_get_entry_info, vfs_readdir}

-- what a command says
pub data Outcome : Type 0 where
  usage invalid_path too_long not_directory : Outcome
  created : List ℕ → Outcome
  refused : Status → Outcome

-- the text between quotes of one kind, or the text itself
abbrev pub last_of : ℕ → List ℕ → ℕ
last_of c [] = c
last_of c (d ∷ text) = last_of d text

abbrev pub unquoted : List ℕ → List ℕ
unquoted [] = []
unquoted (c ∷ []) = c ∷ []
unquoted (c ∷ d ∷ text) =
    if (c == b'"' || c == b'\'') && last_of d text == c
    then take (length text) (d ∷ text)
    else c ∷ d ∷ text

-- a text without the spaces behind it
abbrev pub trim_onto_space : ℕ → List ℕ → List ℕ
trim_onto_space c [] = if is_space c then [] else c ∷ []
trim_onto_space c (d ∷ rest) = c ∷ d ∷ rest

abbrev pub trim_spaces : List ℕ → List ℕ
trim_spaces [] = []
trim_spaces (c ∷ text) = trim_onto_space c (trim_spaces text)

abbrev pub not_arrow : ℕ → Bool
not_arrow c = not (c == b'>')

-- the contents and the path that `create file` is given, where it is used as it should
pub data FileRequest : Type 0 where
  bad_use over_long : FileRequest
  file_request : List ℕ → List ℕ → FileRequest

abbrev pub with_path : List ℕ → Bool → List ℕ × List ℕ → FileRequest
with_path content path_needed (path, left) =
    if path_needed && length path == 0 || not (is_bare left)
    then bad_use
    else file_request content path

-- by what stands from the arrow on
abbrev pub request_at : List ℕ → List ℕ → FileRequest
request_at cursor [] = with_path [] true (read_word cursor max_path)
request_at cursor (_ ∷ target) =
    let content = unquoted (trim_spaces (skip_spaces (take_while not_arrow cursor))) in
    if leb 256 (length content)
    then over_long
    else with_path content false (read_word target max_path)

unfoldable pub file_request_of : List ℕ → FileRequest
unfolding read_word
file_request_of cursor = request_at cursor (drop_while not_arrow cursor)

-- the directories that `mkdir -p` asks for, by what stands before and behind a place in the path
unfoldable pub components_from : List ℕ → List ℕ → List (List ℕ)
components_from before [] = []
components_from before (c ∷ rest) =
    let further = components_from (before ++ (c ∷ [])) rest in
    if c == b'/' || length rest == 0 then before ∷ further else further

abbrev pub components : List ℕ → List (List ℕ)
components path = components_from (take 1 path) (drop 1 path)

abbrev pub is_recursive : List ℕ → Bool
is_recursive cursor = is_prefix (codes "-p") cursor && is_space (char_at cursor 2)

module _ {Disk : Type 0} where
  abbrev pub outcome_of : List ℕ → Run Disk Void → Outcome × Storage Disk
  outcome_of path (done _ s) = (created path, s)
  outcome_of path (fail e s) = (refused e, s)

  abbrev pub create_file_at : List ℕ → Option (List ℕ) → Storage Disk → Outcome × Storage Disk
  create_file_at content none s = (invalid_path, s)
  create_file_at content (some path) s = outcome_of path (storage_create_file path content s)

  abbrev pub make_directory_at : Option (List ℕ) → Storage Disk → Outcome × Storage Disk
  make_directory_at none s = (invalid_path, s)
  make_directory_at (some path) s = outcome_of path (storage_mkdir path s)

  abbrev pub create_requested : List ℕ → FileRequest → Storage Disk → Outcome × Storage Disk
  create_requested cwd bad_use s = (usage, s)
  create_requested cwd over_long s = (too_long, s)
  create_requested cwd (file_request content path) s =
      create_file_at content (shell_resolve_path cwd path max_path) s

  abbrev pub make_named : List ℕ → List ℕ × List ℕ → Storage Disk → Outcome × Storage Disk
  make_named cwd (path, left) s =
      if length path == 0 || not (is_bare left)
      then (usage, s)
      else make_directory_at (shell_resolve_path cwd path max_path) s

  abbrev pub create_kind : List ℕ → List ℕ × List ℕ → Storage Disk → Outcome × Storage Disk
  create_kind cwd (kind, cursor) s =
      if equal kind (codes "file")
      then create_requested cwd (file_request_of (skip_spaces cursor)) s
      else if equal kind (codes "folder") || equal kind (codes "directory")
      then make_named cwd (read_word (skip_spaces cursor) max_path) s
      else (usage, s)

  -- `shell_create_command`, in a current directory
  unfoldable pub create_command : List ℕ → List ℕ → Storage Disk → Outcome × Storage Disk
  unfolding file_request_of storage_mkdir storage_create_file
  create_command cwd arguments s = create_kind cwd (read_word arguments 16) s

  abbrev pub make_missing :
      (Storage Disk → Outcome × Storage Disk) → Run Disk Void → Outcome × Storage Disk
  make_missing more (done _ s) = more s
  make_missing more (fail e s) = (refused e, s)

  -- by what is told of a component: one that is not there is made
  abbrev pub make_component :
      (Storage Disk → Outcome × Storage Disk) → List ℕ → Run Disk EntryInfo → Outcome × Storage Disk
  make_component more path (done info s) = if info.type == b'd' then more s else (not_directory, s)
  make_component more path (fail _ s) = make_missing more (storage_mkdir path s)

  -- the loop of `mkdir -p`
  unfoldable pub make_components : List ℕ → List (List ℕ) → Storage Disk → Outcome × Storage Disk
  unfolding storage_get_entry_info storage_mkdir
  make_components path [] s = if length path == 1 then (invalid_path, s) else (created path, s)
  make_components path (component ∷ further) s =
      make_component (make_components path further) component (storage_get_entry_info component s)

  abbrev pub make_all_at : Option (List ℕ) → Storage Disk → Outcome × Storage Disk
  make_all_at none s = (invalid_path, s)
  make_all_at (some path) s = make_components path (components path) s

  abbrev pub make_all_named : List ℕ → List ℕ × List ℕ → Storage Disk → Outcome × Storage Disk
  make_all_named cwd (path, left) s =
      if length path == 0 || not (is_bare left)
      then (usage, s)
      else make_all_at (shell_resolve_path cwd path max_path) s

  abbrev pub mkdir_at : List ℕ → List ℕ → Storage Disk → Outcome × Storage Disk
  mkdir_at cwd cursor s =
      if is_recursive cursor
      then make_all_named cwd (read_word (skip_spaces (drop 2 cursor)) max_path) s
      else make_named cwd (read_word cursor max_path) s

  -- `shell_mkdir_command`
  unfoldable pub mkdir_command : List ℕ → List ℕ → Storage Disk → Outcome × Storage Disk
  unfolding make_components components_from read_word
  mkdir_command cwd arguments s = mkdir_at cwd (skip_spaces arguments) s

-- `shell_read_editor_line`: the line, and the keys behind it; `none` while no newline has come
abbrev pub without_last : List ℕ → List ℕ
without_last [] = []
without_last (c ∷ []) = []
without_last (c ∷ d ∷ line) = c ∷ without_last (d ∷ line)

unfoldable pub read_editor_line : ℕ → List ℕ → List ℕ → Option (List ℕ × List ℕ)
read_editor_line capacity line [] = none
read_editor_line capacity line (key ∷ keys) =
    let erased = read_editor_line capacity (without_last line) keys in
    let kept = read_editor_line capacity line keys in
    let more = read_editor_line capacity (line ++ (key ∷ [])) keys in
    if key == b'\n'
    then some (line, keys)
    else if key == 8
    then erased
    else if ltb key 32 || ltb 126 key || leb capacity (length line + 1)
    then kept
    else more
