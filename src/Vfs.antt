-- ===== src/Vfs.antt =====
-- src/fs/vfs/vfs.c: `vfs_resolve_path`, which makes a path absolute before it reaches the storage.
-- The pointers are never null. The other functions hand their arguments to
-- src/fs/storage/storage.c.
pub mod Resolve
pub mod Tests
use project_orange_tea.Base.{
  ℕ, zero, suc, ◌+◌, ◌-◌, ◌≤◌, ◌<◌, Bool, true, false, ◌&&◌, ◌||◌, not, Option, none, some, List,
  [], ◌∷◌, ◌++◌, map, ltb, leb, ◌==◌, if◌then◌else◌, get_or, take, drop, length,
}
use project_orange_tea.Storage.State.{max_path}
use project_orange_tea.Storage.Bytes.{equal}
use project_orange_tea.Storage.Path.{
  Output, root, dot, dot_dot, slash, words_from, pop_word, with_separator, output,
}

abbrev pub is_separator : ℕ → Bool
is_separator c = c == b'/' || c == b'\\'

-- the character at a place, the NUL at the end included
abbrev pub char_at : List ℕ → ℕ → ℕ
char_at text i = get_or text i 0

abbrev pub is_drive_path : List ℕ → Bool
is_drive_path path = (char_at path 0 == b'C' || char_at path 0 == b'c') && char_at path 1 == b':'

abbrev pub is_letter : ℕ → Bool
is_letter c = leb b'A' c && leb c b'Z' || leb b'a' c && leb c b'z'

-- a drive other than C:
abbrev pub is_foreign_drive : List ℕ → Bool
is_foreign_drive path =
    char_at path 1 == b':' && is_letter (char_at path 0) && not (is_drive_path path)

abbrev pub to_slash : ℕ → ℕ
to_slash c = if is_separator c then b'/' else c

-- `while (vfs_is_separator(...)) start++;`
pub skip_separators : List ℕ → List ℕ
skip_separators [] = []
skip_separators (c ∷ path) =
    let rest = skip_separators path in if is_separator c then rest else c ∷ path

-- `combined` has room for 127 characters and a NUL.
abbrev pub bounded : List ℕ → Option (List ℕ)
bounded text = if ltb 127 (length text) then none else some text

abbrev pub drive : List ℕ
drive = b'/' ∷ b'C' ∷ b':' ∷ []

abbrev pub on_drive : List ℕ → List ℕ
on_drive path = drive ++ map to_slash (skip_separators path)

-- the working directory is on the drive
abbrev pub cwd_on_drive : List ℕ → Bool
cwd_on_drive cwd = is_drive_path cwd || char_at cwd 0 == b'/' && is_drive_path (drop 1 cwd)

abbrev pub names_drive : List ℕ → Bool
names_drive path =
    is_drive_path path || is_separator (char_at path 0) && is_drive_path (drop 1 path)

-- `drive_root`
abbrev pub is_drive_root : List ℕ → List ℕ → Bool
is_drive_root cwd path = names_drive path || cwd_on_drive cwd

-- a separator goes behind `combined`, unless there is one; `[]` gets one too
pub ends_with_separator : List ℕ → Bool
ends_with_separator [] = false
ends_with_separator (c ∷ []) = is_separator c
ends_with_separator (c ∷ d ∷ rest) = ends_with_separator (d ∷ rest)

abbrev pub closed_directory : List ℕ → List ℕ
closed_directory text = if ends_with_separator text then text else text ++ slash

-- the working directory in `combined`: behind its drive, or whole
abbrev pub directory_text : Bool → List ℕ → List ℕ
directory_text on_c cwd =
    if on_c then on_drive (drop (if char_at cwd 0 == b'/' then 3 else 2) cwd) else map to_slash cwd

abbrev pub relative_text : Bool → List ℕ → List ℕ → Option (List ℕ)
relative_text on_c cwd path =
    if ltb 127 (length cwd) || ltb 127 (length path) || leb 128 (length cwd + length path + 2)
    then none
    else if ltb 127 (length (directory_text on_c cwd))
    then none
    else some (closed_directory (directory_text on_c cwd) ++ map to_slash path)

-- what `combined` holds once the path and the working directory are put together
unfoldable pub combine : List ℕ → List ℕ → Option (List ℕ)
unfolding skip_separators ends_with_separator
combine cwd path =
    if is_drive_path path
    then bounded (on_drive (drop 2 path))
    else if is_separator (char_at path 0) && is_drive_path (drop 1 path)
    then bounded (on_drive (drop 3 path))
    else if is_separator (char_at path 0)
    then bounded (if cwd_on_drive cwd then on_drive path else map to_slash path)
    else relative_text (cwd_on_drive cwd) cwd path

-- where the components start: the root, or the drive, which `..` does not leave
abbrev pub drive_output : Output
drive_output = record { out = drive; starts = 1 ∷ [] }

abbrev pub separator_size : List ℕ → ℕ
separator_size out = if ltb 1 (length out) then 1 else 0

abbrev pub no_room : ℕ → Output → List ℕ → Bool
no_room capacity o word =
    leb 16 (length word)
    || leb 32 (length o.starts)
    || leb max_path (length o.out + separator_size o.out + length word)
    || leb capacity (length o.out + separator_size o.out + length word)

abbrev pub back : ℕ → Output → Output
back floor o = if ltb floor (length o.starts) then pop_word o o.starts else o

-- one round of the loop over the components; `floor` is how many of them `..` leaves
unfoldable pub resolve_step : ℕ → ℕ → Output → List ℕ → Option Output
unfolding pop_word equal
resolve_step capacity floor o word =
    if equal word dot
    then some o
    else if equal word dot_dot
    then some (back floor o)
    else if no_room capacity o word
    then none
    else some (record { out = with_separator o.out ++ word; starts = length o.out ∷ o.starts })

unfoldable pub resolve_words : ℕ → ℕ → Output → List (List ℕ) → Option Output
unfolding resolve_step
resolve_words capacity floor o [] = some o
resolve_words capacity floor o (word ∷ words) = elim (resolve_step capacity floor o word) [
  | none ↦ none
  | some o' ↦ resolve_words capacity floor o' words
]

-- All separators in `combined` are slashes, so the components are those of the storage's loop.
abbrev pub resolved : ℕ → Bool → List ℕ → Option Output
resolved capacity on_c text =
    if on_c
    then resolve_words capacity 1 drive_output (words_from [] (drop 3 text))
    else resolve_words capacity 0 root (words_from [] text)

-- `none` is STORAGE_ERR_INVAL.
unfoldable pub resolve_path : List ℕ → List ℕ → ℕ → Option (List ℕ)
unfolding combine resolve_words words_from
resolve_path cwd path capacity =
    if ltb capacity 2 || length path == 0 || is_foreign_drive path
    then none
    else elim (combine cwd path) [
      | none ↦ none
      | some text ↦ output (resolved capacity (is_drive_root cwd path) text)
    ]
