-- ===== src/Shell/Alias.antt =====
-- The aliases of src/apps/shell/shell.c: up to 8 texts of the form name=value, in arrays of 128.
-- The list holds the live ones, so its length is `alias_count`.
use project_orange_tea.Base.{
  ℕ, zero, suc, ◌+◌, ◌-◌, ◌||◌, not, Option, none, some, List, [], ◌∷◌, ◌++◌, ltb, leb, ◌==◌,
  if◌then◌else◌, take, length,
}
use project_orange_tea.Shell.Words.{copy_string, skip_spaces, read_token}

abbrev pub max_aliases : ℕ
max_aliases = 8

-- the text that the two loops write
abbrev pub alias_text : List ℕ → List ℕ → List ℕ
alias_text name value = let kept = take 126 name in kept ++ (b'=' ∷ take (126 - length kept) value)

unfoldable pub add_alias : List (List ℕ) → List ℕ → List ℕ → List (List ℕ)
add_alias aliases name value =
    if leb max_aliases (length aliases) then aliases else aliases ++ (alias_text name value ∷ [])

-- The value of an alias, where the name is its own. The loop takes `rounds` characters at most.
unfoldable pub alias_value : ℕ → List ℕ → List ℕ → Option (List ℕ)
alias_value rounds [] name = none
alias_value rounds (c ∷ alias) [] = if c == b'=' then some alias else none
alias_value zero (c ∷ alias) (n ∷ name) = none
alias_value (suc rounds) (c ∷ alias) (n ∷ name) =
    let rest = alias_value rounds alias name in if c == b'=' || not (c == n) then none else rest

-- `shell_lookup_alias`: the first alias with the name decides
unfoldable pub lookup_alias : List (List ℕ) → List ℕ → ℕ → Option (List ℕ)
unfolding alias_value
lookup_alias [] name max_len = none
lookup_alias (alias ∷ aliases) name max_len =
    let rest = lookup_alias aliases name max_len in
    elim (alias_value (max_len - 1) alias name) [
      | none ↦ rest
      | some value ↦ some (copy_string value max_len)
    ]

-- the value, and behind a space what followed the name, as far as there is room
abbrev pub with_arguments : List ℕ → List ℕ → ℕ → List ℕ
with_arguments output [] max_len = output
with_arguments output (c ∷ arguments) max_len =
    if ltb (length output) (max_len - 1)
    then output ++ (b' ' ∷ copy_string (c ∷ arguments) (max_len - (length output + 1)))
    else output

abbrev pub expand_token : List (List ℕ) → List ℕ × List ℕ → ℕ → Option (List ℕ)
expand_token aliases ([], cursor) max_len = none
expand_token aliases (c ∷ token, cursor) max_len = elim (lookup_alias aliases (c ∷ token) 128) [
  | none ↦ none
  | some value ↦ some (with_arguments (copy_string value max_len) (skip_spaces cursor) max_len)
]

-- `shell_expand_alias`; `none` is its 0
unfoldable pub expand_alias : List (List ℕ) → List ℕ → ℕ → Option (List ℕ)
unfolding lookup_alias read_token
expand_alias aliases input max_len = expand_token aliases (read_token input 128) max_len
