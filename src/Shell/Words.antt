-- ===== src/Shell/Words.antt =====
-- The words of a command line in src/apps/shell/shell.c. A text is the list of its characters
-- without the NUL.
use project_orange_tea.Base.{
  ℕ, ◌-◌, Bool, ◌||◌, not, List, [], ◌∷◌, ◌==◌, if◌then◌else◌, take, drop, length, take_while,
  drop_while,
}

-- `shell_copy_string` into an array of `max_len` characters
abbrev pub copy_string : List ℕ → ℕ → List ℕ
copy_string text max_len = take (max_len - 1) text

abbrev pub is_space : ℕ → Bool
is_space c = c == b' ' || c == b'\t'

abbrev pub not_space : ℕ → Bool
not_space c = not (is_space c)

abbrev pub skip_spaces : List ℕ → List ℕ
skip_spaces text = drop_while is_space text

-- what a loop into an array takes, and what it leaves
abbrev pub taken : (ℕ → Bool) → ℕ → List ℕ → List ℕ × List ℕ
taken test max_len text =
    let word = take (max_len - 1) (take_while test text) in (word, drop (length word) text)

unfoldable pub read_token : List ℕ → ℕ → List ℕ × List ℕ
read_token text max_len = taken not_space max_len (skip_spaces text)

abbrev pub is_quote : ℕ → Bool
is_quote c = c == b'"' || c == b'\''

abbrev pub skip_quote : ℕ → List ℕ → List ℕ
skip_quote quote [] = []
skip_quote quote (c ∷ text) = if c == quote then text else c ∷ text

-- a word up to the quote that it began with
abbrev pub quoted : ℕ → List ℕ → ℕ → List ℕ × List ℕ
quoted quote text max_len =
    let (word, left) = taken (λ c. not (c == quote)) max_len text in (word, skip_quote quote left)

abbrev pub word_at : List ℕ → ℕ → List ℕ × List ℕ
word_at [] max_len = ([], [])
word_at (c ∷ text) max_len =
    if is_quote c then quoted c text max_len else taken not_space max_len (c ∷ text)

unfoldable pub read_word : List ℕ → ℕ → List ℕ × List ℕ
read_word text max_len = word_at (skip_spaces text) max_len

-- nothing but spaces
abbrev pub is_bare : List ℕ → Bool
is_bare text = length (skip_spaces text) == 0
