-- ===== src/Storage/Path.antt =====
-- `normalize` of src/fs/storage/storage.c and the two uses of a path's last slash.
pub mod Normal
pub mod Reading
use project_orange_tea.Base.{
  ℕ, zero, suc, ◌+◌, ◌-◌, ◌≤◌, ◌<◌, Bool, true, false, ◌&&◌, ◌||◌, Option, none, some, List, [],
  ◌∷◌, ◌++◌, ltb, leb, ◌==◌, if◌then◌else◌, length, take,
}
use project_orange_tea.Storage.State.{max_path}
use project_orange_tea.Storage.Bytes.{equal}

abbrev pub word_end : List ℕ → List (List ℕ) → List (List ℕ)
word_end [] rest = rest
word_end (c ∷ cs) rest = (c ∷ cs) ∷ rest

-- The components that the outer loop meets, in order: it skips slashes, stops at the end of the
-- string, and takes what stands before the next slash. `word` is what it has read of one.
unfoldable pub words_from : List ℕ → List ℕ → List (List ℕ)
words_from word [] = word_end word []
words_from word (c ∷ path) =
    let rest = words_from [] path in
    let more = words_from (word ++ (c ∷ [])) path in if c == b'/' then word_end word rest else more

-- what the loop carries: the output so far, and where its components start, the last one first
pub record Output : Type 0 where
  pub out : List ℕ
  pub starts : List ℕ

abbrev pub root : Output
root = record { out = b'/' ∷ []; starts = [] }

abbrev pub dot : List ℕ
dot = b'.' ∷ []

abbrev pub dot_dot : List ℕ
dot_dot = b'.' ∷ b'.' ∷ []

abbrev pub slash : List ℕ
slash = b'/' ∷ []

-- `..`: back to the start of the last component, if there is one
unfoldable pub pop_word : Output → List ℕ → Output
pop_word o [] = o
pop_word o (start ∷ starts) = record { out = take start o.out; starts = starts }

-- the separator goes before a component unless the output is just the root
abbrev pub with_separator : List ℕ → List ℕ
with_separator out = if ltb 1 (length out) then out ++ slash else out

abbrev pub too_long : Output → List ℕ → Bool
too_long o word =
    leb 16 (length word) || length o.starts == 32 || leb max_path (length o.out + length word + 1)

-- one round of the outer loop
unfoldable pub normalize_step : Output → List ℕ → Option Output
unfolding pop_word
normalize_step o word =
    if equal word dot
    then some o
    else if equal word dot_dot
    then some (pop_word o o.starts)
    else if too_long o word
    then none
    else some (record { out = with_separator o.out ++ word; starts = length o.out ∷ o.starts })

unfoldable pub normalize_words : Output → List (List ℕ) → Option Output
normalize_words o [] = some o
normalize_words o (word ∷ words) = elim (normalize_step o word) [
  | none ↦ none
  | some o' ↦ normalize_words o' words
]

abbrev pub output : Option Output → Option (List ℕ)
output none = none
output (some o) = some o.out

-- `none` is STORAGE_ERR_INVAL.
unfoldable pub normalize : List ℕ → Option (List ℕ)
unfolding normalize_words normalize_step words_from equal
normalize [] = none
normalize (c ∷ path) = output (normalize_words root (words_from [] (c ∷ path)))

-- what stands behind the last slash: `for (p = path; *p; p++) if (*p == '/') name = p + 1;`
unfoldable pub last_name : List ℕ → List ℕ → List ℕ
last_name name [] = name
last_name name (c ∷ path) = last_name (if c == b'/' then path else name) path

-- `while (length > 1 && parent[length - 1] != '/') length--;`
unfoldable pub last_slash : List ℕ → ℕ → ℕ
last_slash path zero = zero
last_slash path (suc zero) = suc zero
last_slash path (suc (suc k)) =
    let shorter = last_slash path (suc k) in
    if project_orange_tea.Base.get_or path (suc k) 0 == b'/' then suc (suc k) else shorter

-- The directory that holds `path`; `none` stands for the root.
unfoldable pub parent_path : List ℕ → Option (List ℕ)
unfolding last_slash
parent_path path =
    let parent = take (max_path - 1) path in
    let n = last_slash parent (length parent) in
    if leb n 1 then none else some (take (n - 1) parent)
