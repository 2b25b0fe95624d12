-- ===== src/Storage/Path/Normal.antt =====
-- `normalize` of src/fs/storage/storage.c: what a normal path is, and that normalising gives one.
use mathlib.Core.Path.{subst}
use mathlib.Core.List.{append_assoc}
use project_orange_tea.Base.{
  ℕ, suc, ◌+◌, ◌<◌, ◌≡◌, refl, sym, ap, ◌∙◌, ◌⊎◌, inl, inr, Bool, true, false, ◌||◌, Option, none,
  some, List, [], ◌∷◌, ◌++◌, ltb, leb, ◌==◌, if◌then◌else◌, length, take, take-append, Bool-cases,
  Option-cases, arith,
}
use project_orange_tea.Storage.State.{max_path}
use project_orange_tea.Storage.Bytes.{equal}
use project_orange_tea.Storage.Path.{
  word_end, words_from, Output, dot, dot_dot, slash, pop_word, with_separator, normalize_step,
  normalize_words,
}

-- the path of a stack of components, the last one first
unfoldable pub render : List (List ℕ) → List ℕ
render [] = slash
render (word ∷ stack) = with_separator (render stack) ++ word

unfoldable pub starts_of : List (List ℕ) → List ℕ
starts_of [] = []
starts_of (word ∷ stack) = length (render stack) ∷ starts_of stack

abbrev pub output_of : List (List ℕ) → Output
output_of stack = record { out = render stack; starts = starts_of stack }

abbrev pub pop_stack : List (List ℕ) → List (List ℕ)
pop_stack [] = []
pop_stack (_ ∷ stack) = stack

-- One round of the loop over a stack of components: what `normalize` means to do.
unfoldable pub stack_step : List (List ℕ) → List ℕ → Option (List (List ℕ))
stack_step stack word =
    if equal word dot
    then some stack
    else if equal word dot_dot
    then some (pop_stack stack)
    else if leb 16 (length word)
        || length stack == 32
        || leb max_path (length (render stack) + length word + 1)
    then none
    else some (word ∷ stack)

unfoldable pub stack_words : List (List ℕ) → List (List ℕ) → Option (List (List ℕ))
stack_words stack [] = some stack
stack_words stack (word ∷ words) = elim (stack_step stack word) [
  | none ↦ none
  | some stack' ↦ stack_words stack' words
]

length-starts_of : (stack : List (List ℕ)) → length (starts_of stack) ≡ length stack
unfolding starts_of
length-starts_of [] = refl
length-starts_of (_ ∷ stack) = ap suc (length-starts_of stack)

take-with_separator : (out word : List ℕ) → take (length out) (with_separator out ++ word) ≡ out
take-with_separator out word = elim (Bool-cases (ltb 1 (length out))) [
  | inl long ↦ rw (long, append_assoc) (take-append out (slash ++ word) (length out) refl)
  | inr short ↦ rw short (take-append out word (length out) refl)
]

pop_word-render :
    (stack : List (List ℕ))
    → pop_word (output_of stack) (starts_of stack) ≡ output_of (pop_stack stack)
unfolding pop_word starts_of render
pop_word-render [] = refl
pop_word-render (word ∷ stack) =
    ap (λ out. record { out = out; starts = starts_of stack })
      (take-with_separator (render stack) word)

abbrev pub map_output : Option (List (List ℕ)) → Option Output
map_output none = none
map_output (some stack) = some (output_of stack)

step-stack :
    (stack : List (List ℕ)) (word : List ℕ)
    → normalize_step (output_of stack) word ≡ map_output (stack_step stack word)
unfolding normalize_step stack_step starts_of render
step-stack stack word = ground (arith, length-starts_of stack, pop_word-render stack)

pub words-stack :
    (stack words : List (List ℕ))
    → normalize_words (output_of stack) words ≡ map_output (stack_words stack words)
unfolding normalize_words stack_words
words-stack stack [] = refl
words-stack stack (word ∷ words) = elim (Option-cases (stack_step stack word)) [
  | inl refused ↦
      let same : normalize_step (output_of stack) word ≡ none =
        step-stack stack word ∙ ap map_output refused in
      rw (same, refused, normalize_words, stack_words)
  | inr (stack', taken) ↦
      let same : normalize_step (output_of stack) word ≡ some (output_of stack') =
        step-stack stack word ∙ ap map_output taken in
      rw (same, taken, normalize_words, stack_words) (words-stack stack' words)
]

abbrev pub no_slash : List ℕ → Bool
no_slash [] = true
no_slash (c ∷ cs) = if c == b'/' then false else no_slash cs

-- What `components` gives: not empty and without a slash.
pub record IsWord (word : List ℕ) : Type 0 where
  pub nonempty : 0 < length word
  pub slashless : no_slash word ≡ true

abbrev pub AllWords : List (List ℕ) → Type 0
AllWords [] = Unit {0}
AllWords (word ∷ words) = IsWord word × AllWords words

no_slash-append :
    (xs ys : List ℕ) → no_slash xs ≡ true → no_slash ys ≡ true → no_slash (xs ++ ys) ≡ true
no_slash-append [] ys h k = k
no_slash-append (x ∷ xs) ys h k = ground (arith, no_slash-append xs ys)

word_end-AllWords :
    (word : List ℕ) (rest : List (List ℕ))
    → no_slash word ≡ true
    → AllWords rest
    → AllWords (word_end word rest)
word_end-AllWords [] rest h all = all
word_end-AllWords (c ∷ cs) rest h all = (record { nonempty = omega arith; slashless = h }, all)

pub words_from-AllWords :
    (word path : List ℕ) → no_slash word ≡ true → AllWords (words_from word path)
unfolding words_from
words_from-AllWords word [] h = word_end-AllWords word [] h tt
words_from-AllWords word (c ∷ path) h = elim (Bool-cases (c == b'/')) [
  | inl end ↦
      rw end (word_end-AllWords word (words_from [] path) h (words_from-AllWords [] path refl))
  | inr inside ↦
      rw inside (
        words_from-AllWords (word ++ (c ∷ [])) path
          (no_slash-append word (c ∷ []) h (ground arith)))
]

-- A stack that `normalize` builds: each component was accepted on top of those before it.
abbrev pub NormalStack : List (List ℕ) → Type 0
NormalStack [] = Unit {0}
NormalStack (word ∷ stack) =
    IsWord word × (stack_step stack word ≡ some (word ∷ stack)) × NormalStack stack

-- Where a word is accepted, what the step gave.
record StepGives (stack : List (List ℕ)) (word : List ℕ) (stack' : List (List ℕ)) : Type 0 where
  gives : (stack' ≡ stack) ⊎ (stack' ≡ pop_stack stack) ⊎ (stack' ≡ word ∷ stack)

step-StepGives :
    (stack stack' : List (List ℕ)) (word : List ℕ)
    → stack_step stack word ≡ some stack'
    → StepGives stack word stack'
unfolding stack_step
step-StepGives stack stack' word h = elim (Bool-cases (equal word dot)) [
  | inl d ↦ record { gives = inl (ground arith) }
  | inr nd ↦ elim (Bool-cases (equal word dot_dot)) [
    | inl dd ↦ record { gives = inr (inl (ground arith)) }
    | inr ndd ↦ record { gives = inr (inr (ground arith)) }
  ]
]

pop-NormalStack : (stack : List (List ℕ)) → NormalStack stack → NormalStack (pop_stack stack)
pop-NormalStack [] n = n
pop-NormalStack (_ ∷ stack) (w, e, n) = n

pub step-NormalStack :
    (stack stack' : List (List ℕ)) (word : List ℕ)
    → IsWord word
    → NormalStack stack
    → stack_step stack word ≡ some stack'
    → NormalStack stack'
step-NormalStack stack stack' word w n h = elim (step-StepGives stack stack' word h).gives [
  | inl same ↦ subst NormalStack (sym same) n
  | inr (inl popped) ↦ subst NormalStack (sym popped) (pop-NormalStack stack n)
  | inr (inr pushed) ↦ subst NormalStack (sym pushed) (w, h ∙ ap some pushed, n)
]

pub words-NormalStack :
    (stack stack' words : List (List ℕ))
    → AllWords words
    → NormalStack stack
    → stack_words stack words ≡ some stack'
    → NormalStack stack'
unfolding stack_words
words-NormalStack stack stack' [] all n h = subst NormalStack (cc) n
words-NormalStack stack stack' (word ∷ words) (w, all) n h =
    elim (Option-cases (stack_step stack word)) [
      | inl refused ↦ cc (rw (refused, stack_words) at h)
      | inr (next, taken) ↦
          words-NormalStack next stack' words all (step-NormalStack stack next word w n taken)
            (rw (taken, stack_words) at h)
    ]

-- A word that was pushed left room for itself, a slash and the NUL.
pub pushed_fits :
    (stack : List (List ℕ)) (word : List ℕ)
    → stack_step stack word ≡ some (word ∷ stack)
    → (length (render stack) + length word + 1 < max_path) × (length word < 16)
unfolding stack_step
pushed_fits stack word h = elim (Bool-cases (equal word dot)) [
  | inl d ↦ absurd (not_self (rw d at h))
  | inr nd ↦ elim (Bool-cases (equal word dot_dot)) [
    | inl dd ↦ absurd (not_pop stack (rw (nd, dd) at h))
    | inr ndd ↦ ground arith
  ]
]
  where
    not_self : some stack ≡ some (word ∷ stack) → ⊥
    not_self e = let same : stack ≡ word ∷ stack = cc in omega (arith, ap length same)

    not_pop : (other : List (List ℕ)) → some (pop_stack other) ≡ some (word ∷ other) → ⊥
    not_pop [] e = cc
    not_pop (x ∷ xs) e = let same : xs ≡ word ∷ x ∷ xs = cc in omega (arith, ap length same)
