-- ===== src/Storage/Path/Reading.antt =====
-- `normalize` of src/fs/storage/storage.c: reading a normal path back, and normalising twice.
use mathlib.Core.List.{reverse-append, append-nil, append_assoc, reverse}
use project_orange_tea.Base.{
  ℕ, ◌+◌, ◌≤◌, ◌<◌, ◌≡◌, refl, sym, ap, ◌∙◌, inl, inr, true, false, Option, none, some, List, [],
  ◌∷◌, ◌++◌, ltb, ◌==◌, length, length-append, lt→ltb, Bool-cases, Option-cases, arith,
}
use project_orange_tea.Storage.State.{max_path}
use project_orange_tea.Storage.Path.{
  word_end, words_from, root, slash, output, with_separator, normalize_words, normalize,
}
use project_orange_tea.Storage.Path.Normal.{
  render, starts_of, pushed_fits, output_of, map_output, stack_step, stack_words, words-stack,
  IsWord, no_slash, words_from-AllWords, NormalStack, words-NormalStack,
}

-- A word is read whole up to the end of the path or the next slash.
words_from-word :
    (read word rest : List ℕ)
    → no_slash word ≡ true
    → words_from read (word ++ rest) ≡ words_from (read ++ word) rest
unfolding words_from
words_from-word read [] rest h = rw append-nil
words_from-word read (c ∷ word) rest h =
    let inside : (c == b'/') ≡ false = ground arith in
    rw inside (
      words_from-word (read ++ (c ∷ [])) word rest (rw inside at h)
      ∙ ap (λ l. words_from l rest) (append_assoc read (c ∷ []) word))

word_end-IsWord :
    (word : List ℕ) (rest : List (List ℕ)) → 0 < length word → word_end word rest ≡ word ∷ rest
word_end-IsWord [] rest h = absurd (omega arith)
word_end-IsWord (c ∷ cs) rest h = refl

words_from-slash :
    (word rest : List ℕ)
    → IsWord word
    → words_from [] (word ++ (b'/' ∷ rest)) ≡ word ∷ words_from [] rest
unfolding words_from
words_from-slash word rest w =
    words_from-word [] word (b'/' ∷ rest) w.slashless
    ∙ word_end-IsWord word (words_from [] rest) w.nonempty

words_from-end : (word : List ℕ) → IsWord word → words_from [] word ≡ word ∷ []
unfolding words_from
words_from-end word w =
    ap (words_from []) (sym (append-nil word))
    ∙ words_from-word [] word [] w.slashless
    ∙ word_end-IsWord word [] w.nonempty

length-with_separator : (out : List ℕ) → length out ≤ length (with_separator out)
length-with_separator out = elim (Bool-cases (ltb 1 (length out))) [
  | inl long ↦ rw long (omega (arith, length-append out slash))
  | inr short ↦ rw short (omega arith)
]

length-render : (stack : List (List ℕ)) → 1 ≤ length (render stack)
unfolding render
length-render [] = omega arith
length-render (word ∷ stack) = omega (
  arith,
  length-append (with_separator (render stack)) word,
  length-with_separator (render stack),
  length-render stack,
)

length-render-cons :
    (word : List ℕ) (stack : List (List ℕ)) → 0 < length word → 1 < length (render (word ∷ stack))
unfolding render
length-render-cons word stack h = omega (
  arith,
  length-append (with_separator (render stack)) word,
  length-with_separator (render stack),
  length-render stack,
)

words_from-separated :
    (stack : List (List ℕ)) (rest : List ℕ)
    → NormalStack stack
    → ((rest : List ℕ)
        → words_from [] (render stack ++ (b'/' ∷ rest)) ≡ reverse stack ++ words_from [] rest)
    → words_from [] (with_separator (render stack) ++ rest) ≡ reverse stack ++ words_from [] rest
unfolding words_from render
words_from-separated [] rest n whole = refl
words_from-separated (word ∷ stack) rest (w, e, n) whole =
    let long : ltb 1 (length (render (word ∷ stack))) ≡ true =
      lt→ltb 1 (length (render (word ∷ stack))) (length-render-cons word stack w.nonempty) in
    rw (long, append_assoc) (whole rest)

reverse-cons :
    (word : List ℕ) (stack : List (List ℕ)) → reverse (word ∷ stack) ≡ reverse stack ++ (word ∷ [])
reverse-cons word stack = reverse-append (word ∷ []) stack

-- Reading a rendered stack back gives its components, the first one first.
words_from-render :
    (stack : List (List ℕ)) (rest : List ℕ)
    → NormalStack stack
    → words_from [] (render stack ++ (b'/' ∷ rest)) ≡ reverse stack ++ words_from [] rest
unfolding words_from render
words_from-render [] rest n = refl
words_from-render (word ∷ stack) rest (w, e, n) =
    ap (words_from []) (append_assoc (with_separator (render stack)) word (b'/' ∷ rest))
    ∙ words_from-separated stack (word ++ (b'/' ∷ rest)) n (λ more. words_from-render stack more n)
    ∙ ap (λ l. reverse stack ++ l) (words_from-slash word rest w)
    ∙ sym (
        ap (λ l. l ++ words_from [] rest) (reverse-cons word stack)
        ∙ append_assoc (reverse stack) (word ∷ []) (words_from [] rest))

words_from-reverse :
    (stack : List (List ℕ)) → NormalStack stack → words_from [] (render stack) ≡ reverse stack
unfolding words_from render
words_from-reverse [] n = refl
words_from-reverse (word ∷ stack) (w, e, n) =
    words_from-separated stack word n (λ more. words_from-render stack more n)
    ∙ ap (λ l. reverse stack ++ l) (words_from-end word w)
    ∙ sym (reverse-cons word stack)

stack_words-append :
    (start middle xs ys : List (List ℕ))
    → stack_words start xs ≡ some middle
    → stack_words start (xs ++ ys) ≡ stack_words middle ys
unfolding stack_words
stack_words-append start middle [] ys h = ap (λ s. stack_words s ys) (cc)
stack_words-append start middle (x ∷ xs) ys h = elim (Option-cases (stack_step start x)) [
  | inl refused ↦ cc (rw (refused, stack_words) at h)
  | inr (next, taken) ↦
      rw (taken, stack_words) (stack_words-append next middle xs ys (rw (taken, stack_words) at h))
]

-- Building a normal stack again from its components gives it back.
stack_words-reverse :
    (stack : List (List ℕ)) → NormalStack stack → stack_words [] (reverse stack) ≡ some stack
unfolding stack_words
stack_words-reverse [] n = refl
stack_words-reverse (word ∷ stack) (w, e, n) =
    ap (stack_words []) (reverse-cons word stack)
    ∙ stack_words-append [] stack (reverse stack) (word ∷ []) (stack_words-reverse stack n)
    ∙ rw (e, stack_words)

pub normalize-words :
    (path : List ℕ)
    → 0 < length path
    → normalize path ≡ output (normalize_words root (words_from [] path))
unfolding normalize
normalize-words [] h = absurd (omega arith)
normalize-words (c ∷ path) h = refl

normalize-nil : normalize [] ≡ none
unfolding normalize
normalize-nil = refl

abbrev pub rendered : Option (List (List ℕ)) → Option (List ℕ)
rendered none = none
rendered (some stack) = some (render stack)

output-map_output : (o : Option (List (List ℕ))) → output (map_output o) ≡ rendered o
output-map_output none = refl
output-map_output (some stack) = refl

root-nil : root ≡ output_of []
unfolding render starts_of
root-nil = refl

-- What `normalize` means to do: run the components over a stack and render the stack.
pub normalize-stack :
    (path : List ℕ)
    → 0 < length path
    → normalize path ≡ rendered (stack_words [] (words_from [] path))
normalize-stack path h =
    normalize-words path h
    ∙ ap (λ o. output (normalize_words o (words_from [] path))) root-nil
    ∙ ap output (words-stack [] (words_from [] path))
    ∙ output-map_output (stack_words [] (words_from [] path))

-- The result of `normalize` is the rendering of a normal stack.
pub normalize-NormalStack :
    (path q : List ℕ)
    → normalize path ≡ some q
    → (stack : List (List ℕ)) × NormalStack stack × (q ≡ render stack)
normalize-NormalStack [] q h = cc (normalize-nil)
normalize-NormalStack (c ∷ path) q h =
    let run = sym (normalize-stack (c ∷ path) (omega arith)) ∙ h in
    elim (Option-cases (stack_words [] (words_from [] (c ∷ path)))) [
      | inl refused ↦ cc (rw refused at run)
      | inr (stack, built) ↦ (
        stack,
        words-NormalStack [] stack (words_from [] (c ∷ path))
            (words_from-AllWords [] (c ∷ path) refl) tt built,
        ground (arith, rw built at run),
      )
    ]

-- A normal path is left as it is.
pub normalize-render :
    (stack : List (List ℕ)) → NormalStack stack → normalize (render stack) ≡ some (render stack)
normalize-render stack n =
    normalize-stack (render stack) (length-render stack)
    ∙ rw (words_from-reverse stack n, stack_words-reverse stack n)

-- Normalising a path that `normalize` gave changes nothing.
pub normalize_idem : (path q : List ℕ) → normalize path ≡ some q → normalize q ≡ some q
normalize_idem path q h =
    let (stack, n, e) = normalize-NormalStack path q h in rw e (normalize-render stack n)

length-with_separator_le : (out : List ℕ) → length (with_separator out) ≤ length out + 1
length-with_separator_le out = elim (Bool-cases (ltb 1 (length out))) [
  | inl long ↦ rw long (omega (arith, length-append out slash))
  | inr short ↦ rw short (omega arith)
]

length-render-lt : (stack : List (List ℕ)) → NormalStack stack → length (render stack) < max_path
unfolding render
length-render-lt [] n = omega arith
length-render-lt (word ∷ stack) (w, e, n) = omega (
  arith,
  length-append (with_separator (render stack)) word,
  length-with_separator_le (render stack),
  (pushed_fits stack word e).0,
)

-- A path that `normalize` gives fits an array of 64 characters with its NUL, and is not empty.
pub normalize_bounds :
    (path q : List ℕ) → normalize path ≡ some q → (1 ≤ length q) × (length q < max_path)
normalize_bounds path q h =
    let (stack, n, e) = normalize-NormalStack path q h in
    rw e (length-render stack, length-render-lt stack n)
