-- ===== src/Vfs/Resolve.antt =====
-- src/fs/vfs/vfs.c: without a drive, resolving a path is normalising it behind the working
-- directory.
use project_orange_tea.Base.{
  ℕ, suc, ◌+◌, ◌≤◌, ◌<◌, ◌≡◌, refl, sym, ap, ◌∙◌, Bool, true, false, ◌&&◌, ◌||◌, Option, none, some,
  List, [], ◌∷◌, ◌++◌, map, ltb, leb, ◌==◌, if◌then◌else◌, if-false, elim-some, length, drop, arith,
  Option-cases, inl, inr, le→ltb, length-append,
}
use project_orange_tea.Storage.State.{max_path}
use project_orange_tea.Storage.Bytes.{equal}
use project_orange_tea.Storage.Path.{
  Output, root, dot, dot_dot, words_from, pop_word, output, normalize, normalize_step,
  normalize_words, with_separator, too_long,
}
use project_orange_tea.Storage.Path.Reading.{normalize_idem, normalize-words}
use project_orange_tea.Vfs.{
  is_separator, char_at, is_drive_path, is_foreign_drive, to_slash, bounded, cwd_on_drive,
  names_drive, is_drive_root, closed_directory, relative_text, on_drive, combine, no_room, back,
  resolve_step, resolve_words, resolved, resolve_path,
}

-- the bound of 32 components holds all along
same_room :
    (capacity : ℕ) (o : Output) (word : List ℕ)
    → max_path ≤ capacity
    → length o.starts ≤ 32
    → no_room capacity o word ≡ too_long o word
same_room capacity o word wide few = ground arith

back-pop : (o : Output) → back 0 o ≡ pop_word o o.starts
unfolding pop_word
back-pop o = by_starts o.starts
  where
    by_starts :
        (starts : List ℕ)
        → (if ltb 0 (length starts) then pop_word o starts else o) ≡ pop_word o starts
    by_starts [] = refl
    by_starts (s ∷ starts) = ground arith

step-normalize :
    (capacity : ℕ) (o : Output) (word : List ℕ)
    → max_path ≤ capacity
    → length o.starts ≤ 32
    → resolve_step capacity 0 o word ≡ normalize_step o word
unfolding resolve_step normalize_step
step-normalize capacity o word wide few = rw (same_room capacity o word wide few, back-pop o) refl

step-few :
    (o o' : Output) (word : List ℕ)
    → length o.starts ≤ 32
    → normalize_step o word ≡ some o'
    → length o'.starts ≤ 32
unfolding normalize_step pop_word
step-few o o' word few e = by_word (equal word dot) (equal word dot_dot) (too_long o word) refl e
  where
    popped : (starts : List ℕ) → length starts ≤ 32 → length (pop_word o starts).starts ≤ 32
    popped [] h = few
    popped (s ∷ starts) h = omega arith

    same-few :
        (p q : Output)
        → length p.starts ≤ 32
        → Path (Option Output) (some p) (some q)
        → length q.starts ≤ 32
    same-few p q h same = ground (arith, h, same)

    by_word :
        (here up long : Bool)
        → too_long o word ≡ long
        → (if here
            then some o
            else if up
            then some (pop_word o o.starts)
            else if long
            then none
            else some
                (record { out = with_separator o.out ++ word; starts = length o.out ∷ o.starts }))
          ≡ some o'
        → length o'.starts ≤ 32
    by_word true up long t same = same-few o o' few same
    by_word false true long t same = same-few (pop_word o o.starts) o' (popped o.starts few) same
    by_word false false true t same = cc
    by_word false false false t same =
        same-few (record { out = with_separator o.out ++ word; starts = length o.out ∷ o.starts })
          o' (ground arith) same

resolve-normalize :
    (capacity : ℕ) (o : Output) (words : List (List ℕ))
    → max_path ≤ capacity
    → length o.starts ≤ 32
    → resolve_words capacity 0 o words ≡ normalize_words o words
unfolding resolve_words normalize_words
resolve-normalize capacity o [] wide few = refl
resolve-normalize capacity o (word ∷ words) wide few = elim (Option-cases (normalize_step o word)) [
  | inl e ↦ rw (step-normalize capacity o word wide few, e, resolve_words, normalize_words) refl
  | inr (o', e) ↦
      rw (step-normalize capacity o word wide few, e, resolve_words, normalize_words)
        (resolve-normalize capacity o' words wide (step-few o o' word few e))
]

or-left : (a b : Bool) → a || b ≡ false → a ≡ false
or-left true b e = cc
or-left false b e = refl

or-right : (a b : Bool) → a || b ≡ false → b ≡ false
or-right true b e = cc
or-right false b e = e

length-map_slash : (xs : List ℕ) → length (map to_slash xs) ≡ length xs
length-map_slash [] = refl
length-map_slash (x ∷ xs) = ap suc (length-map_slash xs)

-- the text that is normalised: the path, behind the working directory unless it is absolute
abbrev pub absolute_text : List ℕ → List ℕ → List ℕ
absolute_text cwd path =
    if is_separator (char_at path 0)
    then map to_slash path
    else closed_directory (map to_slash cwd) ++ map to_slash path

module _ (cwd path : List ℕ) (capacity : ℕ) (wide : max_path ≤ capacity)
    (nonempty : 0 < length path) (drive_less : is_drive_root cwd path ≡ false)
    (local : is_foreign_drive path ≡ false) (short : length cwd + length path + 2 < 128) where
  combine-absolute : combine cwd path ≡ some (absolute_text cwd path)
  unfolding combine
  combine-absolute =
      let off : is_drive_path path ≡ false =
        or-left _ _ (or-left (names_drive path) (cwd_on_drive cwd) drive_less) in
      let off_root : is_separator (char_at path 0) && is_drive_path (drop 1 path) ≡ false =
        or-right _ _ (or-left (names_drive path) (cwd_on_drive cwd) drive_less) in
      let off_cwd : cwd_on_drive cwd ≡ false =
        or-right (names_drive path) (cwd_on_drive cwd) drive_less in
      if-false _ _ off
      ∙ if-false _ _ off_root
      ∙ by_separator (is_separator (char_at path 0)) (cwd_on_drive cwd) off_cwd
    where
      whole : (xs : List ℕ) → length xs ≤ 127 → bounded xs ≡ some xs
      whole xs h = if-false _ _ (le→ltb 127 (length xs) h)

      by_separator :
          (absolute on_c : Bool)
          → on_c ≡ false
          → (if absolute
              then bounded (if on_c then on_drive path else map to_slash path)
              else relative_text on_c cwd path)
            ≡ some (
                if absolute
                then map to_slash path
                else closed_directory (map to_slash cwd) ++ map to_slash path)
      by_separator absolute true e = cc
      by_separator true false e = whole (map to_slash path) (omega (arith, length-map_slash path))
      by_separator false false e =
          let small : ltb 127 (length cwd)
                || ltb 127 (length path)
                || leb 128 (length cwd + length path + 2)
              ≡ false =
            ground arith in
          let room : ltb 127 (length (map to_slash cwd)) ≡ false =
            le→ltb 127 (length (map to_slash cwd)) (omega (arith, length-map_slash cwd)) in
          if-false _ _ small ∙ if-false _ _ room

  nonempty-text : 0 < length (absolute_text cwd path)
  nonempty-text = by_separator (is_separator (char_at path 0))
    where
      by_separator :
          (b : Bool)
          → 0
            < length (
                if b
                then map to_slash path
                else closed_directory (map to_slash cwd) ++ map to_slash path)
      by_separator true = omega (arith, length-map_slash path)
      by_separator false = omega (
        arith,
        length-append (closed_directory (map to_slash cwd)) (map to_slash path),
        length-map_slash path,
      )

  -- Where neither the path nor the working directory names the drive, and both are short enough to
  -- be put together, a path is resolved as the storage normalises it, behind the working directory
  -- unless it starts with a separator; a backslash is read as a slash. What is given is then a path
  -- that the storage takes as it stands.
  pub resolve_path-normalize :
      (resolve_path cwd path capacity ≡ normalize (absolute_text cwd path))
      × ((q : List ℕ) → resolve_path cwd path capacity ≡ some q → normalize q ≡ some q)
  unfolding resolve_path
  resolve_path-normalize =
      let good : ltb capacity 2 || length path == 0 || is_foreign_drive path ≡ false =
        ground (arith, local) in
      let text = absolute_text cwd path in
      let same : resolve_path cwd path capacity ≡ normalize text =
        if-false _ _ good
        ∙ elim-some _ _ combine-absolute
        ∙ ap (λ d. output (resolved capacity d text)) drive_less
        ∙ ap output (resolve-normalize capacity root (words_from [] text) wide (omega arith))
        ∙ sym (normalize-words text nonempty-text) in
      (same, λ q e. normalize_idem text q (sym same ∙ e))
