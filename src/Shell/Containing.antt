-- ===== src/Shell/Containing.antt =====
-- src/apps/shell/shell.c: `shell_path_contains` is the containment of paths.
use project_orange_tea.Base.{
  ℕ, ◌<◌, ◌≡◌, ◌↔◌, ◌⊎◌, inl, inr, refl, sym, ap, ◌∙◌, Bool, true, not, List, [], ◌∷◌, ◌++◌, ◌==◌,
  length, char_at, char_at_behind, is_prefix, is_prefix-append, all, all-char_at, length-append,
  arith,
}
use mathlib.Core.List.{append-nil}
use project_orange_tea.Shell.Paths.{path_contains}

abbrev pub not_nul : ℕ → Bool
not_nul c = not (c == 0)

-- a path is the directory, or a slash and more stand behind the directory
abbrev pub Inside : List ℕ → List ℕ → Type 0
Inside parent path = (path ≡ parent) ⊎ ((rest : List ℕ) × (path ≡ parent ++ (b'/' ∷ rest)))

prefix-rest :
    (prefix path : List ℕ)
    → is_prefix prefix path ≡ true
    → (rest : List ℕ) × (path ≡ prefix ++ rest)
prefix-rest [] path h = (path, refl)
prefix-rest (p ∷ prefix) [] h = cc
prefix-rest (p ∷ prefix) (c ∷ path) h =
    let same : c ≡ p = ground arith in
    let (rest, e) = prefix-rest prefix path (ground arith) in
    (rest, ap (λ d. d ∷ path) same ∙ ap (λ l. p ∷ l) e)

module _ (parent path : List ℕ) (named : 0 < length parent) where
  at_end : (rest : List ℕ) → path ≡ parent ++ rest → char_at path (length parent) ≡ char_at rest 0
  at_end rest e =
      ap (λ t. char_at t (length parent)) e
      ∙ char_at_behind parent rest 0 (length parent) (omega arith)

  path_contains-true :
      all not_nul path ≡ true → path_contains parent path ≡ true → Inside parent path
  unfolding path_contains
  path_contains-true texts h = by_rest found.0 found.1
    where
      found : (rest : List ℕ) × (path ≡ parent ++ rest)
      found = prefix-rest parent path (ground arith)

      by_rest : (rest : List ℕ) → path ≡ parent ++ rest → Inside parent path
      by_rest [] e = inl (e ∙ append-nil parent)
      by_rest (c ∷ rest) e =
          let here : char_at path (length parent) ≡ c = at_end (c ∷ rest) e in
          let behind : length parent < length path =
            omega (arith, ap (λ t. length t) e, length-append parent (c ∷ rest)) in
          let live : not_nul (char_at path (length parent)) ≡ true =
            all-char_at not_nul path (length parent) texts behind in
          let slash : c ≡ b'/' = ground arith in
          inr (rest, e ∙ ap (λ d. parent ++ (d ∷ rest)) slash)

  path_contains-holds : Inside parent path → path_contains parent path ≡ true
  unfolding path_contains
  path_contains-holds (inl e) =
      let whole : path ≡ parent ++ [] = e ∙ sym (append-nil parent) in
      let front : is_prefix parent path ≡ true =
        ap (is_prefix parent) whole ∙ is_prefix-append parent [] in
      let stop : char_at path (length parent) ≡ 0 = at_end [] whole in ground arith
  path_contains-holds (inr (rest, e)) =
      let front : is_prefix parent path ≡ true =
        ap (is_prefix parent) e ∙ is_prefix-append parent (b'/' ∷ rest) in
      let stop : char_at path (length parent) ≡ b'/' = at_end (b'/' ∷ rest) e in ground arith

  -- For a named directory and a path without a NUL in it, `shell_path_contains` says yes exactly
  -- where the path is the directory or something below it.
  pub path_contains-Inside :
      all not_nul path ≡ true → (path_contains parent path ≡ true) ↔ Inside parent path
  path_contains-Inside texts = (path_contains-true texts, path_contains-holds)
