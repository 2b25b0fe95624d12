-- ===== src/Shell/Create/Parents.antt =====
-- src/apps/shell/shell.c: which directories `mkdir -p` asks the storage for.
use project_orange_tea.Base.{
  ℕ, ◌+◌, ◌≤◌, ◌<◌, Bool, true, false, ◌||◌, List, [], ◌∷◌, ◌++◌, ◌==◌, if◌then◌else◌, length, take,
  drop, length-append, length-take, length-drop, arith,
}
use project_orange_tea.Shell.Create.{components_from, components}

-- every text is shorter than `n`
abbrev pub AllShorter : ℕ → List (List ℕ) → Type 0
AllShorter n [] = Unit {0}
AllShorter n (text ∷ texts) = (length text < n) × AllShorter n texts

components_from-AllShorter :
    (n : ℕ) (before rest : List ℕ)
    → length before + length rest ≤ n
    → AllShorter n (components_from before rest)
unfolding components_from
components_from-AllShorter n before [] h = tt
components_from-AllShorter n before (c ∷ rest) h = by_test (c == b'/' || length rest == 0) (
    components_from-AllShorter n (before ++ (c ∷ [])) rest
      (omega (arith, length-append before (c ∷ []))))
  where
    further : List (List ℕ)
    further = components_from (before ++ (c ∷ [])) rest

    by_test :
        (b : Bool) → AllShorter n further → AllShorter n (if b then before ∷ further else further)
    by_test true g = (omega (arith, h), g)
    by_test false g = g

-- Every directory that `mkdir -p` asks the storage for has a shorter path than the directory that
-- is to be made: the last one is never asked for.
pub components-AllShorter : (path : List ℕ) → AllShorter (length path) (components path)
components-AllShorter path =
    components_from-AllShorter (length path) (take 1 path) (drop 1 path)
      (omega (arith, length-take 1 path, length-drop 1 path))
