-- ===== src/Vfs/Tests.antt =====
-- Resolving paths at small inputs.
use project_orange_tea.Base.{ℕ, ◌≡◌, refl, some, List, [], ◌∷◌, arith}
use project_orange_tea.Storage.Path.{normalize}
use project_orange_tea.Vfs.{resolve_path}
use project_orange_tea.Vfs.Resolve.{absolute_text, resolve_path-normalize}

-- "/a" and "b"
abbrev cwd : List ℕ
cwd = b'/' ∷ b'a' ∷ []

abbrev path : List ℕ
path = b'b' ∷ []

resolve_path-normalize_example :
    (resolve_path cwd path 64 ≡ normalize (absolute_text cwd path))
    × ((q : List ℕ) → resolve_path cwd path 64 ≡ some q → normalize q ≡ some q)
resolve_path-normalize_example =
    resolve_path-normalize cwd path 64 (omega arith) (omega arith) refl refl (omega arith)

-- The drive is the root that `..` does not leave: "..\x" in "C:\a\b" is "/C:/a/x", "C:\.." is
-- "/C:".
drive_relative :
    resolve_path
      (b'C' ∷ b':' ∷ b'\\' ∷ b'a' ∷ b'/' ∷ b'b' ∷ [])
      (b'.' ∷ b'.' ∷ b'\\' ∷ b'x' ∷ [])
      64
    ≡ some (b'/' ∷ b'C' ∷ b':' ∷ b'/' ∷ b'a' ∷ b'/' ∷ b'x' ∷ [])
unfolding resolve_path
drive_relative = refl

drive_floor :
    resolve_path [] (b'C' ∷ b':' ∷ b'\\' ∷ b'.' ∷ b'.' ∷ []) 64 ≡ some (b'/' ∷ b'C' ∷ b':' ∷ [])
unfolding resolve_path
drive_floor = refl
