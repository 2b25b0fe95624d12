-- ===== src/Base/Text.antt =====
-- Texts as lists of characters without their NUL: prefixes, and the loops that walk over them.
use Prim.Native.Char.{code}
use Prim.Native.String.{String}
use Prim.Native.Nat.{ℕ, zero, suc, ◌+◌, ◌<◌, ◌≤◌}
use mathlib.Core.Path.{◌≡◌, refl, ap}
use mathlib.Core.Bool.{Bool, true, false, ◌&&◌, not}
use mathlib.Core.List.{List, [], ◌∷◌, ◌++◌}
use native.Mathlib.Omega.{arith}
use project_orange_tea.Base.Tests.{◌==◌, if◌then◌else◌}
use project_orange_tea.Base.Lists.{length, take, drop, get_or}

-- the code points of a literal
abbrev pub codes : String → List ℕ
codes String.[] = []
codes (String.◌∷◌ c s) = code c ∷ codes s

-- the character at a place, the NUL at the end included
abbrev pub char_at : List ℕ → ℕ → ℕ
char_at text i = get_or text i 0

-- `while (test(text[i])) i++;`: what the loop passes, and what stands behind
abbrev pub take_while : (ℕ → Bool) → List ℕ → List ℕ
take_while test [] = []
take_while test (c ∷ cs) = let rest = take_while test cs in if test c then c ∷ rest else []

abbrev pub drop_while : (ℕ → Bool) → List ℕ → List ℕ
drop_while test [] = []
drop_while test (c ∷ cs) = let rest = drop_while test cs in if test c then rest else c ∷ cs

abbrev pub is_prefix : List ℕ → List ℕ → Bool
is_prefix [] text = true
is_prefix (p ∷ prefix) [] = false
is_prefix (p ∷ prefix) (c ∷ text) = c == p && is_prefix prefix text

abbrev pub all : (ℕ → Bool) → List ℕ → Bool
all test [] = true
all test (c ∷ cs) = test c && all test cs

-- the rest is empty, or starts with a character that stops the loop
abbrev pub stops : (ℕ → Bool) → List ℕ → Bool
stops test [] = true
stops test (c ∷ cs) = not (test c)

module _ (test : ℕ → Bool) where
  pub take_while-append :
      (xs ys : List ℕ) → all test xs ≡ true → stops test ys ≡ true → take_while test (xs ++ ys) ≡ xs
  take_while-append [] [] h s = refl
  take_while-append [] (y ∷ ys) h s = ground arith
  take_while-append (x ∷ xs) ys h s = ground (arith, take_while-append xs ys)

  pub drop_while-append :
      (xs ys : List ℕ) → all test xs ≡ true → stops test ys ≡ true → drop_while test (xs ++ ys) ≡ ys
  drop_while-append [] [] h s = refl
  drop_while-append [] (y ∷ ys) h s = ground arith
  drop_while-append (x ∷ xs) ys h s = ground (arith, drop_while-append xs ys)

  pub length-drop_while : (xs : List ℕ) → length (drop_while test xs) ≤ length xs
  length-drop_while [] = omega arith
  length-drop_while (x ∷ xs) = ground (arith, length-drop_while xs)

  pub length-take_while : (xs : List ℕ) → length (take_while test xs) ≤ length xs
  length-take_while [] = omega arith
  length-take_while (x ∷ xs) = ground (arith, length-take_while xs)

pub is_prefix-append : (prefix rest : List ℕ) → is_prefix prefix (prefix ++ rest) ≡ true
is_prefix-append [] rest = refl
is_prefix-append (p ∷ prefix) rest = ground (arith, is_prefix-append prefix rest)

pub char_at-append : (xs ys : List ℕ) (i : ℕ) → i < length xs → char_at (xs ++ ys) i ≡ char_at xs i
char_at-append [] ys i h = absurd (omega (arith, h))
char_at-append (x ∷ xs) ys zero h = refl
char_at-append (x ∷ xs) ys (suc i) h = char_at-append xs ys i (omega (arith, h))

pub char_at_behind :
    (xs ys : List ℕ) (i j : ℕ) → j ≡ length xs + i → char_at (xs ++ ys) j ≡ char_at ys i
char_at_behind [] ys i j h = let e : j ≡ i = omega (arith, h) in ap (char_at ys) e
char_at_behind (x ∷ xs) ys i zero h = absurd (omega (arith, h))
char_at_behind (x ∷ xs) ys i (suc j) h = char_at_behind xs ys i j (omega (arith, h))

pub drop_behind : (xs ys : List ℕ) (i j : ℕ) → j ≡ length xs + i → drop j (xs ++ ys) ≡ drop i ys
drop_behind [] ys i j h = let e : j ≡ i = omega (arith, h) in ap (λ k. drop k ys) e
drop_behind (x ∷ xs) ys i zero h = absurd (omega (arith, h))
drop_behind (x ∷ xs) ys i (suc j) h = drop_behind xs ys i j (omega (arith, h))

pub all-char_at :
    (test : ℕ → Bool) (xs : List ℕ) (i : ℕ)
    → all test xs ≡ true
    → i < length xs
    → test (char_at xs i) ≡ true
all-char_at test [] i h inside = absurd (omega (arith, inside))
all-char_at test (x ∷ xs) zero h inside = ground arith
all-char_at test (x ∷ xs) (suc i) h inside = ground (arith, all-char_at test xs i)

pub take-append-more :
    (xs ys : List ℕ) (n m : ℕ) → m ≡ length xs + n → take m (xs ++ ys) ≡ xs ++ take n ys
take-append-more [] ys n m h = let e : m ≡ n = omega (arith, h) in ap (λ k. take k ys) e
take-append-more (x ∷ xs) ys n zero h = absurd (omega (arith, h))
take-append-more (x ∷ xs) ys n (suc m) h =
    ap (λ l. x ∷ l) (take-append-more xs ys n m (omega (arith, h)))

pub all-append :
    (test : ℕ → Bool) (xs ys : List ℕ)
    → all test xs ≡ true
    → all test ys ≡ true
    → all test (xs ++ ys) ≡ true
all-append test [] ys h g = g
all-append test (x ∷ xs) ys h g = ground (arith, all-append test xs ys)
