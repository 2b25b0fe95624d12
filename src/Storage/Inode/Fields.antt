-- ===== src/Storage/Inode/Fields.antt =====
-- src/fs/storage/storage.c: a sector filled by a sequence of writes, and the numbers and strings
-- that are read from it.
use project_orange_tea.Base.{
  ℕ, zero, suc, ◌+◌, ◌^◌, ◌≤◌, ◌<◌, ◌≡◌, refl, ap, ◌∙◌, Bool, true, false, ◌&&◌, some, List, [],
  ◌∷◌, ◌++◌, leb, ◌==◌, if◌then◌else◌, length, take, drop, get_or, get_elem?, replicate, arith,
  length-take, length-append, length-replicate, Bool-cases, inl, inr,
}
use project_orange_tea.Storage.Bytes.{blit, slice, c_string, get32, get64, put32, put64}
use project_orange_tea.Storage.Bytes.Layout.{
  slice-blit, slice-blit_before, slice-blit_after, length-blit,
}
use project_orange_tea.Storage.Inode.{blits, char_array}

-- The writes start at the offsets of the ranges and are no longer than them.
abbrev pub Within : List (ℕ × List ℕ) → List (ℕ × ℕ) → Type 0
Within [] [] = Unit {0}
Within [] (_ ∷ _) = Unit {0}
Within (_ ∷ _) [] = ⊥
Within ((o, bytes) ∷ writes) ((o', n) ∷ ranges) =
    (o ≡ o') × (length bytes ≤ n) × Within writes ranges

-- no range meets the `n` bytes from `start` on
abbrev pub clear : ℕ → ℕ → List (ℕ × ℕ) → Bool
clear start n [] = true
clear start n ((o, k) ∷ ranges) =
    (if leb (start + n) o then true else leb (o + k) start) && clear start n ranges

slice-blits-clear :
    (buffer : List ℕ) (start n : ℕ) (writes : List (ℕ × List ℕ)) (ranges : List (ℕ × ℕ))
    → Within writes ranges
    → clear start n ranges ≡ true
    → slice (blits buffer writes) start n ≡ slice buffer start n
unfolding blits
slice-blits-clear buffer start n [] ranges w h = refl
slice-blits-clear buffer start n (_ ∷ _) [] w h = absurd w
slice-blits-clear buffer start n ((o, bytes) ∷ writes) ((o', k) ∷ ranges) (e, short, w) h =
    slice-blits-clear (blit buffer o bytes) start n writes ranges w (ground arith)
    ∙ elim (Bool-cases (leb (start + n) o)) [
      | inl before ↦ slice-blit_before buffer o bytes start n (ground arith)
      | inr after ↦
          let behind : leb (o + k) start ≡ true = ground arith in
          slice-blit_after buffer o bytes start n (ground arith)
    ]

-- A write that no later one touches is found in the sector.
pub slice-blits :
    (buffer : List ℕ) (k : ℕ) (writes : List (ℕ × List ℕ)) (ranges : List (ℕ × ℕ)) (o : ℕ)
    (bytes : List ℕ)
    → Within writes ranges
    → get_elem? writes k ≡ some (o, bytes)
    → clear o (length bytes) (drop (suc k) ranges) ≡ true
    → o + length bytes ≤ length buffer
    → slice (blits buffer writes) o (length bytes) ≡ bytes
unfolding blits
slice-blits buffer k [] ranges o bytes w e h fits = cc
slice-blits buffer k (_ ∷ _) [] o bytes w e h fits = absurd w
slice-blits buffer zero ((o', bytes') ∷ writes) ((_, n) ∷ ranges) o bytes (_, short, w) e h fits =
    let same : Path (ℕ × List ℕ) (o', bytes') (o, bytes) = cc in
    slice-blits-clear (blit buffer o' bytes') o (length bytes) writes ranges w h
    ∙ ap (λ p. slice (blit buffer p.0 p.1) o (length bytes)) same
    ∙ slice-blit buffer o bytes fits
slice-blits buffer (suc k) ((o', bytes') ∷ writes) ((_, n) ∷ ranges) o bytes (_, short, w) e h
      fits =
    slice-blits (blit buffer o' bytes') k writes ranges o bytes w e h
      (omega (arith, length-blit buffer o' bytes'))

suc_zero_add : (k : ℕ) → suc (0 + k) ≡ 0 + suc k
suc_zero_add k = omega arith

pub get_or-slice :
    (buffer : List ℕ) (start n k d : ℕ)
    → k < n
    → get_or (slice buffer start n) k d ≡ get_or buffer (start + k) d
unfolding slice
get_or-slice [] zero (suc n) k d h = refl
get_or-slice [] zero zero k d h = refl
get_or-slice [] (suc start) (suc n) k d h = refl
get_or-slice [] (suc start) zero k d h = refl
get_or-slice (x ∷ xs) zero zero k d h = absurd (omega arith)
get_or-slice (x ∷ xs) zero (suc n) zero d h = refl
get_or-slice (x ∷ xs) zero (suc n) (suc k) d h =
    get_or-slice xs zero n k d (omega arith) ∙ ap (λ i. get_or (x ∷ xs) i d) (suc_zero_add k)
get_or-slice (x ∷ xs) (suc start) n k d h =
    get_or-slice xs start n k d h ∙ ap (λ i. get_or (x ∷ xs) i d) (suc-add start k)
  where
    suc-add : (a b : ℕ) → suc (a + b) ≡ suc a + b
    suc-add a b = omega arith

byte-slice :
    (buffer : List ℕ) (start n k at : ℕ)
    → start + k ≡ at
    → k < n
    → get_or (slice buffer start n) k 0 ≡ get_or buffer at 0
byte-slice buffer start n k at e h =
    get_or-slice buffer start n k 0 h ∙ ap (λ i. get_or buffer i 0) e

pub get32-slice :
    (buffer : List ℕ) (start : ℕ) → get32 buffer start ≡ get32 (slice buffer start 4) 0
unfolding get32
get32-slice buffer start =
    let byte = byte-slice buffer start 4 in
    omega (
      arith,
      byte 0 start (omega arith) (omega arith),
      byte 1 (start + 1) refl (omega arith),
      byte 2 (start + 2) refl (omega arith),
      byte 3 (start + 3) refl (omega arith),
    )

pub get64-slice :
    (buffer : List ℕ) (start : ℕ) → get64 buffer start ≡ get64 (slice buffer start 8) 0
unfolding get64 get32
get64-slice buffer start =
    let byte = byte-slice buffer start 8 in
    omega (
      arith,
      byte 0 start (omega arith) (omega arith),
      byte 1 (start + 1) refl (omega arith),
      byte 2 (start + 2) refl (omega arith),
      byte 3 (start + 3) refl (omega arith),
      byte 4 (start + 4) refl (omega arith),
      byte 5 (start + 4 + 1) (omega arith) (omega arith),
      byte 6 (start + 4 + 2) (omega arith) (omega arith),
      byte 7 (start + 4 + 3) (omega arith) (omega arith),
    )

-- Little-endian numbers come back.
pub get32-put32 : (v : ℕ) → v < 2 ^ 32 → get32 (put32 v) 0 ≡ v
unfolding get32
get32-put32 v h = omega arith

pub get64-put64 : (v : ℕ) → v < 2 ^ 64 → get64 (put64 v) 0 ≡ v
unfolding get64 get32
get64-put64 v h = omega arith

-- A string of an array that it fits in comes back, whatever filled the rest with zeros.
abbrev pub has_nul : List ℕ → Bool
has_nul [] = false
has_nul (c ∷ cs) = if c == 0 then true else has_nul cs

padded-c_string :
    (text : List ℕ) (n m : ℕ)
    → length text < n
    → 0 < m
    → has_nul text ≡ false
    → c_string (take n (text ++ replicate m 0)) ≡ text
unfolding c_string
padded-c_string [] zero m h p z = absurd (omega arith)
padded-c_string [] (suc n) zero h p z = absurd (omega arith)
padded-c_string [] (suc n) (suc m) h p z = refl
padded-c_string (c ∷ cs) zero m h p z = absurd (omega arith)
padded-c_string (c ∷ cs) (suc n) m h p z = ground (arith, padded-c_string cs n m (omega arith) p)

pub c_string-char_array :
    (text : List ℕ) (n : ℕ)
    → length text < n
    → has_nul text ≡ false
    → c_string (char_array text n) ≡ text
unfolding char_array
c_string-char_array text n h z = padded-c_string text n n h (omega arith) z

pub length-char_array : (text : List ℕ) (n : ℕ) → length (char_array text n) ≡ n
unfolding char_array
length-char_array text n = omega (
  arith,
  length-take n (text ++ replicate n 0),
  length-append text (replicate n 0),
  length-replicate {A = ℕ} n 0,
)

padded-zero :
    (text : List ℕ) (n m k : ℕ) → length text ≤ k → get_or (take n (text ++ replicate m 0)) k 0 ≡ 0
padded-zero [] zero m k h = refl
padded-zero [] (suc n) zero k h = refl
padded-zero [] (suc n) (suc m) zero h = refl
padded-zero [] (suc n) (suc m) (suc k) h = padded-zero [] n m k (omega arith)
padded-zero (c ∷ cs) zero m k h = refl
padded-zero (c ∷ cs) (suc n) m zero h = absurd (omega arith)
padded-zero (c ∷ cs) (suc n) m (suc k) h = padded-zero cs n m k (omega arith)

pub char_array-zero :
    (text : List ℕ) (n k : ℕ) → length text ≤ k → get_or (char_array text n) k 0 ≡ 0
unfolding char_array
char_array-zero text n k h = padded-zero text n n k h

pub char_array-first :
    (text : List ℕ) (n : ℕ)
    → 0 < length text
    → has_nul text ≡ false
    → 0 < n
    → get_or (char_array text n) 0 0 == 0 ≡ false
unfolding char_array
char_array-first [] n h z p = absurd (omega arith)
char_array-first (c ∷ cs) zero h z p = absurd (omega arith)
char_array-first (c ∷ cs) (suc n) h z p = ground arith
