-- ===== src/Storage/Bytes.antt =====
-- The static helpers of src/fs/storage/storage.c on memory and strings. A buffer is the list of its
-- bytes; writing into one gives the new buffer, of the same length.
pub mod Layout
use project_orange_tea.Base.{
  ℕ, zero, suc, ◌+◌, ◌-◌, ◌*◌, ◌/◌, ◌%◌, ◌^◌, Bool, true, false, ◌&&◌, Option, none, some, List, [],
  ◌∷◌, ◌==◌, if◌then◌else◌, get_or, take, drop, length,
}

-- `copy(buffer + offset, bytes, length)`; what would pass the end is dropped
unfoldable pub blit : List ℕ → ℕ → List ℕ → List ℕ
blit [] offset bytes = []
blit (x ∷ xs) (suc offset) bytes = x ∷ blit xs offset bytes
blit (x ∷ xs) zero [] = x ∷ xs
blit (x ∷ xs) zero (b ∷ bytes) = b ∷ blit xs zero bytes

-- the `n` bytes from `offset` on
unfoldable pub slice : List ℕ → ℕ → ℕ → List ℕ
slice buffer offset n = take n (drop offset buffer)

-- `equal`: two strings
unfoldable pub equal : List ℕ → List ℕ → Bool
equal [] [] = true
equal [] (_ ∷ _) = false
equal (_ ∷ _) [] = false
equal (a ∷ as') (b ∷ bs) = (a == b) && equal as' bs

-- `path_prefix`: `path` is `prefix`, a slash, and more
unfoldable pub path_prefix : List ℕ → List ℕ → Bool
path_prefix [] [] = false
path_prefix (c ∷ _) [] = c == b'/'
path_prefix [] (_ ∷ _) = false
path_prefix (c ∷ path) (p ∷ prefix) = (c == p) && path_prefix path prefix

-- `text_copy` into an array of `limit` characters: the string that the array then holds
abbrev pub text_copy : List ℕ → ℕ → List ℕ
text_copy text limit = take (limit - 1) text

-- the string at the front of a buffer
unfoldable pub c_string : List ℕ → List ℕ
c_string [] = []
c_string (c ∷ cs) = if c == 0 then [] else c ∷ c_string cs

-- little-endian numbers; the shifted bytes have no bit in common, so their sum is their union
unfoldable pub get32 : List ℕ → ℕ → ℕ
get32 p i =
    get_or p i 0
    + get_or p (i + 1) 0 * 2 ^ 8
    + get_or p (i + 2) 0 * 2 ^ 16
    + get_or p (i + 3) 0 * 2 ^ 24

unfoldable pub get64 : List ℕ → ℕ → ℕ
unfolding get32
get64 p i = get32 p i + get32 p (i + 4) * 2 ^ 32

abbrev pub put32 : ℕ → List ℕ
put32 value =
    (value % 256) ∷ (value / 2 ^ 8 % 256) ∷ (value / 2 ^ 16 % 256) ∷ (value / 2 ^ 24 % 256) ∷ []

abbrev pub put64 : ℕ → List ℕ
put64 value =
    (value % 256)
    ∷ (value / 2 ^ 8 % 256)
    ∷ (value / 2 ^ 16 % 256)
    ∷ (value / 2 ^ 24 % 256)
    ∷ (value / 2 ^ 32 % 256)
    ∷ (value / 2 ^ 40 % 256)
    ∷ (value / 2 ^ 48 % 256)
    ∷ (value / 2 ^ 56 % 256)
    ∷ []
