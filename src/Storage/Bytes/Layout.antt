-- ===== src/Storage/Bytes/Layout.antt =====
-- What the helpers of src/fs/storage/storage.c on memory and strings promise.
use project_orange_tea.Base.{
  ℕ, zero, suc, ◌+◌, ◌≤◌, ◌≡◌, ◌≢◌, refl, sym, ap, ◌∙◌, true, false, List, [], ◌∷◌, ◌++◌, length,
  take, drop, set, arith,
}
use project_orange_tea.Storage.Bytes.{blit, slice, equal}

pub equal→eq : (a b : List ℕ) → equal a b ≡ true → a ≡ b
unfolding equal
equal→eq [] [] h = refl
equal→eq [] (_ ∷ _) h = cc
equal→eq (_ ∷ _) [] h = cc
equal→eq (x ∷ xs) (y ∷ ys) h = ground (arith, equal→eq xs ys)

pub equal_refl : (a : List ℕ) → equal a a ≡ true
unfolding equal
equal_refl [] = refl
equal_refl (x ∷ xs) = ground (arith, equal_refl xs)

pub eq→equal : (a b : List ℕ) → a ≡ b → equal a b ≡ true
eq→equal a b e = rw e (equal_refl b)

pub equal→ne : (a b : List ℕ) → equal a b ≡ false → a ≢ b
equal→ne a b h e = cc (eq→equal a b e)

pub length-blit :
    (buffer : List ℕ) (offset : ℕ) (bytes : List ℕ)
    → length (blit buffer offset bytes) ≡ length buffer
unfolding blit
length-blit [] offset bytes = refl
length-blit (x ∷ xs) (suc offset) bytes = ap suc (length-blit xs offset bytes)
length-blit (x ∷ xs) zero [] = refl
length-blit (x ∷ xs) zero (b ∷ bytes) = ap suc (length-blit xs zero bytes)

-- What is written is read back.
pub slice-blit :
    (buffer : List ℕ) (offset : ℕ) (bytes : List ℕ)
    → offset + length bytes ≤ length buffer
    → slice (blit buffer offset bytes) offset (length bytes) ≡ bytes
unfolding blit slice
slice-blit [] zero [] h = refl
slice-blit [] zero (b ∷ bytes) h = absurd (omega arith)
slice-blit [] (suc offset) bytes h = absurd (omega arith)
slice-blit (x ∷ xs) (suc offset) bytes h = slice-blit xs offset bytes (omega arith)
slice-blit (x ∷ xs) zero [] h = refl
slice-blit (x ∷ xs) zero (b ∷ bytes) h = ap (λ l. b ∷ l) (slice-blit xs zero bytes (omega arith))

-- Bytes before the written ones stay.
pub slice-blit_before :
    (buffer : List ℕ) (offset : ℕ) (bytes : List ℕ) (at n : ℕ)
    → at + n ≤ offset
    → slice (blit buffer offset bytes) at n ≡ slice buffer at n
unfolding blit slice
slice-blit_before [] offset bytes at n h = refl
slice-blit_before (x ∷ xs) zero bytes at zero h = refl_zero at
  where
    refl_zero : (k : ℕ) → take 0 (drop k (blit (x ∷ xs) zero bytes)) ≡ take 0 (drop k (x ∷ xs))
    refl_zero k = refl
slice-blit_before (x ∷ xs) zero bytes at (suc n) h = absurd (omega arith)
slice-blit_before (x ∷ xs) (suc offset) bytes zero zero h = refl
slice-blit_before (x ∷ xs) (suc offset) bytes zero (suc n) h =
    ap (λ l. x ∷ l) (slice-blit_before xs offset bytes zero n (omega arith))
slice-blit_before (x ∷ xs) (suc offset) bytes (suc at) n h =
    slice-blit_before xs offset bytes at n (omega arith)

-- Bytes behind the written ones stay.
pub slice-blit_after :
    (buffer : List ℕ) (offset : ℕ) (bytes : List ℕ) (at n : ℕ)
    → offset + length bytes ≤ at
    → slice (blit buffer offset bytes) at n ≡ slice buffer at n
unfolding blit slice
slice-blit_after [] offset bytes at n h = refl
slice-blit_after (x ∷ xs) (suc offset) bytes zero n h = absurd (omega arith)
slice-blit_after (x ∷ xs) (suc offset) bytes (suc at) n h =
    slice-blit_after xs offset bytes at n (omega arith)
slice-blit_after (x ∷ xs) zero [] at n h = refl
slice-blit_after (x ∷ xs) zero (b ∷ bytes) zero n h = absurd (omega arith)
slice-blit_after (x ∷ xs) zero (b ∷ bytes) (suc at) n h =
    slice-blit_after xs zero bytes at n (omega arith)

-- A NUL behind a range does not change it.
pub slice-set_after :
    (buffer : List ℕ) (i v at n : ℕ) → at + n ≤ i → slice (set buffer i v) at n ≡ slice buffer at n
unfolding slice
slice-set_after [] i v at n h = refl
slice-set_after (x ∷ xs) zero v at zero h = refl
slice-set_after (x ∷ xs) zero v at (suc n) h = absurd (omega arith)
slice-set_after (x ∷ xs) (suc i) v zero zero h = refl
slice-set_after (x ∷ xs) (suc i) v zero (suc n) h =
    ap (λ l. x ∷ l) (slice-set_after xs i v zero n (omega arith))
slice-set_after (x ∷ xs) (suc i) v (suc at) n h = slice-set_after xs i v at n (omega arith)

take-nil : (n : ℕ) → take {A = ℕ} n [] ≡ []
take-nil zero = refl
take-nil (suc n) = refl

-- Two ranges that meet are one.
pub slice-append :
    (buffer : List ℕ) (n k : ℕ) → slice buffer 0 (n + k) ≡ slice buffer 0 n ++ slice buffer n k
unfolding slice
slice-append buffer zero k = ap (λ m. take m buffer) (omega arith)
slice-append [] (suc n) k = take-nil (suc n + k) ∙ sym (take-nil k)
slice-append (x ∷ xs) (suc n) k =
    ap (λ m. take m (x ∷ xs)) (suc-add n k) ∙ ap (λ l. x ∷ l) (slice-append xs n k)
  where
    suc-add : (a b : ℕ) → suc a + b ≡ suc (a + b)
    suc-add a b = omega arith

-- The front of a slice.
pub take-slice : (buffer : List ℕ) (n k : ℕ) → n ≤ k → take n (slice buffer 0 k) ≡ slice buffer 0 n
unfolding slice
take-slice buffer zero k h = refl
take-slice buffer (suc n) zero h = absurd (omega arith)
take-slice [] (suc n) (suc k) h = refl
take-slice (x ∷ xs) (suc n) (suc k) h = ap (λ l. x ∷ l) (take-slice xs n k (omega arith))
