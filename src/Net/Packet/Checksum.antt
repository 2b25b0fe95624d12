-- ===== src/Net/Packet/Checksum.antt =====
-- src/net/config/network_stack.c: the checksum against the plain sum of the buffer's words.
use project_orange_tea.Base.{
  ℕ, zero, suc, ◌+◌, ◌*◌, ◌/◌, ◌%◌, ◌^◌, ◌≤◌, ◌<◌, ◌≡◌, refl, ap, ◌∙◌, List, [], ◌∷◌, ◌==◌, length,
  arith, Bool-cases, inl, inr,
}
use project_orange_tea.Net.Packet.{sum_words, fold_carries, checksum16}

-- the 16-bit words of a buffer, added without a bound
pub word_sum : List ℕ → ℕ
word_sum [] = 0
word_sum (a ∷ []) = a * 256
word_sum (a ∷ b ∷ rest) = a * 256 + b + word_sum rest

abbrev pub AllBytes : List ℕ → Type 0
AllBytes [] = Unit {0}
AllBytes (b ∷ bytes) = (b < 256) × AllBytes bytes

-- the sum stays below 2 ^ 32, so it does not wrap
sum_words-word_sum :
    (sum : ℕ) (bytes : List ℕ)
    → sum + word_sum bytes < 2 ^ 32
    → sum_words sum bytes ≡ sum + word_sum bytes
unfolding sum_words word_sum
sum_words-word_sum sum [] h = omega arith
sum_words-word_sum sum (a ∷ []) h = omega arith
sum_words-word_sum sum (a ∷ b ∷ rest) h =
    let no_wrap : (sum + (a * 256 + b)) % 2 ^ 32 ≡ sum + (a * 256 + b) = omega arith in
    ap (λ s. sum_words s rest) no_wrap
    ∙ sum_words-word_sum (sum + (a * 256 + b)) rest (omega arith)
    ∙ omega arith

word_sum-bound : (bytes : List ℕ) → AllBytes bytes → word_sum bytes ≤ 32768 * (length bytes + 1)
unfolding word_sum
word_sum-bound [] h = omega arith
word_sum-bound (a ∷ []) (ha, h) = omega arith
word_sum-bound (a ∷ b ∷ rest) (ha, (hb, h)) = omega (arith, word_sum-bound rest h)

-- three rounds leave 16 bits, and the same number modulo 65535
fold-small : (sum : ℕ) → sum < 2 ^ 32 → fold_carries 3 sum < 65536
unfolding fold_carries
fold-small sum h = ground arith

fold-mod : (rounds sum : ℕ) → fold_carries rounds sum % 65535 ≡ sum % 65535
unfolding fold_carries
fold-mod zero sum = refl
fold-mod (suc rounds) sum = elim (Bool-cases (sum / 65536 == 0)) [
  | inl h ↦ ap (λ s. s % 65535) (rw h refl)
  | inr h ↦ let rest = fold-mod rounds (sum % 65536 + sum / 65536) in rw h (omega (arith, rest))
]

-- For a buffer of at most 65535 bytes, the checksum has 16 bits, and the words of the buffer and
-- the checksum add up to a multiple of 65535, which is how a receiver checks it.
pub checksum16-complement :
    (bytes : List ℕ)
    → AllBytes bytes
    → length bytes ≤ 65535
    → (checksum16 bytes < 65536) × ((word_sum bytes + checksum16 bytes) % 65535 ≡ 0)
unfolding checksum16
checksum16-complement bytes ok short =
    let bound : word_sum bytes < 2 ^ 32 = omega (arith, word_sum-bound bytes ok) in
    let e : sum_words 0 bytes ≡ word_sum bytes =
      sum_words-word_sum 0 bytes (omega arith) ∙ omega arith in
    rw e
      (omega arith, omega (arith, fold-small (word_sum bytes) bound, fold-mod 3 (word_sum bytes)))
