-- ===== src/Keyboard/Decode.antt =====
-- src/drivers/keyboard/keyboard.c: what a byte from the port adds to the queue.
use mathlib.Core.Path.{subst}
use project_orange_tea.Base.{
  ℕ, zero, suc, ◌+◌, ◌-◌, ◌%◌, ◌≤◌, ◌<◌, ◌≡◌, ◌⊎◌, refl, sym, ap, ◌∙◌, Bool, true, false, ◌&&◌,
  ◌||◌, not, Option, none, some, List, [], ◌∷◌, ltb, leb, ◌==◌, if◌then◌else◌, get_or, arith,
  Bool-cases, inl, inr, leb→le, ◌++◌, set, replicate,
}
use project_orange_tea.Ring.{Ring, push, init}
use project_orange_tea.Ring.Fifo.{IsValid, contents, push_fifo}
use project_orange_tea.Keyboard.Maps.{base_map, shift_map, fr_base_map, fr_shift_map}
use project_orange_tea.Keyboard.Keys.{
  lookup, extended_keys, expected_key, extended_key-lookup, plain_key-expected,
}
use project_orange_tea.Keyboard.{
  Keyboard, mapped, cased, scancode_to_ascii, with_ctrl, plain_key, extended_key, decode, push_key,
  kb_push, ring_init,
}

-- every number of a table is below 128
abbrev pub all_ascii : List ℕ → Bool
all_ascii [] = true
all_ascii (c ∷ cs) = ltb c 128 && all_ascii cs

get_or-ascii : (cs : List ℕ) (i : ℕ) → all_ascii cs ≡ true → get_or cs i 0 < 128
get_or-ascii [] i h = omega arith
get_or-ascii (c ∷ cs) zero h = ground arith
get_or-ascii (c ∷ cs) (suc i) h = get_or-ascii cs i (ground arith)

tables-ascii :
    (shift french : Bool) (k : Keyboard)
    → k.shift ≡ shift
    → k.french ≡ french
    → (code : ℕ) → mapped k code < 128
tables-ascii true true k s f code = rw (s, f) (get_or-ascii fr_shift_map code refl)
tables-ascii true false k s f code = rw (s, f) (get_or-ascii shift_map code refl)
tables-ascii false true k s f code = rw (s, f) (get_or-ascii fr_base_map code refl)
tables-ascii false false k s f code = rw (s, f) (get_or-ascii base_map code refl)

cased-ascii : (k : Keyboard) (c : ℕ) → c < 128 → cased k c < 128
cased-ascii k c h = ground arith

ascii : (k : Keyboard) (code : ℕ) → scancode_to_ascii k code < 128
unfolding scancode_to_ascii
ascii k code = elim (Bool-cases (leb 128 code)) [
  | inl past ↦ rw past (omega arith)
  | inr before ↦
      rw before (cased-ascii k (mapped k code) (tables-ascii k.shift k.french k refl refl code))
]

-- a character or a control character, or a key of `enum` F1 to F12
abbrev pub IsKey : ℕ → Type 0
IsKey key = (0 < key) × ((key < 128) ⊎ ((0x110 ≤ key) × (key ≤ 0x11b)))

-- Whatever the modifiers and the layout are, a key that is pushed for a plain scan code is an ASCII
-- character other than NUL, or one of the twelve function keys.
pub plain_key-IsKey : (k : Keyboard) (code key : ℕ) → plain_key k code ≡ some key → IsKey key
unfolding plain_key
plain_key-IsKey k code key e =
    by_code (leb 0x3b code && leb code 0x44) (code == 0x57) (code == 0x58) refl e
  where
    c : ℕ
    c = scancode_to_ascii k code

    named : (n : ℕ) → 0x110 ≤ n → n ≤ 0x11b → Path (Option ℕ) (some n) (some key) → IsKey key
    named n lo hi same = let eq : n ≡ key = cc in (omega arith, inr (omega arith, omega arith))

    char :
        (b : Bool) → c == 0 ≡ b → (if b then none else some (with_ctrl k c)) ≡ some key → IsKey key
    char true z same = cc
    char false z same =
        let eq : with_ctrl k c ≡ key = cc in
        let small : with_ctrl k c < 128 = ground (arith, ascii k code) in
        let pos : 0 < with_ctrl k c = ground (arith, z) in (omega arith, inl (omega arith))

    by_code :
        (f11_below f11 f12 : Bool)
        → leb 0x3b code && leb code 0x44 ≡ f11_below
        → (if f11_below
            then some (0x110 + code - 0x3b)
            else if f11
            then some 0x11a
            else if f12
            then some 0x11b
            else if c == 0
            then none
            else some (with_ctrl k c))
          ≡ some key
        → IsKey key
    by_code true a b r same =
        let lo : leb 0x3b code ≡ true = ground arith in
        let hi : leb code 0x44 ≡ true = ground arith in
        let from = leb→le _ _ lo in
        let to = leb→le _ _ hi in named (0x110 + code - 0x3b) (omega arith) (omega arith) same
    by_code false true b r same = named 0x11a (omega arith) (omega arith) same
    by_code false false true r same = named 0x11b (omega arith) (omega arith) same
    by_code false false false r same = char (c == 0) refl same

abbrev listed : Option ℕ → List ℕ
listed none = []
listed (some key) = key ∷ []

-- the keys that a byte stands for, with those behind the prefix and the others given
abbrev pub keys_by : Keyboard → ℕ → (behind_prefix plain : Option ℕ) → List ℕ
keys_by k sc behind_prefix plain =
    let code = sc % 0x80 in
    if sc == 0xe0
    then []
    else if leb 0x80 sc
    then []
    else if k.extended
    then listed behind_prefix
    else if code == 0x2a || code == 0x36 || code == 0x1d || code == 0x38 || code == 0x3a
    then []
    else listed plain

-- The keys that a byte stands for by the tables: none for the prefix, for a release, and for shift,
-- control, alt and caps lock; else the key of the byte in the table that counts.
abbrev pub keys_of : Keyboard → ℕ → List ℕ
keys_of k sc = keys_by k sc (lookup extended_keys (sc % 0x80)) (expected_key k (sc % 0x80))

append_nil : (xs : List ℕ) → xs ≡ xs ++ []
append_nil [] = refl
append_nil (x ∷ xs) = ap (λ l. x ∷ l) (append_nil xs)

-- The queue is `queue` and then `keys`, in a ring that is valid.
abbrev pub Holds : Ring → List ℕ → List ℕ → Type 0
Holds r queue keys = (contents r ≡ queue ++ keys) × ((buf : List ℕ) × IsValid r buf)

module _ (k : Keyboard) (buf : List ℕ) (valid : IsValid k.ring buf) where
  quiet : Holds k.ring (contents k.ring) []
  quiet = (append_nil (contents k.ring), (buf, valid))

  module _ (ready : k.initialized ≡ true) (room : k.ring.count < k.ring.capacity) where
    pushed : (o : Option ℕ) → Holds (push_key k o).ring (contents k.ring) (listed o)
    unfolding kb_push ring_init
    pushed none = quiet
    pushed (some key) = elim (push_fifo k.ring buf key valid) [
      | inl (fits, done, behind, still) ↦
          let e : (kb_push k key).ring ≡ (push k.ring key).1 =
            ap
              (λ b.
                (push
                  (if b then k else record k {
                    ring = init (some (replicate 128 0)) 128;
                    initialized = true;
                  }).ring
                  key).1)
              ready in
          (
            ap contents e ∙ behind,
            (
              set buf k.ring.head key,
              subst (λ r. IsValid r (set buf k.ring.head key)) (sym e) still,
            ),
          )
      | inr (full, same) ↦ absurd (omega arith)
    ]

decode-keys_by :
    (k : Keyboard) (sc : ℕ) (buf : List ℕ)
    → k.initialized ≡ true
    → IsValid k.ring buf
    → k.ring.count < k.ring.capacity
    → Holds
        (decode k sc).ring
        (contents k.ring)
        (keys_by k sc (extended_key (sc % 0x80)) (plain_key k (sc % 0x80)))
unfolding decode
decode-keys_by k sc buf ready valid room =
    by_tests (sc == 0xe0) k.extended (leb 0x80 sc) (code == 0x2a) (code == 0x36) (code == 0x1d)
      (code == 0x38) (code == 0x3a)
  where
    code : ℕ
    code = sc % 0x80

    same : Holds k.ring (contents k.ring) []
    same = quiet k buf valid

    bare : Keyboard
    bare = record k { extended = false }

    by_tests :
        (prefix extended released left right ctrl alt caps : Bool)
        → Holds
            (if prefix
              then record k { extended = true }
              else if extended
              then (if released then bare else push_key bare (extended_key code))
              else if left || right
              then record k { shift = not released }
              else if ctrl
              then record k { ctrl = not released }
              else if alt
              then record k { alt = not released }
              else if released
              then k
              else if caps
              then record k { caps_lock = not k.caps_lock }
              else push_key k (plain_key k code)).ring
            (contents k.ring)
            (if prefix
              then []
              else if released
              then []
              else if extended
              then listed (extended_key code)
              else if left || right || ctrl || alt || caps
              then []
              else listed (plain_key k code))
    by_tests true x r a b c d e = same
    by_tests false true true a b c d e = same
    by_tests false true false a b c d e = pushed bare buf valid ready room (extended_key code)
    by_tests false false true true b c d e = same
    by_tests false false false true b c d e = same
    by_tests false false true false true c d e = same
    by_tests false false false false true c d e = same
    by_tests false false true false false true d e = same
    by_tests false false false false false true d e = same
    by_tests false false true false false false true e = same
    by_tests false false false false false false true e = same
    by_tests false false true false false false false e = same
    by_tests false false false false false false false true = same
    by_tests false false false false false false false false =
        pushed k buf valid ready room (plain_key k code)

-- On a keyboard whose ring is valid, has been set up and has room, a byte from the port appends to
-- the queue exactly the keys that it stands for by the tables of keys and characters: none for a
-- release, a prefix or a modifier, at most one otherwise. The ring stays valid, and what was queued
-- stays in front.
pub decode-contents :
    (k : Keyboard) (sc : ℕ) (buf : List ℕ)
    → k.initialized ≡ true
    → IsValid k.ring buf
    → k.ring.count < k.ring.capacity
    → Holds (decode k sc).ring (contents k.ring) (keys_of k sc)
decode-contents k sc buf ready valid room =
    subst (λ keys. Holds (decode k sc).ring (contents k.ring) keys)
      (ap (λ o. keys_by k sc o (plain_key k (sc % 0x80))) (extended_key-lookup (sc % 0x80))
        ∙ ap (keys_by k sc (lookup extended_keys (sc % 0x80)))
            (plain_key-expected k (sc % 0x80) (omega arith)))
      (decode-keys_by k sc buf ready valid room)
