-- ===== src/Keyboard/Keys.antt =====
-- The keys of a PS/2 keyboard that src/drivers/keyboard/keyboard.c knows, as tables, apart from how
-- the driver tells them from each other, and that the driver agrees with the tables.
use project_orange_tea.Base.{
  ℕ, zero, suc, ◌+◌, ◌-◌, ◌<◌, ◌≡◌, refl, ap, ◌∙◌, Bool, true, false, ◌&&◌, not, Option, none, some,
  List, [], ◌∷◌, leb, ◌==◌, if◌then◌else◌, if-false, get_or, arith,
}
use project_orange_tea.Keyboard.Maps.{base_map, shift_map, fr_base_map, fr_shift_map}
use project_orange_tea.Keyboard.{
  Keyboard, is_lower, is_upper, mapped, cased, scancode_to_ascii, with_ctrl, plain_key,
  extended_key,
}

-- scan codes with the keys of include/drivers/keyboard.h that they stand for
abbrev pub KeyTable : Type 0
KeyTable = List (ℕ × ℕ)

unfoldable pub lookup : KeyTable → ℕ → Option ℕ
lookup [] code = none
lookup ((scan, key) ∷ table) code = if code == scan then some key else lookup table code

-- behind the prefix 0xE0: the arrows up, down, left and right; home, end, delete, page up, page
-- down
abbrev pub extended_keys : KeyTable
extended_keys =
    (0x48, 0x104)
    ∷ (0x50, 0x105)
    ∷ (0x4b, 0x106)
    ∷ (0x4d, 0x107)
    ∷ (0x47, 0x108)
    ∷ (0x4f, 0x109)
    ∷ (0x53, 0x10a)
    ∷ (0x49, 0x102)
    ∷ (0x51, 0x103)
    ∷ []

-- F1 to F12
abbrev pub function_keys : KeyTable
function_keys =
    (0x3b, 0x110)
    ∷ (0x3c, 0x111)
    ∷ (0x3d, 0x112)
    ∷ (0x3e, 0x113)
    ∷ (0x3f, 0x114)
    ∷ (0x40, 0x115)
    ∷ (0x41, 0x116)
    ∷ (0x42, 0x117)
    ∷ (0x43, 0x118)
    ∷ (0x44, 0x119)
    ∷ (0x57, 0x11a)
    ∷ (0x58, 0x11b)
    ∷ []

-- the map of a layout, without and with shift
abbrev pub layout_map : (french shift : Bool) → List ℕ
layout_map false false = base_map
layout_map false true = shift_map
layout_map true false = fr_base_map
layout_map true true = fr_shift_map

abbrev pub is_small : ℕ → Bool
is_small c = leb 97 c && leb c 122

abbrev pub is_capital : ℕ → Bool
is_capital c = leb 65 c && leb c 90

abbrev pub swap_case : ℕ → ℕ
swap_case c = if is_small c then c - 32 else if is_capital c then c + 32 else c

-- the layout's character, with its case swapped by caps lock
abbrev pub character : Keyboard → ℕ → ℕ
character k code =
    let c = get_or (layout_map k.french k.shift) code 0 in if k.caps_lock then swap_case c else c

-- Control makes 1 to 26 of the small letters.
abbrev pub typed : Keyboard → ℕ → Option ℕ
typed k code =
    let c = character k code in
    if c == 0 then none else some (if k.ctrl && is_small c then c - 96 else c)

abbrev pub or_typed : Keyboard → ℕ → Option ℕ → Option ℕ
or_typed k code none = typed k code
or_typed k code (some key) = some key

-- what a pressed key that is no modifier stands for
abbrev pub expected_key : Keyboard → ℕ → Option ℕ
expected_key k code = or_typed k code (lookup function_keys code)

pub extended_key-lookup : (code : ℕ) → extended_key code ≡ lookup extended_keys code
unfolding extended_key lookup
extended_key-lookup code = refl

abbrev none_such : (ℕ → Bool) → List ℕ → Bool
none_such p [] = not (p 0)
none_such p (c ∷ cs) = not (p c) && none_such p cs

get_or-none_such :
    (p : ℕ → Bool) (cs : List ℕ) (i : ℕ) → none_such p cs ≡ true → p (get_or cs i 0) ≡ false
get_or-none_such p [] i h = ground arith
get_or-none_such p (c ∷ cs) zero h = ground arith
get_or-none_such p (c ∷ cs) (suc i) h = get_or-none_such p cs i (ground arith)

no_capital : (french : Bool) (code : ℕ) → is_upper (get_or (layout_map french false) code 0) ≡ false
no_capital true code = get_or-none_such is_upper fr_base_map code refl
no_capital false code = get_or-none_such is_upper base_map code refl

no_small : (french : Bool) (code : ℕ) → is_lower (get_or (layout_map french true) code 0) ≡ false
no_small true code = get_or-none_such is_lower fr_shift_map code refl
no_small false code = get_or-none_such is_lower shift_map code refl

mapped-layout :
    (k : Keyboard) (code : ℕ) → mapped k code ≡ get_or (layout_map k.french k.shift) code 0
mapped-layout k code = by_flags k.french k.shift
  where
    by_flags :
        (french shift : Bool)
        → (if shift
            then get_or (if french then fr_shift_map else shift_map) code 0
            else get_or (if french then fr_base_map else base_map) code 0)
          ≡ get_or (layout_map french shift) code 0
    by_flags true true = refl
    by_flags true false = refl
    by_flags false true = refl
    by_flags false false = refl

-- The driver's tests of shift come to a swap, since the maps without shift have no capitals and the
-- maps with shift no small letters.
cased-swap :
    (french shift caps : Bool) (k : Keyboard) (code : ℕ)
    → k.french ≡ french
    → k.shift ≡ shift
    → k.caps_lock ≡ caps
    → cased k (get_or (layout_map french shift) code 0) ≡ (
        if caps
        then swap_case (get_or (layout_map french shift) code 0)
        else get_or (layout_map french shift) code 0)
cased-swap french true true k code f s c = ground (arith, no_small french code, s, c)
cased-swap french true false k code f s c = ground (arith, no_small french code, s, c)
cased-swap french false true k code f s c = ground (arith, no_capital french code, s, c)
cased-swap french false false k code f s c = ground (arith, no_capital french code, s, c)

scancode_to_ascii-character :
    (k : Keyboard) (code : ℕ) → code < 128 → scancode_to_ascii k code ≡ character k code
unfolding scancode_to_ascii
scancode_to_ascii-character k code small =
    let low : leb 128 code ≡ false = ground arith in
    if-false _ _ low
    ∙ ap (cased k) (mapped-layout k code)
    ∙ cased-swap k.french k.shift k.caps_lock k code refl refl refl

-- The driver's range and two tests against the table.
function_key-lookup :
    (k : Keyboard) (code : ℕ)
    → (if leb 0x3b code && leb code 0x44
        then some (0x110 + code - 0x3b)
        else if code == 0x57
        then some 0x11a
        else if code == 0x58
        then some 0x11b
        else typed k code)
      ≡ expected_key k code
unfolding lookup
function_key-lookup k code = ground arith

with_ctrl-typed :
    (k : Keyboard) (c : ℕ) → with_ctrl k c ≡ (if k.ctrl && is_small c then c - 96 else c)
with_ctrl-typed k c = ground arith

pub plain_key-expected :
    (k : Keyboard) (code : ℕ) → code < 128 → plain_key k code ≡ expected_key k code
unfolding plain_key
plain_key-expected k code small =
    rw (scancode_to_ascii-character k code small, with_ctrl-typed k (character k code))
      (function_key-lookup k code)
