-- ===== src/Keyboard.antt =====
-- src/drivers/keyboard/keyboard.c: the decoding of PS/2 scan codes. What the two ports give is an
-- argument of `poll`; the interrupt flag and the waiting of `keyboard_getchar` are left out.
mod Maps
pub mod Keys
pub mod Decode
pub mod Tests
use Maps.{base_map, shift_map, fr_base_map, fr_shift_map}
use project_orange_tea.Base.{
  ℕ, ◌+◌, ◌-◌, ◌*◌, ◌/◌, ◌%◌, Bool, true, false, ◌&&◌, ◌||◌, not, Option, none, some, List, [], ◌∷◌,
  replicate, ltb, leb, ◌==◌, if◌then◌else◌, get_or,
}
use project_orange_tea.Ring
use project_orange_tea.Ring.{Ring}

-- the statics; `french` says that the active layout starts with "fr"
pub record Keyboard : Type 0 where
  pub ring : Ring
  pub initialized : Bool
  pub enabled : Bool
  pub extended : Bool
  pub shift : Bool
  pub ctrl : Bool
  pub alt : Bool
  pub caps_lock : Bool
  pub french : Bool

unfoldable pub ring_init : Keyboard → Keyboard
ring_init k =
    if k.initialized
    then k
    else record k { ring = Ring.init (some (replicate 128 0)) 128; initialized = true }

abbrev pub base_table : Keyboard → List ℕ
base_table k = if k.french then fr_base_map else base_map

abbrev pub shift_table : Keyboard → List ℕ
shift_table k = if k.french then fr_shift_map else shift_map

abbrev pub is_lower : ℕ → Bool
is_lower c = leb b'a' c && leb c b'z'

abbrev pub is_upper : ℕ → Bool
is_upper c = leb b'A' c && leb c b'Z'

abbrev pub mapped : Keyboard → ℕ → ℕ
mapped k code = if k.shift then get_or (shift_table k) code 0 else get_or (base_table k) code 0

-- caps lock swaps the case of a letter
abbrev pub cased : Keyboard → ℕ → ℕ
cased k c =
    if is_lower c
    then (if k.caps_lock && not k.shift then c - b'a' + b'A' else c)
    else if is_upper c
    then (if k.caps_lock && k.shift then c - b'A' + b'a' else c)
    else c

unfoldable pub scancode_to_ascii : Keyboard → ℕ → ℕ
scancode_to_ascii k code = if leb 128 code then 0 else cased k (mapped k code)

-- `kb_push`: a key that finds the ring full is dropped
unfoldable pub kb_push : Keyboard → ℕ → Keyboard
unfolding ring_init
kb_push k key =
    let ready = ring_init k in
    let (_, ring) = Ring.push ready.ring key in record ready { ring = ring }

-- the keys behind the prefix 0xE0; `none` for the others
unfoldable pub extended_key : ℕ → Option ℕ
extended_key code =
    if code == 0x48
    then some 0x104
    else if code == 0x50
    then some 0x105
    else if code == 0x4b
    then some 0x106
    else if code == 0x4d
    then some 0x107
    else if code == 0x47
    then some 0x108
    else if code == 0x4f
    then some 0x109
    else if code == 0x53
    then some 0x10a
    else if code == 0x49
    then some 0x102
    else if code == 0x51
    then some 0x103
    else none

-- a letter with control held is a control character
abbrev pub with_ctrl : Keyboard → ℕ → ℕ
with_ctrl k c = if k.ctrl && is_lower c then c - b'a' + 1 else c

-- what is pushed for a pressed key that is no modifier: a function key, or a character
unfoldable pub plain_key : Keyboard → ℕ → Option ℕ
unfolding scancode_to_ascii
plain_key k code =
    if leb 0x3b code && leb code 0x44
    then some (0x110 + code - 0x3b)
    else if code == 0x57
    then some 0x11a
    else if code == 0x58
    then some 0x11b
    else if scancode_to_ascii k code == 0
    then none
    else some (with_ctrl k (scancode_to_ascii k code))

abbrev pub push_key : Keyboard → Option ℕ → Keyboard
push_key k none = k
push_key k (some key) = kb_push k key

-- a byte behind the prefix
abbrev pub extended_byte : Keyboard → Bool → ℕ → Keyboard
extended_byte k released code =
    let k' = record k { extended = false } in
    if released then k' else push_key k' (extended_key code)

-- a byte without a prefix
abbrev pub plain_byte : Keyboard → Bool → ℕ → Keyboard
plain_byte k released code =
    if code == 0x2a || code == 0x36
    then record k { shift = not released }
    else if code == 0x1d
    then record k { ctrl = not released }
    else if code == 0x38
    then record k { alt = not released }
    else if released
    then k
    else if code == 0x3a
    then record k { caps_lock = not k.caps_lock }
    else push_key k (plain_key k code)

-- what `keyboard_poll` does with a byte from the data port
unfoldable pub decode : Keyboard → ℕ → Keyboard
unfolding kb_push extended_key plain_key
decode k sc =
    if sc == 0xe0
    then record k { extended = true }
    else if k.extended
    then extended_byte k (leb 0x80 sc) (sc % 0x80)
    else plain_byte k (leb 0x80 sc) (sc % 0x80)

-- bit 0 of the status: a byte waits; bit 5: it is the mouse's
unfoldable pub poll : Keyboard → ℕ → ℕ → Keyboard
unfolding decode
poll k status sc =
    if not k.enabled
    then k
    else if status % 2 == 0
    then k
    else if status / 32 % 2 == 1
    then k
    else decode k sc

pub handle_irq : Keyboard → ℕ → ℕ → Keyboard
unfolding poll
handle_irq k status sc = poll k status sc

pub enable_key_input : Keyboard → Keyboard
unfolding ring_init
enable_key_input k = record (ring_init k) { enabled = true }

pub disable_key_input : Keyboard → Keyboard
disable_key_input k = record k { enabled = false }

-- `none` is a null pointer.
pub set_layout : Keyboard → Option (List ℕ) → Keyboard
set_layout k none = record k { french = false }
set_layout k (some layout) = record k {
  french = get_or layout 0 0 == b'f' && get_or layout 1 0 == b'r';
}

pub has_char : Keyboard → Bool × Keyboard
unfolding ring_init
has_char k = let ready = ring_init k in (not (Ring.empty ready.ring), ready)

-- `none` where no key is available.
unfoldable pub try_getchar : Keyboard → Option ℕ × Keyboard
unfolding ring_init
try_getchar k =
    let ready = ring_init k in
    let (key, ring) = Ring.pop ready.ring in
    if Ring.empty ready.ring then (none, ready) else (key, record ready { ring = ring })
