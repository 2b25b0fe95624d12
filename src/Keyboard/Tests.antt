-- ===== src/Keyboard/Tests.antt =====
-- The keyboard at small inputs.
use project_orange_tea.Base.{ℕ, ◌≡◌, refl, true, false, some, List, [], ◌∷◌, replicate, arith}
use project_orange_tea.Ring.Fifo.{IsValid, contents}
use project_orange_tea.Keyboard.{Keyboard, plain_key, decode}
use project_orange_tea.Keyboard.Decode.{Holds, keys_of, decode-contents}

abbrev buffer : List ℕ
buffer = replicate 128 0

abbrev keyboard : Keyboard
keyboard = record {
  ring = record { buffer = some buffer; capacity = 128; head = 0; tail = 0; count = 0 };
  initialized = true;
  enabled = true;
  extended = false;
  shift = true;
  ctrl = false;
  alt = false;
  caps_lock = false;
  french = false;
}

ring-IsValid : IsValid keyboard.ring buffer
ring-IsValid = record {
  storage = refl;
  fits = omega arith;
  small = omega arith;
  tail_in = omega arith;
  count_in = omega arith;
  head_at = refl;
}

plain_key_IsKey_pressed : plain_key keyboard 0x1e ≡ some b'A'
unfolding plain_key
plain_key_IsKey_pressed = refl

decode-contents_example :
    Holds (decode keyboard 0x1e).ring (contents keyboard.ring) (keys_of keyboard 0x1e)
decode-contents_example = decode-contents keyboard 0x1e buffer refl ring-IsValid (omega arith)

-- The arrow up is its prefix and its code.
arrow_up : keys_of (record keyboard { extended = true }) 0x48 ≡ 0x104 ∷ []
unfolding project_orange_tea.Keyboard.Keys.lookup
arrow_up = refl

shifted_letter : keys_of keyboard 0x1e ≡ b'A' ∷ []
unfolding project_orange_tea.Keyboard.Keys.lookup
shifted_letter = refl
