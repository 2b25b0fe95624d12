-- ===== src/Browser/Words.antt =====
-- The helpers of src/apps/browser.c on texts. Pointers are never null, and a text is the list of
-- its characters. `browser_copy` into an array of `n` characters is `take (n - 1)`.
use project_orange_tea.Base.{
  ℕ, ◌+◌, ◌-◌, Bool, ◌&&◌, ◌||◌, List, [], ◌∷◌, map, leb, ◌==◌, if◌then◌else◌, take, is_prefix,
}

abbrev pub copy : List ℕ → ℕ → List ℕ
copy source max_length = take (max_length - 1) source

abbrev pub starts_with : List ℕ → List ℕ → Bool
starts_with text prefix = is_prefix prefix text

abbrev pub lower_char : ℕ → ℕ
lower_char c = if leb b'A' c && leb c b'Z' then c + 32 else c

abbrev pub lower : List ℕ → List ℕ
lower text = map lower_char text

abbrev pub is_blank : ℕ → Bool
is_blank c = c == b' ' || c == b'\t'

abbrev pub is_trimmed : ℕ → Bool
is_trimmed c = c == b'\n' || c == b'\r' || c == b' ' || c == b'\t'

-- a character in front of a text that is trimmed already
abbrev pub trim_onto : ℕ → List ℕ → List ℕ
trim_onto c [] = if is_trimmed c then [] else c ∷ []
trim_onto c (d ∷ rest) = c ∷ d ∷ rest

abbrev pub trim_right : List ℕ → List ℕ
trim_right [] = []
trim_right (c ∷ text) = trim_onto c (trim_right text)
