-- ===== src/Browser/Url.antt =====
-- `browser_parse_url` and `browser_resolve_relative_url` of src/apps/browser.c. The code copies the
-- scheme into an array of 16 and the host into one of 128 without a test of their lengths, and
-- reads behind the NUL of a URL that ends in ":/"; the model keeps the whole texts, and reads
-- nothing there.
pub mod RoundTrip
use project_orange_tea.Base.{
  ℕ, zero, suc, ◌+◌, ◌-◌, ◌*◌, ◌%◌, ◌^◌, Bool, true, false, ◌&&◌, ◌||◌, not, Option, none, some,
  List, [], ◌∷◌, ◌++◌, ltb, leb, ◌==◌, if◌then◌else◌, get_or, take, drop, length, first_where,
  codes, char_at, take_while, drop_while,
}
use project_orange_tea.Browser.Words.{copy, starts_with, lower}
use project_orange_tea.Storage.Bytes.{equal}

-- `BrowserUrl`; `port` is the 32-bit pattern of an `int`
pub record Url : Type 0 where
  pub scheme : List ℕ
  pub host : List ℕ
  pub path : List ℕ
  pub port : ℕ

abbrev pub ends_scheme : List ℕ → ℕ → Bool
ends_scheme url i = char_at url i == b':' && char_at url (i + 1) == b'/'

-- `scheme_end`
abbrev pub scheme_end : List ℕ → Option ℕ
scheme_end url = first_where (ends_scheme url) (length url) 0

abbrev pub in_host : ℕ → Bool
in_host c = not (c == b'/') && not (c == b':')

-- the digits of a port, which are not tested to be digits
abbrev pub port_from : ℕ → List ℕ → ℕ
port_from value [] = value
port_from value (c ∷ cs) =
    let more = port_from ((value * 10 + c + (2 ^ 32 - b'0')) % 2 ^ 32) cs in
    if c == b'/' then value else more

-- what stands behind the colon of a port, past a second colon
abbrev pub skip_colon : List ℕ → List ℕ
skip_colon [] = []
skip_colon (c ∷ rest) = if c == b':' then rest else c ∷ rest

-- the path at a cursor: up to 255 characters from a slash on, or just a slash
abbrev pub path_at : List ℕ → List ℕ
path_at [] = b'/' ∷ []
path_at (c ∷ rest) = if c == b'/' then take 255 (c ∷ rest) else b'/' ∷ []

abbrev pub named_host : List ℕ → List ℕ
named_host [] = codes "localhost"
named_host (c ∷ host) = c ∷ host

-- The port and the path, by what stands behind the host. With a port, the cursor for the path stays
-- on its first digit.
abbrev pub behind_host : ℕ → List ℕ → ℕ × List ℕ
behind_host default [] = (default, b'/' ∷ [])
behind_host default (c ∷ rest) =
    if c == b':'
    then (port_from 0 rest, path_at (skip_colon rest))
    else (default, path_at (c ∷ rest))

abbrev pub default_port : List ℕ → ℕ
default_port scheme = if equal scheme (codes "https") then 443 else 80

abbrev pub parse_rest : List ℕ → ℕ → List ℕ → Url
parse_rest scheme default rest =
    let (port, path) = behind_host default (drop_while in_host rest) in
    record {
      scheme = scheme;
      host = named_host (take_while in_host rest);
      path = path;
      port = port;
    }

abbrev pub parse_from : List ℕ → Option ℕ → Url
parse_from url none = parse_rest (codes "http") 80 url
parse_from url (some i) =
    parse_rest (lower (take i url)) (default_port (lower (take i url))) (drop (i + 3) url)

-- `none` is the -1 of the code, for an empty text.
unfoldable pub parse_url : List ℕ → Option Url
unfolding equal
parse_url [] = none
parse_url (c ∷ url) = some (parse_from (c ∷ url) (scheme_end (c ∷ url)))

abbrev pub is_absolute : List ℕ → Bool
is_absolute relative =
    starts_with relative (codes "http://")
    || starts_with relative (codes "https://")
    || starts_with relative (codes "mailto:")

-- `prefix`, an array of 256
abbrev pub prefix_of : Url → List ℕ
prefix_of base = take 255 (base.scheme ++ (codes "://" ++ base.host))

-- `while (k > 0 && text[k] != '/') k--;`
abbrev pub slash_from : List ℕ → ℕ → ℕ
slash_from text zero = zero
slash_from text (suc k) =
    let lower_down = slash_from text k in if char_at text (suc k) == b'/' then suc k else lower_down

-- one `../`: the last component goes, unless only the first slash is left
abbrev pub up : List ℕ → List ℕ
up working =
    let slash = slash_from working (length working - 1) in
    if ltb 0 slash then take slash working else working

-- the loop over the `../` in front: the directory, and what is left of the relative URL
unfoldable pub climb : List ℕ → List ℕ → List ℕ × List ℕ
climb working (a ∷ b ∷ c ∷ rest) =
    let further = climb (up working) rest in
    if a == b'.' && b == b'.' && c == b'/' then further else (working, a ∷ b ∷ c ∷ rest)
climb working relative = (working, relative)

-- the directory of a path: up to its last slash, where it has one
abbrev pub directory : List ℕ → List ℕ
directory working =
    let last = slash_from working (length working - 1) in
    if char_at working last == b'/' then take (last + 1) working else working

abbrev pub rooted : List ℕ → List ℕ
rooted [] = b'/' ∷ []
rooted (c ∷ working) = c ∷ working

abbrev pub resolved_text : Url → List ℕ → List ℕ
resolved_text base relative =
    if char_at relative 0 == b'/'
    then prefix_of base ++ relative
    else let (working, rest) = climb base.path relative in
      prefix_of base ++ (directory (rooted working) ++ rest)

-- The text put into `out`, an array of `out_size`; 0 is not given.
unfoldable pub resolve_relative_url : List ℕ → List ℕ → ℕ → List ℕ
unfolding parse_url climb
resolve_relative_url base_url relative out_size = elim (parse_url base_url) [
  | none ↦ copy relative out_size
  | some base ↦
      if is_absolute relative
      then copy relative out_size
      else copy (resolved_text base relative) out_size
]
