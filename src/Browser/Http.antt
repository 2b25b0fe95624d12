-- ===== src/Browser/Http.antt =====
-- `browser_find_header_value` and `browser_parse_http_response` of src/apps/browser.c.
pub mod Body
pub mod Reading
use project_orange_tea.Base.{
  ℕ, zero, suc, ◌+◌, ◌-◌, ◌*◌, ◌%◌, ◌^◌, Bool, true, false, ◌&&◌, ◌||◌, not, Option, none, some,
  List, [], ◌∷◌, ◌++◌, leb, ◌==◌, if◌then◌else◌, get_or, take, drop, length, first_where, codes,
  char_at, take_while, drop_while,
}
use project_orange_tea.Browser.Words.{copy, starts_with, trim_right, is_blank}

-- `BrowserHttpResponse`
pub record Response : Type 0 where
  pub status_code : ℕ
  pub reason : List ℕ
  pub location : List ℕ
  pub content_length : Option ℕ
  pub chunked : Bool
  pub mime : List ℕ
  pub body : List ℕ

abbrev pub blank_response : Response
blank_response = record {
  status_code = 0;
  reason = [];
  location = [];
  content_length = none;
  chunked = false;
  mime = [];
  body = [];
}

-- 0, and the errors -1 and -2
pub data HttpStatus : Type 0 where
  ok no_status no_headers : HttpStatus

-- The lines of a text, each ended by a newline; `line` is what was read of the first one.
unfoldable pub lines_from : List ℕ → List ℕ → List (List ℕ)
lines_from line [] = []
lines_from line (c ∷ text) =
    let next = lines_from [] text in
    let more = lines_from (line ++ (c ∷ [])) text in if c == b'\n' then line ∷ next else more

-- `line`, an array of 256
abbrev pub header_line : List ℕ → List ℕ
header_line line = trim_right (take 255 line)

unfoldable pub header_in : List (List ℕ) → List ℕ → List ℕ
header_in [] name = []
header_in (line ∷ lines) name =
    let rest = header_in lines name in
    if starts_with (header_line line) name
    then drop_while is_blank (drop (length name) (header_line line))
    else rest

-- The value of the first line that starts with the name, in the headers or behind them.
unfoldable pub find_header_value : List ℕ → List ℕ → ℕ → List ℕ
unfolding lines_from header_in
find_header_value response name out_size = copy (header_in (lines_from [] response) name) out_size

abbrev pub is_digit : ℕ → Bool
is_digit c = leb b'0' c && leb c b'9'

abbrev pub digit_at : List ℕ → ℕ → ℕ → ℕ
digit_at text i scale = if is_digit (char_at text i) then (char_at text i - b'0') * scale else 0

-- The code in a status line, from its first digit on. What stands behind the NUL of `status_line`
-- is not set by the code; the model reads 0 there.
abbrev pub code_of : List ℕ → ℕ
code_of text =
    if is_digit (char_at text 0)
    then digit_at text 0 100 + digit_at text 1 10 + digit_at text 2 1
    else 0

abbrev pub is_space : ℕ → Bool
is_space c = c == b' '

abbrev pub not_space : ℕ → Bool
not_space c = not (c == b' ')

-- what stands in the status line from the code on
abbrev pub code_text : List ℕ → List ℕ
code_text status_line = drop_while is_space (drop_while not_space status_line)

-- `status_line` holds up to 255 characters of the response, past the end of its first line.
abbrev pub with_status : List ℕ → Response → Response
with_status status_line r =
    if starts_with status_line (codes "HTTP/")
    then record r {
      status_code = code_of (code_text status_line);
      reason = take 63 (drop_while is_space (drop 3 (code_text status_line)));
    }
    else r

abbrev pub not_newline : ℕ → Bool
not_newline c = not (c == b'\n')

abbrev pub unix_end : List ℕ → Bool
unix_end text = char_at text 0 == b'\n' && char_at text 1 == b'\n'

abbrev pub dos_end : List ℕ → Bool
dos_end text =
    char_at text 0 == b'\r'
    && char_at text 1 == b'\n'
    && char_at text 2 == b'\r'
    && char_at text 3 == b'\n'

-- what stands behind the first empty line; `none` where there is none
unfoldable pub behind_headers : List ℕ → Option (List ℕ)
behind_headers [] = none
behind_headers (c ∷ text) =
    let further = behind_headers text in
    if unix_end (c ∷ text)
    then some (drop 1 text)
    else if dos_end (c ∷ text)
    then some (drop 3 text)
    else further

abbrev pub number_from : ℕ → List ℕ → ℕ
number_from value [] = value
number_from value (c ∷ cs) =
    let more = number_from ((value * 10 + (c - b'0')) % 2 ^ 32) cs in
    if is_digit c then more else value

abbrev pub length_of : List ℕ → Option ℕ
length_of value = if is_digit (char_at value 0) then some (number_from 0 value) else none

abbrev pub with_headers : List ℕ → Response → Response
with_headers response r = record r {
  content_length = length_of (find_header_value response (codes "Content-Length:") 32);
  chunked =
      starts_with (find_header_value response (codes "Transfer-Encoding:") 32) (codes "chunked");
  location = find_header_value response (codes "Location:") 256;
  mime = copy (find_header_value response (codes "Content-Type:") 128) 64;
}

abbrev pub with_body : List ℕ → Response → Response
with_body rest r = record r { body = take 2047 rest }

abbrev pub finished : List ℕ → Response → Option (List ℕ) → HttpStatus × Response
finished response r none = (no_headers, r)
finished response r (some rest) = (ok, with_headers response (with_body rest r))

-- The response stands beside the error, as it was filled in.
unfoldable pub parse_http_response : List ℕ → HttpStatus × Response
unfolding behind_headers find_header_value
parse_http_response response =
    if length (take_while not_newline response) == 0
    then (no_status, blank_response)
    else finished response (with_status (take 255 response) blank_response)
        (behind_headers (drop_while not_newline response))
