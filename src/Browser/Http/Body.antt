-- ===== src/Browser/Http/Body.antt =====
-- src/apps/browser.c: what `browser_parse_http_response` gives for a response put together from its
-- parts, and its bounds.
use project_orange_tea.Base.{
  ℕ, ◌≤◌, ◌<◌, ◌≡◌, refl, Bool, true, false, ◌&&◌, not, Option, none, some, List, [], ◌∷◌, ◌++◌,
  ◌==◌, if◌then◌else◌, take, drop, length, codes, take_while, drop_while, length-take, arith,
}
use project_orange_tea.Browser.Words.{starts_with}
use project_orange_tea.Browser.Http.{
  Response, blank_response, HttpStatus, no_status, with_status, unix_end, dos_end, behind_headers,
  finished, parse_http_response, find_header_value, code_of, code_text, not_newline, lines_from,
  header_in, is_space,
}

-- no empty line begins inside the header, whatever character comes next
abbrev pub unbroken : List ℕ → List ℕ → Bool
unbroken [] rest = true
unbroken (c ∷ header) rest =
    not (unix_end (c ∷ (header ++ rest)))
    && (not (dos_end (c ∷ (header ++ rest))) && unbroken header rest)

-- the fields in their arrays, and a code below 1000
pub record IsInBounds (r : Response) : Type 0 where
  pub code_in : r.status_code < 1000
  pub reason_fits : length r.reason < 64
  pub location_fits : length r.location < 256
  pub mime_fits : length r.mime < 64
  pub body_fits : length r.body < 2048

blank-IsInBounds : IsInBounds blank_response
blank-IsInBounds = record {
  code_in = omega arith;
  reason_fits = omega arith;
  location_fits = omega arith;
  mime_fits = omega arith;
  body_fits = omega arith;
}

code_of_bound : (text : List ℕ) → code_of text < 1000
code_of_bound text = ground arith

length-copied : (text : List ℕ) (n : ℕ) → length (take n text) ≤ n
length-copied text n = omega (arith, length-take n text)

with_status-IsInBounds :
    (line : List ℕ) (r : Response) → IsInBounds r → IsInBounds (with_status line r)
with_status-IsInBounds line r h = by_test (starts_with line (codes "HTTP/"))
  where
    told : Response
    told = record r {
      status_code = code_of (code_text line);
      reason = take 63 (drop_while is_space (drop 3 (code_text line)));
    }

    by_test : (b : Bool) → IsInBounds (if b then told else r)
    by_test true = record {
      code_in = code_of_bound (code_text line);
      reason_fits = omega (arith, length-copied (drop_while is_space (drop 3 (code_text line))) 63);
      location_fits = h.location_fits;
      mime_fits = h.mime_fits;
      body_fits = h.body_fits;
    }
    by_test false = h

finished-IsInBounds :
    (response : List ℕ) (r : Response) (rest : Option (List ℕ))
    → IsInBounds r
    → IsInBounds (finished response r rest).1
unfolding find_header_value
finished-IsInBounds response r none h = h
finished-IsInBounds response r (some rest) h = record {
  code_in = h.code_in;
  reason_fits = h.reason_fits;
  location_fits =
      omega (arith, length-copied (header_in (lines_from [] response) (codes "Location:")) 255);
  mime_fits =
      omega (arith, length-copied (find_header_value response (codes "Content-Type:") 128) 63);
  body_fits = omega (arith, length-copied rest 2047);
}

-- Whatever the response is, and on errors too, the code found is below 1000 and the reason, the
-- location, the type and the body fit in their arrays.
pub parse_http_response-IsInBounds :
    (response : List ℕ) → IsInBounds (parse_http_response response).1
unfolding parse_http_response
parse_http_response-IsInBounds response = by_test (length (take_while not_newline response) == 0)
  where
    told : Response
    told = with_status (take 255 response) blank_response

    left : Option (List ℕ)
    left = behind_headers (drop_while not_newline response)

    parsed : IsInBounds (finished response told left).1
    parsed =
        finished-IsInBounds response told left
          (with_status-IsInBounds (take 255 response) blank_response blank-IsInBounds)

    response_by : Bool → HttpStatus × Response
    response_by b = if b then (no_status, blank_response) else finished response told left

    by_test : (b : Bool) → IsInBounds (response_by b).1
    by_test true = blank-IsInBounds
    by_test false = parsed

pub behind_headers-unbroken :
    (header rest : List ℕ)
    → unbroken header rest ≡ true
    → behind_headers (header ++ rest) ≡ behind_headers rest
unfolding behind_headers
behind_headers-unbroken [] rest h = refl
behind_headers-unbroken (c ∷ header) rest h =
    by_tests (unix_end (c ∷ (header ++ rest))) (dos_end (c ∷ (header ++ rest))) h
      (behind_headers-unbroken header rest)
  where
    further : Option (List ℕ)
    further = behind_headers (header ++ rest)

    by_tests :
        (u d : Bool)
        → not u && (not d && unbroken header rest) ≡ true
        → (unbroken header rest ≡ true → further ≡ behind_headers rest)
        → (if u
            then some (drop 1 (header ++ rest))
            else if d
            then some (drop 3 (header ++ rest))
            else further)
          ≡ behind_headers rest
    by_tests true d h go = cc
    by_tests false true h go = cc
    by_tests false false h go = go h

-- The two ways to write an empty line.
pub data Ending : Type 0 where
  unix dos : Ending

abbrev pub ending_text : Ending → List ℕ
ending_text unix = b'\n' ∷ b'\n' ∷ []
ending_text dos = b'\r' ∷ b'\n' ∷ b'\r' ∷ b'\n' ∷ []

pub behind_headers-ending_text :
    (e : Ending) (body : List ℕ) → behind_headers (ending_text e ++ body) ≡ some body
unfolding behind_headers
behind_headers-ending_text unix body = refl
behind_headers-ending_text dos body = refl
