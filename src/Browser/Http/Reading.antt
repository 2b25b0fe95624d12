-- ===== src/Browser/Http/Reading.antt =====
-- src/apps/browser.c: `browser_parse_http_response` reads back a response that is put together from
-- its parts.
use mathlib.Core.List.{append_assoc}
use project_orange_tea.Base.{
  ℕ, suc, ◌+◌, ◌-◌, ◌*◌, ◌<◌, ◌≡◌, refl, ap, ◌∙◌, true, false, some, List, ◌∷◌, ◌++◌, ◌==◌,
  if-false, take, length, codes, take_while, drop_while, drop_while-append, take-append-more, all,
  arith,
}
use project_orange_tea.Browser.Http.{
  Response, blank_response, ok, no_status, with_status, behind_headers, with_headers, with_body,
  finished, parse_http_response, code_of, code_text, not_newline, not_space, is_space,
}
use project_orange_tea.Browser.Http.Body.{
  unbroken, Ending, ending_text, behind_headers-unbroken, behind_headers-ending_text,
}

-- a status line, with three digits
abbrev pub status_line : List ℕ → ℕ → ℕ → ℕ → List ℕ → List ℕ
status_line version a b c reason =
    (codes "HTTP/" ++ version) ++ (b' ' ∷ (b'0' + a) ∷ (b'0' + b) ∷ (b'0' + c) ∷ reason)

-- What holds of a status line and the headers that are written.
pub record IsHead (version : List ℕ) (a b c : ℕ) (reason headers : List ℕ) (rest : List ℕ)
    : Type 0 where
  pub version_short : length version < 200
  pub version_plain : all not_space version ≡ true
  pub digits : (a < 10) × (b < 10) × (c < 10)
  pub one_line : all not_newline (status_line version a b c reason) ≡ true
  pub no_break : unbroken (b'\n' ∷ headers) rest ≡ true

module _ (version : List ℕ) (a b c : ℕ) (short : length version < 200)
    (plain : all not_space version ≡ true) (digits : (a < 10) × (b < 10) × (c < 10)) where
  abbrev after_code : List ℕ → List ℕ
  after_code tail = b' ' ∷ (b'0' + a) ∷ (b'0' + b) ∷ (b'0' + c) ∷ tail

  cut :
      (tail : List ℕ)
      → take 255 ((codes "HTTP/" ++ version) ++ after_code tail)
        ≡ (codes "HTTP/" ++ version) ++ after_code (take (246 - length version) tail)
  cut tail =
      take-append-more (codes "HTTP/" ++ version) (after_code tail)
        (suc (suc (suc (suc (246 - length version))))) 255 (omega (arith, short))

  code_text-cut :
      (tail : List ℕ)
      → code_text ((codes "HTTP/" ++ version) ++ after_code tail)
        ≡ (b'0' + a) ∷ (b'0' + b) ∷ (b'0' + c) ∷ tail
  code_text-cut tail =
      ap (drop_while is_space)
        (drop_while-append not_space (codes "HTTP/" ++ version) (after_code tail) plain refl)
      ∙ if-false (drop_while is_space ((b'0' + b) ∷ (b'0' + c) ∷ tail))
          ((b'0' + a) ∷ (b'0' + b) ∷ (b'0' + c) ∷ tail) dark
    where
      dark : (b'0' + a) == b' ' ≡ false
      dark = ground arith

  code_of-digits :
      (tail : List ℕ) → code_of ((b'0' + a) ∷ (b'0' + b) ∷ (b'0' + c) ∷ tail) ≡ a * 100 + b * 10 + c
  code_of-digits tail = let (da, db, dc) = digits in ground arith

  with_status-code :
      (tail : List ℕ)
      → (with_status
          (take 255 ((codes "HTTP/" ++ version) ++ after_code tail))
          blank_response).status_code
        ≡ a * 100 + b * 10 + c
  with_status-code tail =
      ap (λ t. code_of (code_text t)) (cut tail)
      ∙ ap code_of (code_text-cut (take (246 - length version) tail))
      ∙ code_of-digits (take (246 - length version) tail)

-- the whole response
abbrev pub response_text : List ℕ → ℕ → ℕ → ℕ → List ℕ → List ℕ → List ℕ → List ℕ
response_text version a b c reason headers rest =
    status_line version a b c reason ++ (b'\n' ∷ (headers ++ rest))

module _ (version : List ℕ) (a b c : ℕ) (reason headers : List ℕ) (ending : Ending)
    (body : List ℕ) where
  abbrev rest : List ℕ
  rest = ending_text ending ++ body

  abbrev response : List ℕ
  response = response_text version a b c reason headers rest

  abbrev told : Response
  told = with_status (take 255 response) blank_response

  module _ (h : IsHead version a b c reason headers rest) where
    found : behind_headers (drop_while not_newline response) ≡ some body
    found =
        ap behind_headers (
          drop_while-append not_newline (status_line version a b c reason)
            (b'\n' ∷ (headers ++ rest)) h.one_line refl)
        ∙ behind_headers-unbroken (b'\n' ∷ headers) rest h.no_break
        ∙ behind_headers-ending_text ending body

    some_line : length (take_while not_newline response) == 0 ≡ false
    some_line = ground arith

    parsed : parse_http_response response ≡ (ok, with_headers response (with_body body told))
    unfolding parse_http_response
    parsed =
        if-false (no_status, blank_response)
          (finished response told (behind_headers (drop_while not_newline response))) some_line
        ∙ ap (finished response told) found

    code_told : told.status_code ≡ a * 100 + b * 10 + c
    code_told =
        ap (λ t. (with_status (take 255 t) blank_response).status_code)
          (append_assoc (codes "HTTP/" ++ version)
            (b' ' ∷ (b'0' + a) ∷ (b'0' + b) ∷ (b'0' + c) ∷ reason) (b'\n' ∷ (headers ++ rest)))
        ∙ with_status-code version a b c h.version_short h.version_plain h.digits
            (reason ++ (b'\n' ∷ (headers ++ rest)))

    -- A response of a status line `HTTP/`version, a code of three digits and a reason, of headers
    -- in which no empty line begins, of an empty line in either form and of a body is parsed
    -- without an error, into that code and the first 2047 characters of that body. The version has
    -- fewer than 200 characters and no space in it, and the status line no newline.
    pub parse_http_response-response_text :
        ((parse_http_response response).0 ≡ ok)
        × ((parse_http_response response).1.status_code ≡ a * 100 + b * 10 + c)
        × ((parse_http_response response).1.body ≡ take 2047 body)
    parse_http_response-response_text = (
      ap (λ r. r.0) parsed,
      ap (λ r. r.1.status_code) parsed ∙ code_told,
      ap (λ r. r.1.body) parsed,
    )
