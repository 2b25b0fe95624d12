-- ===== src/Browser/Url/RoundTrip.antt =====
-- src/apps/browser.c: a URL without a port that is put together from its parts is parsed back into
-- them, and what a link that starts with a slash makes of such a URL.
use mathlib.Core.List.{append_assoc}
use project_orange_tea.Base.{
  ℕ, suc, ◌+◌, ◌-◌, ◌≤◌, ◌<◌, ◌≡◌, refl, ap, ◌∙◌, Bool, true, false, not, some, List, [], ◌∷◌, ◌++◌,
  ◌==◌, if◌then◌else◌, if-true, if-false, elim-some, take, drop, length, codes, char_at, take_while,
  drop_while, take_while-append, drop_while-append, char_at-append, char_at_behind, all-char_at,
  drop_behind, first_where_at, take-append, take_all, length-append, all, stops, arith,
}
use project_orange_tea.Browser.Words.{copy, lower, lower_char}
use project_orange_tea.Browser.Url.{
  Url, ends_scheme, scheme_end, in_host, default_port, named_host, path_at, port_from, skip_colon,
  behind_host, parse_rest, parse_from, parse_url, resolve_relative_url, prefix_of, resolved_text,
  is_absolute,
}

abbrev pub not_colon : ℕ → Bool
not_colon c = not (c == b':')

-- the parts that a URL is put together from, each in its array of the code
pub record IsUrl (scheme host path : List ℕ) : Type 0 where
  pub scheme_fits : length scheme < 16
  pub host_fits : length host < 128
  pub host_some : 0 < length host
  pub path_fits : length path < 256
  pub scheme_plain : all not_colon scheme ≡ true
  pub host_plain : all in_host host ≡ true
  pub path_rooted : char_at path 0 ≡ b'/'

-- a URL as it is written
abbrev pub url_text : List ℕ → List ℕ → List ℕ → List ℕ
url_text scheme host path = scheme ++ (codes "://" ++ (host ++ path))

parse_url-some :
    (url : List ℕ) → 0 < length url → parse_url url ≡ some (parse_from url (scheme_end url))
unfolding parse_url
parse_url-some [] h = absurd (omega (arith, h))
parse_url-some (c ∷ url) h = refl

module _ (scheme rest : List ℕ) (plain : all not_colon scheme ≡ true) where
  abbrev behind : List ℕ
  behind = codes "://" ++ rest

  ends_at : ends_scheme (scheme ++ behind) (length scheme) ≡ true
  ends_at =
      let first : char_at (scheme ++ behind) (length scheme) ≡ b':' =
        char_at_behind scheme behind 0 (length scheme) (omega arith) in
      let second : char_at (scheme ++ behind) (length scheme + 1) ≡ b'/' =
        char_at_behind scheme behind 1 (length scheme + 1) (omega arith) in
      ground arith

  not_before : (m : ℕ) → 0 ≤ m → m < length scheme → ends_scheme (scheme ++ behind) m ≡ false
  not_before m _ h =
      let here : char_at (scheme ++ behind) m ≡ char_at scheme m =
        char_at-append scheme behind m h in
      let clean : not_colon (char_at scheme m) ≡ true = all-char_at not_colon scheme m plain h in
      ground arith

  scheme_end-behind : scheme_end (scheme ++ behind) ≡ some (length scheme)
  scheme_end-behind =
      first_where_at (ends_scheme (scheme ++ behind)) (length (scheme ++ behind)) 0 (length scheme)
        (omega arith) (omega (arith, length-append scheme behind)) ends_at not_before

  parse_from-behind :
      parse_from (scheme ++ behind) (some (length scheme))
      ≡ parse_rest (lower scheme) (default_port (lower scheme)) rest
  parse_from-behind =
      let head : take (length scheme) (scheme ++ behind) ≡ scheme =
        take-append scheme behind (length scheme) refl in
      let tail : drop (length scheme + 3) (scheme ++ behind) ≡ rest =
        drop_behind scheme behind 3 (length scheme + 3) refl in
      ap
        (λ s.
          parse_rest (lower s) (default_port (lower s))
            (drop (length scheme + 3) (scheme ++ behind)))
        head
      ∙ ap (parse_rest (lower scheme) (default_port (lower scheme))) tail

  parse_url-behind :
      parse_url (scheme ++ behind)
      ≡ some (parse_rest (lower scheme) (default_port (lower scheme)) rest)
  parse_url-behind =
      parse_url-some (scheme ++ behind) (omega (arith, length-append scheme behind))
      ∙ ap (λ i. some (parse_from (scheme ++ behind) i)) scheme_end-behind
      ∙ ap some parse_from-behind

path_at_root : (path : List ℕ) → char_at path 0 ≡ b'/' → length path < 256 → path_at path ≡ path
path_at_root [] h fits = absurd (omega (arith, h))
path_at_root (c ∷ path) h fits =
    let slash : c == b'/' ≡ true = ground arith in
    if-true (take 255 (c ∷ path)) (b'/' ∷ []) slash ∙ take_all 255 (c ∷ path) (omega (arith, fits))

behind_host_root :
    (default : ℕ) (path : List ℕ)
    → char_at path 0 ≡ b'/'
    → length path < 256
    → behind_host default path ≡ (default, path)
behind_host_root default [] h fits = absurd (omega (arith, h))
behind_host_root default (c ∷ path) h fits =
    let plain : c == b':' ≡ false = ground arith in
    if-false (port_from 0 path, path_at (skip_colon path)) (default, path_at (c ∷ path)) plain
    ∙ ap (λ p. (default, p)) (path_at_root (c ∷ path) h fits)

named_host_some : (host : List ℕ) → 0 < length host → named_host host ≡ host
named_host_some [] h = absurd (omega (arith, h))
named_host_some (c ∷ host) h = refl

slash-stops : (path : List ℕ) → char_at path 0 ≡ b'/' → stops in_host path ≡ true
slash-stops [] h = refl
slash-stops (c ∷ path) h = ground arith

abbrev pub url_of : List ℕ → List ℕ → List ℕ → Url
url_of scheme host path = record {
  scheme = lower scheme;
  host = host;
  path = path;
  port = default_port (lower scheme);
}

parse_rest_path :
    (scheme host path : List ℕ) (default : ℕ)
    → IsUrl scheme host path
    → parse_rest (lower scheme) default (host ++ path)
      ≡ record { scheme = lower scheme; host = host; path = path; port = default }
parse_rest_path scheme host path default u =
    let front : take_while in_host (host ++ path) ≡ host =
      take_while-append in_host host path u.host_plain (slash-stops path u.path_rooted) in
    let back : drop_while in_host (host ++ path) ≡ path =
      drop_while-append in_host host path u.host_plain (slash-stops path u.path_rooted) in
    let pair : behind_host default (drop_while in_host (host ++ path)) ≡ (default, path) =
      ap (behind_host default) back ∙ behind_host_root default path u.path_rooted u.path_fits in
    ap
      (λ b. record {
        scheme = lower scheme;
        host = named_host (take_while in_host (host ++ path));
        path = b.1;
        port = b.0;
      })
      pair
    ∙ ap (λ h. record { scheme = lower scheme; host = h; path = path; port = default })
        (ap named_host front ∙ named_host_some host u.host_some)

-- The text scheme://host/path, with each part in its array, no colon in the scheme and no colon or
-- slash in the host, is parsed into the scheme in lower case, the host, the path, and the port 443
-- for https, 80 otherwise.
pub parse_url-url_text :
    (scheme host path : List ℕ)
    → IsUrl scheme host path
    → parse_url (url_text scheme host path) ≡ some (url_of scheme host path)
parse_url-url_text scheme host path u =
    parse_url-behind scheme (host ++ path) u.scheme_plain
    ∙ ap some (parse_rest_path scheme host path _ u)

lower_char-lower_char : (c : ℕ) → lower_char (lower_char c) ≡ lower_char c
lower_char-lower_char c = ground arith

lower-lower : (text : List ℕ) → lower (lower text) ≡ lower text
lower-lower [] = refl
lower-lower (c ∷ text) =
    ap (λ d. d ∷ lower (lower text)) (lower_char-lower_char c)
    ∙ ap (λ t. lower_char c ∷ t) (lower-lower text)

length-lower : (text : List ℕ) → length (lower text) ≡ length text
length-lower [] = refl
length-lower (c ∷ text) = ap suc (length-lower text)

lower_plain : (text : List ℕ) → all not_colon text ≡ true → all not_colon (lower text) ≡ true
lower_plain [] h = refl
lower_plain (c ∷ text) h = ground (arith, lower_plain text)

rooted_not_absolute : (relative : List ℕ) → char_at relative 0 ≡ b'/' → is_absolute relative ≡ false
rooted_not_absolute [] h = absurd (omega (arith, h))
rooted_not_absolute (c ∷ relative) h = ground arith

module _ (scheme host path relative : List ℕ) (u : IsUrl scheme host path) (out_size : ℕ) where
  linked-IsUrl :
      char_at relative 0 ≡ b'/' → length relative < 256 → IsUrl (lower scheme) host relative
  linked-IsUrl root fits = record {
    scheme_fits = omega (arith, length-lower scheme, u.scheme_fits);
    host_fits = u.host_fits;
    host_some = u.host_some;
    path_fits = fits;
    scheme_plain = lower_plain scheme u.scheme_plain;
    host_plain = u.host_plain;
    path_rooted = root;
  }

  resolve_rooted :
      char_at relative 0 ≡ b'/'
      → length scheme + length host + length relative + 3 < out_size
      → resolve_relative_url (url_text scheme host path) relative out_size
        ≡ url_text (lower scheme) host relative
  unfolding resolve_relative_url
  resolve_rooted root fits =
      elim-some (copy relative out_size) resolved parsed
      ∙ if-false (copy relative out_size) (copy (resolved_text base relative) out_size)
          (rooted_not_absolute relative root)
      ∙ ap (λ t. copy t out_size) (if-true (prefix_of base ++ relative) _ slash ∙ joined)
      ∙ take_all (out_size - 1) (url_text (lower scheme) host relative) whole
    where
      base : Url
      base = url_of scheme host path

      resolved : Url → List ℕ
      resolved b =
          if is_absolute relative
          then copy relative out_size
          else copy (resolved_text b relative) out_size

      parsed : parse_url (url_text scheme host path) ≡ some base
      parsed = parse_url-url_text scheme host path u

      slash : char_at relative 0 == b'/' ≡ true
      slash = ground arith

      sizes : length (lower scheme ++ (codes "://" ++ host)) ≤ 255
      sizes = omega (
        arith,
        length-append (lower scheme) (codes "://" ++ host),
        length-lower scheme,
        u.scheme_fits,
        u.host_fits,
      )

      joined : prefix_of base ++ relative ≡ url_text (lower scheme) host relative
      joined =
          ap (λ p. p ++ relative) (take_all 255 _ sizes)
          ∙ append_assoc (lower scheme) (codes "://" ++ host) relative

      whole : length (url_text (lower scheme) host relative) ≤ out_size - 1
      whole = omega (
        arith,
        length-append (lower scheme) (codes "://" ++ (host ++ relative)),
        length-append host relative,
        length-lower scheme,
        fits,
      )

  -- A link that starts with a slash, resolved against a URL without a port and parsed again, is the
  -- link's path with the URL's scheme and host and the scheme's usual port. The URL is a scheme of
  -- at most 15 characters without a colon, `://`, a host of 1 to 127 characters without a colon or
  -- a slash, and a path of at most 255 characters that starts with a slash; the link has at most
  -- 255 characters, and the array given has room for the resolved URL.
  pub parse_url-resolve_relative_url :
      char_at relative 0 ≡ b'/'
      → length relative < 256
      → length scheme + length host + length relative + 3 < out_size
      → parse_url (resolve_relative_url (url_text scheme host path) relative out_size)
        ≡ some (url_of scheme host relative)
  parse_url-resolve_relative_url root few fits =
      ap parse_url (resolve_rooted root fits)
      ∙ parse_url-url_text (lower scheme) host relative (linked-IsUrl root few)
      ∙ ap (λ s. some (record { scheme = s; host = host; path = relative; port = default_port s }))
          (lower-lower scheme)
