-- ===== src/Browser/Html/Tag.antt =====
-- `browser_parse_tag_attributes` of src/apps/browser.c: the name of a tag and its link.
use project_orange_tea.Base.{
  ℕ, zero, suc, ◌-◌, Bool, ◌&&◌, ◌||◌, not, List, [], ◌∷◌, ◌==◌, if◌then◌else◌, take, drop, length,
  codes, take_while, drop_while,
}
use project_orange_tea.Browser.Words.{lower, is_blank}
use project_orange_tea.Storage.Bytes.{equal}

abbrev pub is_lead : ℕ → Bool
is_lead c = c == b'<' || c == b' '

abbrev pub in_tag_name : ℕ → Bool
in_tag_name c = not (c == b' ') && not (c == b'>') && not (c == b'/')

abbrev pub in_attribute : ℕ → Bool
in_attribute c = not (c == b'=') && not (c == b' ') && not (c == b'>') && not (c == b'/')

abbrev pub in_value : ℕ → Bool
in_value c = not (c == b'"') && not (c == b'\'') && not (c == b'>') && not (c == b' ')

abbrev pub is_quote : ℕ → Bool
is_quote c = c == b'"' || c == b'\''

abbrev pub not_end : ℕ → Bool
not_end c = not (c == b'>') && not (c == b'/')

abbrev pub skip_quote : List ℕ → List ℕ
skip_quote [] = []
skip_quote (c ∷ text) = if is_quote c then text else c ∷ text

-- what a loop into an array of `n` characters takes, and what it leaves
abbrev pub token : (ℕ → Bool) → ℕ → List ℕ → List ℕ
token test n text = take (n - 1) (take_while test text)

-- the link and the text left, behind an attribute's name
abbrev pub after_name : List ℕ → List ℕ → List ℕ → List ℕ × List ℕ
after_name name href [] = (href, [])
after_name name href (c ∷ text) =
    let quoted = skip_quote (drop_while is_blank text) in
    let value = token in_value 256 quoted in
    if c == b'='
    then (
      if equal name (codes "href") then value else href,
      skip_quote (drop (length value) quoted),
    )
    else (href, c ∷ text)

abbrev pub is_break : ℕ → Bool
is_break c = c == b' ' || c == b'\n' || c == b'\t'

-- The loop over the attributes; each round takes a character at least, so as many rounds as there
-- are characters are enough. Behind an attribute everything up to a `>` or `/` is passed over.
unfoldable pub attributes : ℕ → List ℕ → List ℕ → List ℕ
attributes zero href text = href
attributes (suc rounds) href [] = href
attributes (suc rounds) href (c ∷ text) =
    let next = attributes rounds href text in
    let name = token in_attribute 32 (c ∷ text) in
    let (href', left) =
      after_name name href (drop_while is_blank (drop (length name) (c ∷ text))) in
    let further = attributes rounds href' (drop_while not_end left) in
    if c == b'>' || c == b'/' then href else if is_break c then next else further

abbrev pub named : List ℕ → List ℕ → List ℕ × List ℕ
named name text = (lower name, attributes (length text) [] (drop (length name) text))

-- the name in lower case, and the value of `href`, empty where there is none
unfoldable pub parse_tag : List ℕ → List ℕ × List ℕ
unfolding attributes equal
parse_tag text = named (token in_tag_name 32 (drop_while is_lead text)) (drop_while is_lead text)
