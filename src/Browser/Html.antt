-- ===== src/Browser/Html.antt =====
-- The HTML parser of src/apps/browser.c. The nodes of a document stand in an array of 128; a
-- pointer to one is its index. `children` holds the live ones, so its length is `child_count`. The
-- node `root`, a copy of the first one made at the end, is left out.
pub mod Tag
pub mod Tree
pub mod Parsing
pub mod Rounds
use project_orange_tea.Base.{
  ℕ, zero, suc, ◌+◌, ◌-◌, Bool, true, false, ◌&&◌, ◌||◌, not, Option, none, some, List, [], ◌∷◌,
  ◌++◌, ltb, leb, ◌==◌, if◌then◌else◌, get_or, set, take, drop, length, replicate, codes, char_at,
  take_while, drop_while,
}
use project_orange_tea.Browser.Words.{copy, lower}
use project_orange_tea.Browser.Html.Tag.{parse_tag}
use project_orange_tea.Storage.Bytes.{equal}

abbrev pub max_nodes : ℕ
max_nodes = 128

abbrev pub max_children : ℕ
max_children = 32

-- `BrowserNode`
pub record Node : Type 0 where
  pub tag : List ℕ
  pub text : List ℕ
  pub href : List ℕ
  pub children : List ℕ
  pub parent : Option ℕ

abbrev pub blank_node : Node
blank_node = record { tag = []; text = []; href = []; children = []; parent = none }

-- `BrowserDocument`, and `current`
pub record Document : Type 0 where
  pub nodes : List Node
  pub node_count : ℕ
  pub current : ℕ

abbrev pub node_at : Document → ℕ → Node
node_at d i = get_or d.nodes i blank_node

abbrev pub set_node : Document → ℕ → Node → Document
set_node d i node = record d { nodes = set d.nodes i node }

abbrev pub tagged : List ℕ → Node
tagged tag = record blank_node { tag = copy tag 32 }

-- `browser_new_node`: the index, or `none` where the array is full
unfoldable pub new_node : Document → List ℕ → Option ℕ × Document
new_node d tag = if leb max_nodes d.node_count then (none, d) else (
  some d.node_count,
  record (set_node d d.node_count (tagged tag)) { node_count = d.node_count + 1 },
)

abbrev pub with_parent : Document → ℕ → ℕ → Document
with_parent d parent child = set_node d child (record (node_at d child) { parent = some parent })

abbrev pub with_child : Document → ℕ → ℕ → Document
with_child d parent child =
    set_node d parent
      (record (node_at d parent) { children = (node_at d parent).children ++ (child ∷ []) })

-- A parent that is full does not take the child, which then has no parent.
unfoldable pub add_child : Document → ℕ → ℕ → Document
add_child d parent child =
    if leb max_children (length (node_at d parent).children)
    then d
    else with_child (with_parent d parent child) parent child

abbrev pub attach_text : List ℕ → Option ℕ × Document → Document
attach_text text (none, d) = d
attach_text text (some i, d) =
    add_child (set_node d i (record (node_at d i) { text = copy text 256 })) d.current i

unfoldable pub append_text_node : Document → List ℕ → Document
unfolding new_node add_child
append_text_node d text = attach_text text (new_node d (codes "text"))

abbrev pub put_href : Document → ℕ → List ℕ → Document
put_href d i [] = d
put_href d i (c ∷ href) = set_node d i (record (node_at d i) { href = copy (c ∷ href) 256 })

-- The new element is current from here on.
abbrev pub attach_element : List ℕ → Option ℕ × Document → Document
attach_element href (none, d) = d
attach_element href (some i, d) = record (put_href (add_child d d.current i) i href) { current = i }

abbrev pub open_named : Document → List ℕ → List ℕ → Document
open_named d [] href = d
open_named d (c ∷ tag) href = attach_element href (new_node d (c ∷ tag))

-- an opening tag
unfoldable pub open_tag : Document → List ℕ → Document
unfolding new_node add_child
open_tag d text = let (tag, href) = parse_tag text in open_named d tag href

abbrev pub close_to : Document → Option ℕ → List ℕ → Document
close_to d none name = d
close_to d (some parent) name =
    if equal (node_at d d.current).tag name then record d { current = parent } else d

-- a closing tag; it counts only where it closes the current element
unfoldable pub close_tag : Document → List ℕ → Document
close_tag d name = close_to d (node_at d d.current).parent (lower (copy name 32))

-- what stands between `<` and `>`, cut to the 255 characters that `tag_text` holds
unfoldable pub on_tag : Document → List ℕ → Document
unfolding open_tag close_tag
on_tag d [] = d
on_tag d (c ∷ text) =
    if c == b'/' && not (length text == 0)
    then close_tag d text
    else if c == b'!'
    then d
    else open_tag d (c ∷ text)

abbrev pub not_close : ℕ → Bool
not_close c = not (c == b'>')

abbrev pub not_open : ℕ → Bool
not_open c = not (c == b'<')

abbrev pub ParseMore : Type 0
ParseMore = Document → List ℕ → Option Document

-- behind a `<`: with no `>` to come, only the `<` is passed over
abbrev pub after_open : ParseMore → Document → List ℕ → List ℕ → Option Document
after_open more d text [] = more d text
after_open more d text (c ∷ rest) = more (on_tag d (take 255 (take_while not_close text))) rest

-- The main loop, which goes on while characters are left; `none` where the rounds run out before.
unfoldable pub parse_rounds : ℕ → Document → List ℕ → Option Document
unfolding on_tag append_text_node
parse_rounds zero d [] = some d
parse_rounds zero d (c ∷ html) = none
parse_rounds (suc rounds) d [] = some d
parse_rounds (suc rounds) d (c ∷ html) = elim (c == b'<') [
  | true ↦ after_open (parse_rounds rounds) d html (drop_while not_close html)
  | false ↦
      parse_rounds rounds (append_text_node d (take 255 (take_while not_open (c ∷ html))))
        (drop_while not_open (c ∷ html))
]

-- the document with its first node, from whatever the array held before
abbrev pub start_document : List Node → Document
start_document nodes =
    (new_node (record { nodes = nodes; node_count = 0; current = 0 }) (codes "document")).1

-- with a round for each character of the text
unfoldable pub parse_html_document : List Node → List ℕ → Option Document
unfolding parse_rounds new_node
parse_html_document nodes html = parse_rounds (length html) (start_document nodes) html
