-- ===== src/Browser/Html/Parsing.antt =====
-- src/apps/browser.c: every step of the HTML parser keeps the order and the bounds of the nodes in
-- their array and a live current element. A node need not have a parent, and the parent that a node
-- names need not have it among its children.
use mathlib.Core.Path.{subst}
use mathlib.Core.Option.{some-injective}
use project_orange_tea.Base.{
  ℕ, zero, suc, ◌<◌, ◌≡◌, refl, sym, Bool, true, false, ◌&&◌, not, Option, none, some, List, [],
  ◌∷◌, leb, ◌==◌, if◌then◌else◌, if-true, if-false, take, length, length-append, get_or-set_ne,
  take_while, drop_while, arith, Bool-cases, inl, inr, codes,
}
use project_orange_tea.Browser.Words.{copy, lower}
use project_orange_tea.Browser.Html.Tag.{parse_tag}
use project_orange_tea.Browser.Html.{
  max_nodes, max_children, Node, blank_node, Document, node_at, set_node, new_node, with_parent,
  with_child, add_child, attach_text, append_text_node, put_href, attach_element, open_named,
  open_tag, close_to, close_tag, on_tag, not_close, not_open, ParseMore, after_open, parse_rounds,
  start_document, parse_html_document,
}
use project_orange_tea.Browser.Html.Tree.{
  IsNode, IsForest, IsTree, after-append, length-copy, set_node-IsForest, grown, grown-IsForest,
  Made, new_node-Made,
}
use project_orange_tea.Browser.Html.Rounds.{parse_rounds_enough}
use project_orange_tea.Storage.Bytes.{equal}

-- a step that leaves the current element and the number of nodes
abbrev Keeps : Document → Document → Type 0
Keeps d e = IsForest e × (e.node_count ≡ d.node_count) × (e.current ≡ d.current)

module _ (d : Document) (f : IsForest d) (parent child : ℕ) (before : parent < child)
    (inside : child < d.node_count) where
  with_parent-IsForest : IsForest (with_parent d parent child)
  with_parent-IsForest =
      let n : IsNode d.node_count child (node_at d child) = f.live child inside in
      set_node-IsForest d f child _ inside (record {
        parent_before = λ p e. subst (λ q. q < child) (some-injective parent p e) before;
        children_after = n.children_after;
        few_children = n.few_children;
        tag_fits = n.tag_fits;
        text_fits = n.text_fits;
        href_fits = n.href_fits;
      })

  room_left :
      leb max_children (length (node_at d parent).children) ≡ false
      → IsForest (with_child (with_parent d parent child) parent child)
  room_left room =
      let n : IsNode d.node_count parent (node_at (with_parent d parent child) parent) =
        with_parent-IsForest.live parent (omega arith) in
      let same : node_at (with_parent d parent child) parent ≡ node_at d parent =
        get_or-set_ne d.nodes child parent _ blank_node (omega arith) in
      let few : length (node_at (with_parent d parent child) parent).children < max_children =
        subst (λ m. length m.children < max_children) (sym same) (ground arith) in
      set_node-IsForest (with_parent d parent child) with_parent-IsForest parent _ (omega arith)
        (record {
          parent_before = n.parent_before;
          children_after = after-append d.node_count parent child _ n.children_after before inside;
          few_children = omega (
            arith,
            few,
            length-append (node_at (with_parent d parent child) parent).children (child ∷ []),
          );
          tag_fits = n.tag_fits;
          text_fits = n.text_fits;
          href_fits = n.href_fits;
        })

  add_child-Keeps : Keeps d (add_child d parent child)
  unfolding add_child
  add_child-Keeps = elim (Bool-cases (leb max_children (length (node_at d parent).children))) [
    | inl full ↦ subst (Keeps d) (sym (if-true _ _ full)) (f, refl, refl)
    | inr room ↦ subst (Keeps d) (sym (if-false d _ room)) (room_left room, refl, refl)
  ]

module _ (d : Document) (f : IsForest d) (i : ℕ) (inside : i < d.node_count) where
  with_text-IsForest :
      (text : List ℕ) → IsForest (set_node d i (record (node_at d i) { text = copy text 256 }))
  with_text-IsForest text =
      let n : IsNode d.node_count i (node_at d i) = f.live i inside in
      set_node-IsForest d f i _ inside (record {
        parent_before = n.parent_before;
        children_after = n.children_after;
        few_children = n.few_children;
        tag_fits = n.tag_fits;
        text_fits = length-copy text 256 (omega arith);
        href_fits = n.href_fits;
      })

  put_href-Keeps : (href : List ℕ) → Keeps d (put_href d i href)
  put_href-Keeps [] = (f, refl, refl)
  put_href-Keeps (c ∷ href) =
      let n : IsNode d.node_count i (node_at d i) = f.live i inside in
      (
        set_node-IsForest d f i _ inside (record {
          parent_before = n.parent_before;
          children_after = n.children_after;
          few_children = n.few_children;
          tag_fits = n.tag_fits;
          text_fits = n.text_fits;
          href_fits = length-copy (c ∷ href) 256 (omega arith);
        }),
        refl,
        refl,
      )

Keeps-IsTree : (d e : Document) → Keeps d e → d.current < d.node_count → IsTree e
Keeps-IsTree d e (f, same, at) h = (f, omega (arith, same, at, h))

-- a text, by what the new node was
attach_text-IsTree :
    (d : Document) (text : List ℕ) (made : Option ℕ × Document)
    → Made d (codes "text") made
    → IsTree d
    → IsTree (attach_text text made)
attach_text-IsTree d text made (inl e) (f, at) =
    subst (λ m. IsTree (attach_text text m)) (sym e) (f, at)
attach_text-IsTree d text made (inr (below, e)) (f, at) =
    let g : IsForest (grown d (codes "text")) = grown-IsForest d (codes "text") f below in
    let text_in : Document =
      set_node (grown d (codes "text")) d.node_count
        (record (node_at (grown d (codes "text")) d.node_count) { text = copy text 256 }) in
    let h : IsForest text_in =
      with_text-IsForest (grown d (codes "text")) g d.node_count (omega arith) text in
    subst (λ m. IsTree (attach_text text m)) (sym e)
      (Keeps-IsTree text_in (add_child text_in d.current d.node_count)
        (add_child-Keeps text_in h d.current d.node_count at (omega arith)) (omega arith))

append_text_node-IsTree :
    (d : Document) (text : List ℕ) → IsTree d → IsTree (append_text_node d text)
unfolding append_text_node
append_text_node-IsTree d text t = attach_text-IsTree d text _ (new_node-Made d (codes "text")) t

attach_element-IsTree :
    (d : Document) (tag href : List ℕ) (made : Option ℕ × Document)
    → Made d tag made
    → IsTree d
    → IsTree (attach_element href made)
attach_element-IsTree d tag href made (inl e) (f, at) =
    subst (λ m. IsTree (attach_element href m)) (sym e) (f, at)
attach_element-IsTree d tag href made (inr (below, e)) (f, at) =
    let g : IsForest (grown d tag) = grown-IsForest d tag f below in
    let (h, same, _) = add_child-Keeps (grown d tag) g d.current d.node_count at (omega arith) in
    let (k, same', _) =
      put_href-Keeps (add_child (grown d tag) d.current d.node_count) h d.node_count
        (omega (arith, same)) href in
    subst (λ m. IsTree (attach_element href m)) (sym e)
      (record { slots = k.slots; count_in = k.count_in; live = k.live }, omega (arith, same, same'))

open_named-IsTree : (d : Document) (tag href : List ℕ) → IsTree d → IsTree (open_named d tag href)
open_named-IsTree d [] href t = t
open_named-IsTree d (c ∷ tag) href t =
    attach_element-IsTree d (c ∷ tag) href _ (new_node-Made d (c ∷ tag)) t

open_tag-IsTree : (d : Document) (text : List ℕ) → IsTree d → IsTree (open_tag d text)
unfolding open_tag
open_tag-IsTree d text t = open_named-IsTree d (parse_tag text).0 (parse_tag text).1 t

close_to-IsTree :
    (d : Document) (parent : Option ℕ) (name : List ℕ)
    → (node_at d d.current).parent ≡ parent
    → IsTree d
    → IsTree (close_to d parent name)
close_to-IsTree d none name e t = t
close_to-IsTree d (some parent) name e (f, at) = by_name (equal (node_at d d.current).tag name)
  where
    before : parent < d.current
    before = (f.live d.current at).parent_before parent e

    by_name : (b : Bool) → IsTree (if b then record d { current = parent } else d)
    by_name true = (
      record { slots = f.slots; count_in = f.count_in; live = f.live },
      omega (arith, before, at),
    )
    by_name false = (f, at)

on_tag-IsTree : (d : Document) (text : List ℕ) → IsTree d → IsTree (on_tag d text)
unfolding on_tag close_tag
on_tag-IsTree d [] t = t
on_tag-IsTree d (c ∷ text) t = by_tests (c == b'/' && not (length text == 0)) (c == b'!')
  where
    by_tests :
        (close comment : Bool)
        → IsTree (if close then close_tag d text else if comment then d else open_tag d (c ∷ text))
    by_tests true comment = close_to-IsTree d _ (lower (copy text 32)) refl t
    by_tests false true = t
    by_tests false false = open_tag-IsTree d (c ∷ text) t

-- The parser comes to the end of the text, with such a document.
abbrev pub Gives : Option Document → Type 0
Gives o = (d : Document) × (o ≡ some d) × IsTree d

-- Where a document comes out, it is such a one.
abbrev Only : Option Document → Type 0
Only o = (e : Document) → o ≡ some e → IsTree e

some-Only : (d : Document) → IsTree d → Only (some d)
some-Only d t e same = subst IsTree (some-injective d e same) t

after_open-IsTree :
    (more : ParseMore)
    → ((d : Document) (html : List ℕ) → IsTree d → Only (more d html))
    → (d : Document) (text rest : List ℕ) → IsTree d
    → Only (after_open more d text rest)
after_open-IsTree more h d text [] t = h d text t
after_open-IsTree more h d text (c ∷ rest) t =
    h _ rest (on_tag-IsTree d (take 255 (take_while not_close text)) t)

parse_rounds-IsTree :
    (rounds : ℕ) (d : Document) (html : List ℕ) → IsTree d → Only (parse_rounds rounds d html)
unfolding parse_rounds
parse_rounds-IsTree zero d [] t = some-Only d t
parse_rounds-IsTree zero d (c ∷ html) t = λ e same. cc
parse_rounds-IsTree (suc rounds) d [] t = some-Only d t
parse_rounds-IsTree (suc rounds) d (c ∷ html) t = by_test (parse_rounds-IsTree rounds) (c == b'<')
  where
    more : ParseMore
    more = parse_rounds rounds

    by_test :
        ((e : Document) (left : List ℕ) → IsTree e → Only (more e left))
        → (b : Bool)
        → Only (elim b as (λ _. Option Document) [
          | true ↦ after_open more d html (drop_while not_close html)
          | false ↦
              more
                (append_text_node d (take 255 (take_while not_open (c ∷ html))))
                (drop_while not_open (c ∷ html))
        ])
    by_test h true = after_open-IsTree more h d html (drop_while not_close html) t
    by_test h false =
        h _ _ (append_text_node-IsTree d (take 255 (take_while not_open (c ∷ html))) t)

start_document-IsTree :
    (nodes : List Node) → length nodes ≡ max_nodes → IsTree (start_document nodes)
unfolding new_node
start_document-IsTree nodes h =
    let bare : Document = record { nodes = nodes; node_count = 0; current = 0 } in
    (
      grown-IsForest bare (codes "document")
          (record {
            slots = h;
            count_in = omega arith;
            live = λ i inside. absurd (omega (arith, inside));
          })
          (omega arith),
      omega arith,
    )

-- Whatever the HTML is, and whatever the array of 128 nodes held before, the parser comes to the
-- end of the text, with a document of at most 128 nodes; the parent of each stands before it and
-- its at most 32 children behind it, so that there is no cycle; the tag, the text and the link of
-- each fit in their arrays; and the current element is one of the nodes.
pub parse_html_document-IsTree :
    (nodes : List Node) (html : List ℕ)
    → length nodes ≡ max_nodes
    → Gives (parse_html_document nodes html)
unfolding parse_html_document
parse_html_document-IsTree nodes html h =
    let (d, parsed, _) =
      parse_rounds_enough (length html) (start_document nodes) html (omega arith) in
    (
      d,
      parsed,
      parse_rounds-IsTree (length html) (start_document nodes) html (start_document-IsTree nodes h)
          d parsed,
    )
