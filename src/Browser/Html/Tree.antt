-- ===== src/Browser/Html/Tree.antt =====
-- src/apps/browser.c: the order and the bounds of the nodes of a document in their array: parents
-- before, children behind, and the lengths that the arrays allow. That every node is attached to
-- its parent is not among them.
use native.Mathlib.Decide.{ℕ_discrete}
use mathlib.Core.Path.{subst}
use mathlib.Core.Logic.{◌⊎◌}
use mathlib.Core.Option.{none-ne-some}
use project_orange_tea.Base.{
  ℕ, ◌+◌, ◌-◌, ◌≤◌, ◌<◌, ◌≡◌, sym, ◌∙◌, Option, none, some, List, [], ◌∷◌, ◌++◌, leb, if-true,
  if-false, length, length-set, length-take, get_or-set_self, get_or-set_ne, arith, Bool-cases, inl,
  inr,
}
use project_orange_tea.Browser.Words.{copy}
use project_orange_tea.Browser.Html.{
  max_nodes, max_children, Node, blank_node, Document, node_at, set_node, tagged, new_node,
}

-- every child stands behind its parent, and is live
abbrev pub ChildrenAfter : ℕ → ℕ → List ℕ → Type 0
ChildrenAfter count i [] = Unit {0}
ChildrenAfter count i (c ∷ children) = (i < c) × (c < count) × ChildrenAfter count i children

-- What holds of node `i` of `count`: its parent stands before it, its children behind it, and its
-- texts fit in their arrays with a NUL.
pub record IsNode (count i : ℕ) (node : Node) : Type 0 where
  pub parent_before : (p : ℕ) → node.parent ≡ some p → p < i
  pub children_after : ChildrenAfter count i node.children
  pub few_children : length node.children ≤ max_children
  pub tag_fits : length node.tag < 32
  pub text_fits : length node.text < 256
  pub href_fits : length node.href < 256

-- The live nodes of an array of 128.
pub record IsForest (d : Document) : Type 0 where
  pub slots : length d.nodes ≡ max_nodes
  pub count_in : d.node_count ≤ max_nodes
  pub live : (i : ℕ) → i < d.node_count → IsNode d.node_count i (node_at d i)

-- The current element is live too.
abbrev pub IsTree : Document → Type 0
IsTree d = IsForest d × (d.current < d.node_count)

after-grow :
    (count i : ℕ) (children : List ℕ)
    → ChildrenAfter count i children
    → ChildrenAfter (count + 1) i children
after-grow count i [] h = tt
after-grow count i (c ∷ children) (lo, hi, h) = (lo, omega arith, after-grow count i children h)

pub after-append :
    (count i c : ℕ) (children : List ℕ)
    → ChildrenAfter count i children
    → i < c
    → c < count
    → ChildrenAfter count i (children ++ (c ∷ []))
after-append count i c [] h lo hi = (lo, hi, tt)
after-append count i c (d ∷ children) (l, r, h) lo hi =
    (l, r, after-append count i c children h lo hi)

pub length-copy : (text : List ℕ) (n : ℕ) → 0 < n → length (copy text n) < n
length-copy text n h = omega (arith, length-take (n - 1) text)

module _ (d : Document) (f : IsForest d) (i : ℕ) (node : Node) (inside : i < d.node_count) where
  pub set_node-IsForest : IsNode d.node_count i node → IsForest (set_node d i node)
  set_node-IsForest h = record {
    slots = length-set d.nodes i node ∙ f.slots;
    count_in = f.count_in;
    live = λ k k_in. elim (ℕ_discrete i k) [
      | yes e ↦
          subst (λ j. IsNode d.node_count j (node_at (set_node d i node) j)) e
            (subst (IsNode d.node_count i)
              (sym (get_or-set_self d.nodes i node blank_node (omega (arith, f.slots, f.count_in))))
              h)
      | no ne ↦
          subst (IsNode d.node_count k) (sym (get_or-set_ne d.nodes i k node blank_node ne))
            (f.live k k_in)
    ];
  }

tagged-IsNode : (count i : ℕ) (tag : List ℕ) → IsNode count i (tagged tag)
tagged-IsNode count i tag = record {
  parent_before = λ p e. absurd (none-ne-some p e);
  children_after = tt;
  few_children = omega arith;
  tag_fits = length-copy tag 32 (omega arith);
  text_fits = omega arith;
  href_fits = omega arith;
}

grown-IsNode : (count i : ℕ) (node : Node) → IsNode count i node → IsNode (count + 1) i node
grown-IsNode count i node n = record {
  parent_before = n.parent_before;
  children_after = after-grow count i node.children n.children_after;
  few_children = n.few_children;
  tag_fits = n.tag_fits;
  text_fits = n.text_fits;
  href_fits = n.href_fits;
}

-- what the array becomes with a node more
abbrev pub grown : Document → List ℕ → Document
grown d tag = record (set_node d d.node_count (tagged tag)) { node_count = d.node_count + 1 }

pub grown-IsForest :
    (d : Document) (tag : List ℕ) → IsForest d → d.node_count < max_nodes → IsForest (grown d tag)
grown-IsForest d tag f below = record {
  slots = length-set d.nodes d.node_count (tagged tag) ∙ f.slots;
  count_in = omega arith;
  live = λ k k_in. elim (ℕ_discrete d.node_count k) [
    | yes e ↦
        subst (λ j. IsNode (d.node_count + 1) j (node_at (grown d tag) j)) e
          (subst (IsNode (d.node_count + 1) d.node_count)
            (sym (
              get_or-set_self d.nodes d.node_count (tagged tag) blank_node
                (omega (arith, f.slots))))
            (tagged-IsNode (d.node_count + 1) d.node_count tag))
    | no ne ↦
        subst (IsNode (d.node_count + 1) k)
          (sym (get_or-set_ne d.nodes d.node_count k (tagged tag) blank_node ne))
          (grown-IsNode d.node_count k (node_at d k) (f.live k (omega (arith, k_in, ne))))
  ];
}

-- What `new_node` gives: the document as it was, or one with a node more, at the old count.
abbrev pub Made : Document → List ℕ → Option ℕ × Document → Type 0
Made d tag made =
    (made ≡ (none, d)) ⊎ ((d.node_count < max_nodes) × (made ≡ (some d.node_count, grown d tag)))

pub new_node-Made : (d : Document) (tag : List ℕ) → Made d tag (new_node d tag)
unfolding new_node
new_node-Made d tag = elim (Bool-cases (leb max_nodes d.node_count)) [
  | inl full ↦ inl (if-true _ _ full)
  | inr room ↦
      let below : d.node_count < max_nodes = ground arith in inr (below, if-false (none, d) _ room)
]
