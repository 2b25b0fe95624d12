-- ===== src/Console/Bounds.antt =====
-- src/kernel/core/print.c: whatever is printed and scrolled, the cursor and the arrays keep their
-- bounds.
use project_orange_tea.Base.{
  ℕ, ◌+◌, ◌≤◌, ◌<◌, ◌≡◌, refl, ap, ◌∙◌, Bool, true, false, Option, none, some, List, [], ◌∷◌, ◌++◌,
  map, ltb, leb, if◌then◌else◌, if-true, if-false, take, drop, length, replicate, length-set,
  length-append, length-drop, length-replicate, arith, Bool-cases, inl, inr,
}
use project_orange_tea.Console.{
  num_cols, num_rows, scrollback_lines, Cell, blank, Console, cls, keep_line, scrolled_cells,
  new_line, leave_view, return_to_bottom, put_cell, put_plain,
}

-- what a view leaves of the arrays: it is a whole screen, and without one nothing is scrolled
abbrev pub ViewFits : Option (List Cell) → ℕ → Type 0
ViewFits none offset = offset ≡ 0
ViewFits (some cells) offset = length cells ≡ 2000

pub record IsConsole (c : Console) : Type 0 where
  pub cells : length c.buffer ≡ 2000
  pub col_in : c.col ≤ num_cols
  pub row_in : c.row < num_rows
  pub lines_in : length c.scrollback ≤ scrollback_lines
  pub offset_in : c.scroll_offset ≤ length c.scrollback
  pub view_fits : ViewFits c.view c.scroll_offset

-- at the bottom: nothing is scrolled and no view kept
abbrev pub IsBottom : Console → Type 0
IsBottom c = IsConsole c × (c.view ≡ none) × (c.scroll_offset ≡ 0)

pub cls-IsConsole : (c : Console) → IsConsole (cls c)
unfolding cls
cls-IsConsole c = record {
  cells = length-replicate 2000 (blank c.color);
  col_in = omega arith;
  row_in = omega arith;
  lines_in = omega arith;
  offset_in = omega arith;
  view_fits = refl;
}

pub return-IsBottom : (c : Console) → IsConsole c → IsBottom (return_to_bottom c)
unfolding return_to_bottom
return-IsBottom c h = by_view c.view refl h.view_fits
  where
    by_view :
        (v : Option (List Cell))
        → c.view ≡ v
        → ViewFits v c.scroll_offset
        → IsBottom (leave_view c v)
    by_view none e fits = (h, e, fits)
    by_view (some cells) e fits = (
      record {
        cells = fits;
        col_in = h.col_in;
        row_in = h.row_in;
        lines_in = h.lines_in;
        offset_in = omega arith;
        view_fits = refl;
      },
      refl,
      refl,
    )

length-keep_line :
    (lines : List (List ℕ)) (line : List ℕ)
    → length lines ≤ 200
    → length (keep_line lines line) ≤ 200
length-keep_line lines line h = elim (Bool-cases (ltb (length lines) 200)) [
  | inl room ↦
      let e : length (keep_line lines line) ≡ length (lines ++ (line ∷ [])) =
        ap (λ l. length l) (if-true _ _ room) in
      ground (arith, e, length-append lines (line ∷ []))
  | inr full ↦
      let e : length (keep_line lines line) ≡ length (drop 1 lines ++ (line ∷ [])) =
        ap (λ l. length l) (if-false _ _ full) in
      omega (arith, e, h, length-append (drop 1 lines) (line ∷ []), length-drop 1 lines)
]

length-scrolled : (c : Console) → length c.buffer ≡ 2000 → length (scrolled_cells c) ≡ 2000
length-scrolled c h = omega (
  arith,
  h,
  length-append (drop 80 c.buffer) (replicate 80 (blank c.color)),
  length-drop 80 c.buffer,
  length-replicate 80 (blank c.color),
)

-- A newline leaves the cursor at the front of a row.
pub new_line-IsBottom : (c : Console) → IsBottom c → IsBottom (new_line c) × ((new_line c).col ≡ 0)
unfolding new_line
new_line-IsBottom c (h, v, o) = by_row (ltb c.row 24) refl
  where
    down : Console
    down = record c { col = 0; row = c.row + 1 }

    up : Console
    up = record c {
      col = 0;
      scrollback = keep_line c.scrollback (map (λ cell. cell.character) (take 80 c.buffer));
      buffer = scrolled_cells c;
    }

    by_row :
        (b : Bool)
        → ltb c.row 24 ≡ b
        → IsBottom (if b then down else up) × ((if b then down else up).col ≡ 0)
    by_row true e = (
      (
        record {
          cells = h.cells;
          col_in = omega arith;
          row_in = ground arith;
          lines_in = h.lines_in;
          offset_in = h.offset_in;
          view_fits = h.view_fits;
        },
        v,
        o,
      ),
      refl,
    )
    by_row false e = (
      (
        record {
          cells = length-scrolled c h.cells;
          col_in = omega arith;
          row_in = h.row_in;
          lines_in = length-keep_line c.scrollback _ h.lines_in;
          offset_in = omega (arith, o);
          view_fits = h.view_fits;
        },
        v,
        o,
      ),
      refl,
    )

-- what a write leaves, with the cursor where it may be
pub moved-IsBottom :
    (c : Console) (character col : ℕ)
    → IsBottom c
    → col ≤ 80
    → IsBottom (record (put_cell c character) { col = col })
moved-IsBottom c character col (h, v, o) inside = (
  record {
    cells = length-set c.buffer _ _ ∙ h.cells;
    col_in = inside;
    row_in = h.row_in;
    lines_in = h.lines_in;
    offset_in = h.offset_in;
    view_fits = h.view_fits;
  },
  v,
  o,
)

-- The character of `put_plain` goes to a cell of the screen.
pub put_plain-IsBottom :
    (c : Console) (character : ℕ) → IsBottom c → IsBottom (put_plain c character)
unfolding put_plain
put_plain-IsBottom c character b = by_col (leb 80 c.col) refl (new_line-IsBottom c b)
  where
    at : Bool → Console
    at full = if full then new_line c else c

    by_col :
        (full : Bool)
        → leb 80 c.col ≡ full
        → IsBottom (new_line c) × ((new_line c).col ≡ 0)
        → IsBottom (record (put_cell (at full) character) { col = (at full).col + 1 })
    by_col true e (n, front) = moved-IsBottom (new_line c) character _ n (omega (arith, front))
    by_col false e _ = moved-IsBottom c character _ b (ground arith)
