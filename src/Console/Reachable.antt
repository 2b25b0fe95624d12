-- ===== src/Console/Reachable.antt =====
-- src/kernel/core/print.c: what every sequence of calls keeps true of the console.
use mathlib.Core.Path.{subst}
use project_orange_tea.Base.{
  ℕ, zero, suc, ◌+◌, ◌-◌, ◌≤◌, ◌<◌, ◌≡◌, refl, sym, ap, ◌∙◌, Bool, true, false, Option, none, some,
  List, [], ◌∷◌, ltb, ◌==◌, if◌then◌else◌, length, min, arith,
}
use project_orange_tea.Console.{
  Cell, Console, cls, new_line, return_to_bottom, put_cell, step_back, put_plain, put_spaces,
  put_char, shown, render_from, render_scrollback, viewed, scroll_up, scrolled_to, scroll_down,
  set_color,
}
use project_orange_tea.Console.Bounds.{
  ViewFits, IsConsole, IsBottom, cls-IsConsole, return-IsBottom, new_line-IsBottom, moved-IsBottom,
  put_plain-IsBottom,
}

step_back-IsBottom : (c : Console) → IsBottom c → IsBottom (put_cell (step_back c) b' ')
step_back-IsBottom c (h, v, o) = by_place (ltb 0 c.col) (ltb 0 c.row) refl
  where
    place : Bool → Bool → Console
    place left upper =
        if left
        then record c { col = c.col - 1 }
        else if upper
        then record c { row = c.row - 1; col = 79 }
        else c

    at : (col row : ℕ) → col ≤ 80 → row < 25 → IsBottom (record c { col = col; row = row })
    at col row col_in row_in = (
      record {
        cells = h.cells;
        col_in = col_in;
        row_in = row_in;
        lines_in = h.lines_in;
        offset_in = h.offset_in;
        view_fits = h.view_fits;
      },
      v,
      o,
    )

    by_place :
        (left upper : Bool) → ltb 0 c.col ≡ left → IsBottom (put_cell (place left upper) b' ')
    by_place true upper e =
        moved-IsBottom (place true upper) b' ' (c.col - 1)
          (at (c.col - 1) c.row (omega (arith, h.col_in)) h.row_in) (omega (arith, h.col_in))
    by_place false true e =
        moved-IsBottom (place false true) b' ' 79
          (at 79 (c.row - 1) (omega arith) (omega (arith, h.row_in))) (omega arith)
    by_place false false e = moved-IsBottom c b' ' c.col (h, v, o) h.col_in

put_spaces-IsBottom : (n : ℕ) (c : Console) → IsBottom c → IsBottom (put_spaces n c)
unfolding put_spaces
put_spaces-IsBottom zero c b = b
put_spaces-IsBottom (suc n) c b =
    put_spaces-IsBottom n (put_plain (return_to_bottom c) b' ')
      (put_plain-IsBottom (return_to_bottom c) b' ' (return-IsBottom c b.0))

put_char-IsBottom : (c : Console) (character : ℕ) → IsConsole c → IsBottom (put_char c character)
unfolding put_char
put_char-IsBottom c character h =
    by_tests (character == b'\n') (character == 8) (character == b'\t')
  where
    d : Console
    d = return_to_bottom c

    b : IsBottom d
    b = return-IsBottom c h

    by_tests :
        (nl bs tab : Bool)
        → IsBottom (
            if nl
            then new_line d
            else if bs
            then put_cell (step_back d) b' '
            else if tab
            then put_spaces 4 d
            else put_plain d character)
    by_tests true bs tab = (new_line-IsBottom d b).0
    by_tests false true tab = step_back-IsBottom d b
    by_tests false false true = put_spaces-IsBottom 4 d b
    by_tests false false false = put_plain-IsBottom d character b

pub length-render_from :
    (character : ℕ → ℕ) (i : ℕ) (cells : List Cell)
    → length (render_from character i cells) ≡ length cells
unfolding render_from
length-render_from character i [] = refl
length-render_from character i (cell ∷ cells) = ap suc (length-render_from character (i + 1) cells)

pub viewed-cells : (c : Console) → IsConsole c → length (viewed c) ≡ 2000
viewed-cells c h = by_view c.view h.view_fits
  where
    by_view :
        (v : Option (List Cell))
        → ViewFits v c.scroll_offset
        → length (elim v [ none ↦ c.buffer | some cells ↦ cells ]) ≡ 2000
    by_view none fits = h.cells
    by_view (some cells) fits = fits

render-IsConsole :
    (c : Console) (offset : ℕ) (cells : List Cell)
    → IsConsole c
    → offset ≤ length c.scrollback
    → length cells ≡ 2000
    → IsConsole (render_scrollback (record c { scroll_offset = offset }) cells)
render-IsConsole c offset cells h inside fits = record {
  cells =
      length-render_from (shown (record c { scroll_offset = offset }) cells) 0 c.buffer ∙ h.cells;
  col_in = h.col_in;
  row_in = h.row_in;
  lines_in = h.lines_in;
  offset_in = inside;
  view_fits = fits;
}

scroll_up-IsConsole : (c : Console) (lines : ℕ) → IsConsole c → IsConsole (scroll_up c lines)
unfolding scroll_up
scroll_up-IsConsole c lines h =
    render-IsConsole c (c.scroll_offset + min lines (length c.scrollback - c.scroll_offset))
      (viewed c) h (omega (arith, h.offset_in)) (viewed-cells c h)

scroll_down-IsConsole : (c : Console) (lines : ℕ) → IsConsole c → IsConsole (scroll_down c lines)
unfolding scroll_down
scroll_down-IsConsole c lines h = by_view c.view refl h.view_fits
  where
    lower : ℕ
    lower = c.scroll_offset - min lines c.scroll_offset

    moved : Console
    moved = record c { scroll_offset = lower }

    bottom : List Cell → Console
    bottom cells = record moved { scroll_offset = 0; buffer = cells; view = none }

    by_offset :
        (b : Bool) (cells : List Cell)
        → length cells ≡ 2000
        → IsConsole (if b then bottom cells else render_scrollback moved cells)
    by_offset true cells fits = record {
      cells = fits;
      col_in = h.col_in;
      row_in = h.row_in;
      lines_in = h.lines_in;
      offset_in = omega arith;
      view_fits = refl;
    }
    by_offset false cells fits = render-IsConsole c lower cells h (omega (arith, h.offset_in)) fits

    by_view :
        (v : Option (List Cell))
        → c.view ≡ v
        → ViewFits v c.scroll_offset
        → IsConsole (scrolled_to moved v)
    by_view none e fits = record {
      cells = h.cells;
      col_in = h.col_in;
      row_in = h.row_in;
      lines_in = h.lines_in;
      offset_in = omega (arith, h.offset_in);
      view_fits = subst (λ v. ViewFits v lower) (sym e) (omega (arith, fits));
    }
    by_view (some cells) e fits = by_offset (lower == 0) cells fits

-- One call, with any argument.
pub data Step (c : Console) : Console → Type 0 where
  print : (character : ℕ) → Step c (put_char c character)
  up : (lines : ℕ) → Step c (scroll_up c lines)
  down : (lines : ℕ) → Step c (scroll_down c lines)
  recolor : (foreground background : ℕ) → Step c (set_color c foreground background)
  clear : Step c (cls c)

-- any number of calls, from a cleared screen on
pub data IsReachable (c : Console) : Console → Type 0 where
  cleared : IsReachable c (cls c)
  next : (d e : Console) → IsReachable c d → Step d e → IsReachable c e

Step-IsConsole : (c d : Console) → IsConsole c → Step c d → IsConsole d
unfolding set_color
Step-IsConsole c _ h (print character) = (put_char-IsBottom c character h).0
Step-IsConsole c _ h (up lines) = scroll_up-IsConsole c lines h
Step-IsConsole c _ h (down lines) = scroll_down-IsConsole c lines h
Step-IsConsole c _ h (recolor foreground background) = record {
  cells = h.cells;
  col_in = h.col_in;
  row_in = h.row_in;
  lines_in = h.lines_in;
  offset_in = h.offset_in;
  view_fits = h.view_fits;
}
Step-IsConsole c _ h clear = cls-IsConsole c

-- From a cleared screen on, every sequence of characters, scrolls, colours and clears leaves the
-- cursor in one of the 25 rows and at most behind the 80 columns, a screen of 2000 cells, at most
-- 200 lines kept and no more of them scrolled back; while nothing is kept of the screen that was
-- scrolled away, nothing is scrolled.
pub IsReachable-IsConsole : (c d : Console) → IsReachable c d → IsConsole d
IsReachable-IsConsole c _ cleared = cls-IsConsole c
IsReachable-IsConsole c _ (next d e before step) =
    Step-IsConsole d e (IsReachable-IsConsole c d before) step
