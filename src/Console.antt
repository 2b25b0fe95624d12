-- ===== src/Console.antt =====
-- The text console of src/kernel/core/print.c, while no graphical backend is active. The screen is
-- the list of its 80 × 25 cells, row by row; `scrollback` holds the live lines, so its length is
-- `scrollback_count`; `view` is `scroll_view` while `scroll_view_active` is set.
pub mod Bounds
pub mod Reachable
pub mod Scrolling
mod Tests
use project_orange_tea.Base.{
  ℕ, zero, suc, ◌+◌, ◌-◌, ◌*◌, ◌/◌, ◌%◌, ◌^◌, Bool, true, false, Option, none, some, List, [], ◌∷◌,
  ◌++◌, map, ltb, leb, ◌==◌, if◌then◌else◌, get_or, set, take, drop, length, replicate, min,
}

abbrev pub num_cols : ℕ
num_cols = 80

abbrev pub num_rows : ℕ
num_rows = 25

abbrev pub scrollback_lines : ℕ
scrollback_lines = 200

-- `struct Char`
pub record Cell : Type 0 where
  pub character : ℕ
  pub color : ℕ

abbrev pub blank : ℕ → Cell
blank color = record { character = b' '; color = color }

pub record Console : Type 0 where
  pub buffer : List Cell
  pub col : ℕ
  pub row : ℕ
  pub color : ℕ
  pub scrollback : List (List ℕ)
  pub scroll_offset : ℕ
  pub view : Option (List Cell)

-- `imp_cls`
unfoldable pub cls : Console → Console
cls c = record {
  buffer = replicate 2000 (blank c.color);
  col = 0;
  row = 0;
  color = c.color;
  scrollback = [];
  scroll_offset = 0;
  view = none;
}

-- the lines kept, with one more; the oldest goes where there are 200
abbrev pub keep_line : List (List ℕ) → List ℕ → List (List ℕ)
keep_line lines line =
    if ltb (length lines) scrollback_lines
    then lines ++ (line ∷ [])
    else drop 1 lines ++ (line ∷ [])

-- the rows move up by one, and the last is cleared
abbrev pub scrolled_cells : Console → List Cell
scrolled_cells c = drop num_cols c.buffer ++ replicate num_cols (blank c.color)

-- `imp_Nl`
unfoldable pub new_line : Console → Console
new_line c = if ltb c.row (num_rows - 1) then record c { col = 0; row = c.row + 1 } else record c {
  col = 0;
  scrollback = keep_line c.scrollback (map (λ cell. cell.character) (take num_cols c.buffer));
  buffer = scrolled_cells c;
}

abbrev pub leave_view : Console → Option (List Cell) → Console
leave_view c none = c
leave_view c (some cells) = record c { scroll_offset = 0; buffer = cells; view = none }

unfoldable pub return_to_bottom : Console → Console
return_to_bottom c = leave_view c c.view

abbrev pub put_cell : Console → ℕ → Console
put_cell c character = record c {
  buffer =
      set c.buffer (c.col + num_cols * c.row) (record { character = character; color = c.color });
}

abbrev pub step_back : Console → Console
step_back c =
    if ltb 0 c.col
    then record c { col = c.col - 1 }
    else if ltb 0 c.row
    then record c { row = c.row - 1; col = num_cols - 1 }
    else c

-- a character that is shown
unfoldable pub put_plain : Console → ℕ → Console
unfolding new_line
put_plain c character =
    let at = (if leb num_cols c.col then new_line c else c) in
    record (put_cell at character) { col = at.col + 1 }

unfoldable pub put_spaces : ℕ → Console → Console
unfolding put_plain return_to_bottom
put_spaces zero c = c
put_spaces (suc n) c = put_spaces n (put_plain (return_to_bottom c) b' ')

-- behind `return_to_bottom`: newline, backspace and tab have their own ways
abbrev pub put_at_bottom : Console → ℕ → Console
put_at_bottom c character =
    if character == b'\n'
    then new_line c
    else if character == 8
    then put_cell (step_back c) b' '
    else if character == b'\t'
    then put_spaces 4 c
    else put_plain c character

-- `imp_char`
unfoldable pub put_char : Console → ℕ → Console
unfolding return_to_bottom new_line put_plain put_spaces
put_char c character = put_at_bottom (return_to_bottom c) character

-- `imp_text`
unfoldable pub put_text : Console → List ℕ → Console
unfolding put_char
put_text c [] = c
put_text c (character ∷ text) = put_text (put_char c character) text

-- the character that `render_scrollback` shows at a place, over a view
abbrev pub shown : Console → List Cell → ℕ → ℕ
shown c cells i =
    let count = length c.scrollback in
    let line = (count - c.scroll_offset) + i / num_cols in
    if ltb line count
    then get_or (get_or c.scrollback line []) (i % num_cols) b' '
    else if ltb (line - count) num_rows
    then (get_or cells (i % num_cols + num_cols * (line - count)) (blank 0)).character
    else b' '

unfoldable pub render_from : (ℕ → ℕ) → ℕ → List Cell → List Cell
render_from character i [] = []
render_from character i (cell ∷ cells) =
    record cell { character = character i } ∷ render_from character (i + 1) cells

-- `render_scrollback`, which is called only with a view
abbrev pub render_scrollback : Console → List Cell → Console
render_scrollback c cells = record c {
  buffer = render_from (shown c cells) 0 c.buffer;
  view = some cells;
}

abbrev pub viewed : Console → List Cell
viewed c = elim c.view [ none ↦ c.buffer | some cells ↦ cells ]

-- `imp_scroll_up`
unfoldable pub scroll_up : Console → ℕ → Console
unfolding render_from
scroll_up c lines =
    render_scrollback
      (record c {
        scroll_offset = c.scroll_offset + min lines (length c.scrollback - c.scroll_offset);
      })
      (viewed c)

abbrev pub scrolled_to : Console → Option (List Cell) → Console
scrolled_to c none = c
scrolled_to c (some cells) =
    if c.scroll_offset == 0 then leave_view c (some cells) else render_scrollback c cells

-- `imp_scroll_down`; without a view the offset is 0 and nothing happens
unfoldable pub scroll_down : Console → ℕ → Console
unfolding render_from
scroll_down c lines =
    scrolled_to (record c { scroll_offset = c.scroll_offset - min lines c.scroll_offset }) c.view

-- the low four bits and the high four of a colour
unfoldable pub set_color : Console → ℕ → ℕ → Console
set_color c foreground background = record c { color = (foreground + background * 16) % 256 }

-- `imp_uint64_dec`: the digits, the last one first, and the loop of 20 that finds them
unfoldable pub dec_digits : ℕ → ℕ → List ℕ
dec_digits zero value = []
dec_digits (suc rounds) value =
    let rest = dec_digits rounds (value / 10) in
    (b'0' + value % 10) ∷ (if value / 10 == 0 then [] else rest)
