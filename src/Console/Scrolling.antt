-- ===== src/Console/Scrolling.antt =====
-- src/kernel/core/print.c: scrolling back and down again, and printing while scrolled back.
use project_orange_tea.Base.{
  ℕ, ◌+◌, ◌-◌, ◌≤◌, ◌≡◌, sym, ap, ◌∙◌, true, Option, none, List, ◌==◌, if-true, elim-none, length,
  min, arith,
}
use project_orange_tea.Console.{
  Cell, Console, return_to_bottom, leave_view, put_at_bottom, put_char, viewed, scroll_up,
  scroll_down,
}

module _ (c : Console) (unviewed : c.view ≡ none) (unscrolled : c.scroll_offset ≡ 0) where
  abbrev with_cells : List Cell → Console
  with_cells cells = record c { scroll_offset = 0; buffer = cells; view = none }

  abbrev with_offset : ℕ → Console
  with_offset offset = record c { scroll_offset = offset; view = none }

  abbrev with_view : Option (List Cell) → Console
  with_view view = record c { view = view }

  left : with_cells (viewed c) ≡ c
  left =
      ap with_cells (elim-none c.buffer (λ cells. cells) unviewed)
      ∙ ap with_offset (sym unscrolled)
      ∙ ap with_view (sym unviewed)

  back : (lines : ℕ) → return_to_bottom (scroll_up c lines) ≡ c
  unfolding return_to_bottom scroll_up
  back lines = left

  same : return_to_bottom c ≡ c
  unfolding return_to_bottom
  same = ap (leave_view c) unviewed

  down_again : (up down : ℕ) → up ≤ down → scroll_down (scroll_up c up) down ≡ c
  unfolding scroll_down scroll_up
  down_again up down h =
      let none_left : (c.scroll_offset + min up (length c.scrollback - c.scroll_offset))
              - min down (c.scroll_offset + min up (length c.scrollback - c.scroll_offset))
            == 0
          ≡ true =
        ground (arith, unscrolled, h) in
      if-true _ _ none_left ∙ left

  -- Of a console that is not scrolled, scrolling back and at least as far down again gives the same
  -- console, and a character printed while it is scrolled back has the same effect as without the
  -- scrolling.
  pub scroll_down-scroll_up :
      (up down character : ℕ)
      → up ≤ down
      → (scroll_down (scroll_up c up) down ≡ c)
        × (put_char (scroll_up c up) character ≡ put_char c character)
  unfolding put_char
  scroll_down-scroll_up up down character h =
      (down_again up down h, ap (λ d. put_at_bottom d character) (back up ∙ sym same))
