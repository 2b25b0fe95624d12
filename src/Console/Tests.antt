-- ===== src/Console/Tests.antt =====
-- The console of src/kernel/core/print.c after a few calls.
use project_orange_tea.Base.{◌≡◌, refl, none, [], replicate, arith}
use project_orange_tea.Console.{Console, blank, cls, put_char, scroll_up, scroll_down}
use project_orange_tea.Console.Bounds.{IsConsole}
use project_orange_tea.Console.Reachable.{
  print, up, IsReachable, cleared, next, IsReachable-IsConsole,
}
use project_orange_tea.Console.Scrolling.{scroll_down-scroll_up}

abbrev start : Console
start = record {
  buffer = replicate 2000 (blank 7);
  col = 0;
  row = 0;
  color = 7;
  scrollback = [];
  scroll_offset = 0;
  view = none;
}

abbrev printed : Console
printed = scroll_up (put_char (cls start) b'a') 3

printed-IsReachable : IsReachable start printed
printed-IsReachable =
    next (put_char (cls start) b'a') printed
      (next (cls start) (put_char (cls start) b'a') cleared (print b'a')) (up 3)

IsReachable-IsConsole_example : IsConsole printed
IsReachable-IsConsole_example = IsReachable-IsConsole start printed printed-IsReachable

scroll_down-scroll_up_example :
    (scroll_down (scroll_up start 2) 5 ≡ start)
    × (put_char (scroll_up start 2) b'b' ≡ put_char start b'b')
scroll_down-scroll_up_example = scroll_down-scroll_up start refl refl 2 5 b'b' (omega arith)
