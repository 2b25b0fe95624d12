-- ===== src/Shell/Clock.antt =====
-- The clock and the history of src/apps/shell/shell.c. The year and the uptime are far from the
-- bounds of an `int`.
use project_orange_tea.Base.{
  ℕ, ◌+◌, ◌*◌, ◌%◌, ◌≤◌, ◌<◌, ◌≡◌, false, List, [], refl, ◌∙◌, if-false, ltb, leb, if◌then◌else◌,
  set, get_or, get_or-set_ne, arith,
}
use project_orange_tea.Shell.Words.{copy_string}

pub record Clock : Type 0 where
  pub second : ℕ
  pub minute : ℕ
  pub hour : ℕ
  pub day : ℕ
  pub month : ℕ
  pub year : ℕ
  pub uptime : ℕ

-- `if (value >= limit)`: the value starts over, and the next one counts it
abbrev pub start_over : ℕ → ℕ → ℕ → ℕ
start_over limit first value = if leb limit value then first else value

abbrev pub carry : ℕ → ℕ → ℕ → ℕ
carry limit value next = if leb limit value then next + 1 else next

-- `shell_tick_clock`: every month has 31 days.
unfoldable pub tick_clock : Clock → Clock
tick_clock c =
    let minute = carry 60 (c.second + 1) c.minute in
    let hour = carry 60 minute c.hour in
    let day = carry 24 hour c.day in
    let month = carry 32 day c.month in
    record {
      second = start_over 60 0 (c.second + 1);
      minute = start_over 60 0 minute;
      hour = start_over 24 0 hour;
      day = start_over 32 1 day;
      month = start_over 13 1 month;
      year = carry 13 month c.year;
      uptime = c.uptime + 1;
    }

pub record IsClock (c : Clock) : Type 0 where
  pub second_in : c.second < 60
  pub minute_in : c.minute < 60
  pub hour_in : c.hour < 24
  pub day_in : (1 ≤ c.day) × (c.day ≤ 31)
  pub month_in : (1 ≤ c.month) × (c.month ≤ 12)

abbrev pub second_of_day : Clock → ℕ
second_of_day c = (c.hour * 60 + c.minute) * 60 + c.second

-- A tick of a clock in its range leaves it in its range, and moves it on by a second of the day;
-- what it gains in uptime is a second too.
pub tick_clock-IsClock :
    (c : Clock)
    → IsClock c
    → IsClock (tick_clock c)
      × (second_of_day (tick_clock c) ≡ (second_of_day c + 1) % 86400)
      × ((tick_clock c).uptime ≡ c.uptime + 1)
unfolding tick_clock
tick_clock-IsClock c h =
    let (day_least, day_most) = h.day_in in
    let (month_least, month_most) = h.month_in in
    (
      record {
        second_in = ground (arith, h.second_in);
        minute_in = ground (arith, h.second_in, h.minute_in);
        hour_in = ground (arith, h.second_in, h.minute_in, h.hour_in);
        day_in = (ground (arith, day_least), ground (arith, day_least, day_most));
        month_in = (ground (arith, month_least), ground (arith, month_most));
      },
      ground (arith, h.second_in, h.minute_in, h.hour_in),
      refl,
    )

-- The history: an array of 16 lines of 128 characters.
pub record History : Type 0 where
  pub lines : List (List ℕ)
  pub count : ℕ

-- `shell_add_history`. The count stays at 16, so from then on every line goes to the first place.
unfoldable pub add_history : History → List ℕ → History
add_history h text = record {
  lines = set h.lines (h.count % 16) (copy_string text 128);
  count = if ltb h.count 16 then h.count + 1 else h.count;
}

-- Once 16 lines are kept, a new one replaces the first and no other: the lines behind it stay for
-- good.
pub add_history_full :
    (h : History) (text : List ℕ) (i : ℕ)
    → h.count ≡ 16
    → 0 < i
    → (get_or (add_history h text).lines i [] ≡ get_or h.lines i [])
      × ((add_history h text).count ≡ 16)
unfolding add_history
add_history_full h text i full behind =
    let first : 0 ≡ h.count % 16 = omega (arith, full) in
    let kept : ltb h.count 16 ≡ false = ground arith in
    (
      get_or-set_ne h.lines (h.count % 16) i (copy_string text 128) []
          (λ e. omega (arith, first, e, behind)),
      if-false (h.count + 1) h.count kept ∙ full,
    )
