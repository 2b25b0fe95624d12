-- ===== src/Process/Tests.antt =====
-- The process table at small inputs.
use project_orange_tea.Base.{
  ℕ, ◌+◌, ◌%◌, ◌^◌, ◌≡◌, ◌≢◌, ◌<◌, refl, Bool, true, false, Option, none, some, List, [], ◌∷◌,
  replicate, arith,
}
use project_orange_tea.Process.{
  ready, running, Table, blank, slot, init, create, exit, wait, get, schedule_next, process_max,
  is_runnable, is_running, is_unused,
}
use project_orange_tea.Process.Inv.{IsValid, create-IsValid, fresh}
use project_orange_tea.Process.Start.{init-IsValid}
use project_orange_tea.Process.Reachable.{
  started, next, create_process, exit_process, IsReachable, IsReachable-IsValid,
}
use project_orange_tea.Process.Lifecycle.{get-create, wait-exit}
use project_orange_tea.Process.Schedule.{schedule_next_lem}

abbrev first_table : Table
first_table = record {
  procs = record { pid = 1; parent_pid = 0; state = running; exit_status = 0 } ∷ replicate 15 blank;
  next_pid = 2;
  last_slot = 0;
}

abbrev two_processes : Table
two_processes = record {
  procs =
      record { pid = 1; parent_pid = 0; state = running; exit_status = 0 }
      ∷ record { pid = 2; parent_pid = 1; state = ready; exit_status = 0 }
      ∷ replicate 14 blank;
  next_pid = 3;
  last_slot = 0;
}

first_table-IsValid : IsValid first_table
unfolding init
first_table-IsValid = init-IsValid first_table refl

two_processes-IsValid : IsValid two_processes
unfolding create get project_orange_tea.Base.first_where
two_processes-IsValid = create-IsValid first_table 1 first_table-IsValid (omega arith)

schedule_next_lem_chosen : (schedule_next two_processes).0 ≡ some 1
unfolding schedule_next project_orange_tea.Base.first_where
schedule_next_lem_chosen = refl

schedule_next_lem_example :
    (n : ℕ) × (n < process_max)
    × (1 ≡ (two_processes.last_slot + n + 1) % process_max)
    × (is_runnable (slot two_processes 1).state ≡ true)
    × ((m : ℕ)
        → m < n
        → is_runnable (slot two_processes ((two_processes.last_slot + m + 1) % process_max)).state
          ≡ false)
    × (is_running (slot (schedule_next two_processes).1 1).state ≡ true)
    × ((schedule_next two_processes).1.last_slot ≡ 1)
    × ((j : ℕ) → is_running (slot (schedule_next two_processes).1 j).state ≡ true → j ≡ 1)
schedule_next_lem_example =
    schedule_next_lem two_processes 1 two_processes-IsValid schedule_next_lem_chosen

get_create_made : (create first_table 1).0 ≡ some 1
unfolding create get project_orange_tea.Base.first_where
get_create_made = refl

get-create_example :
    (get (create first_table 1).1 2 ≡ some 1)
    × (slot (create first_table 1).1 1 ≡ fresh first_table 1)
    × (is_unused (slot first_table 1).state ≡ true)
get-create_example = get-create first_table 1 1 first_table-IsValid (omega arith) get_create_made

wait_exit_known : get two_processes 2 ≡ some 1
unfolding get project_orange_tea.Base.first_where
wait_exit_known = refl

wait-exit_example :
    ((exit two_processes 2 7).0 ≡ true)
    × ((wait (exit two_processes 2 7).1 1 2).0 ≡ some 7)
    × (get (wait (exit two_processes 2 7).1 1 2).1 2 ≡ none)
wait-exit_example =
    wait-exit two_processes 2 7 1 two_processes-IsValid wait_exit_known (λ e. absurd (omega arith))

next_pid_small : (init first_table).next_pid + 1 < 2 ^ 32
unfolding init
next_pid_small = omega arith

-- the first process starts another, which ends
ended-IsReachable : IsReachable first_table (exit (create (init first_table) 1).1 2 7).1
ended-IsReachable =
    next (create (init first_table) 1).1 (exit (create (init first_table) 1).1 2 7).1
      (next (init first_table) (create (init first_table) 1).1 started
        (create_process 1 next_pid_small))
      (exit_process 2 7)

IsReachable-IsValid_example : IsValid (exit (create (init first_table) 1).1 2 7).1
IsReachable-IsValid_example =
    IsReachable-IsValid first_table (exit (create (init first_table) 1).1 2 7).1 refl
      ended-IsReachable
