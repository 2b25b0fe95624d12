-- ===== src/Process/Reachable.antt =====
-- src/kernel/process/process.c: what every sequence of calls after `process_init` keeps true of the
-- table.
use project_orange_tea.Base.{ℕ, ◌+◌, ◌^◌, ◌<◌, ◌≡◌, length}
use project_orange_tea.Process.{Table, init, create, exit, wait, schedule_next, process_max}
use project_orange_tea.Process.Inv.{
  IsValid, create-IsValid, exit-IsValid, wait-IsValid, schedule_next-IsValid,
}
use project_orange_tea.Process.Start.{init-IsValid}

-- One call, with whatever it answers. A new process needs a pid that is not the last of the 32
-- bits.
pub data Step (t : Table) : Table → Type 0 where
  create_process : (parent_pid : ℕ) → t.next_pid + 1 < 2 ^ 32 → Step t (create t parent_pid).1
  exit_process : (pid status : ℕ) → Step t (exit t pid status).1
  wait_process : (parent_pid pid : ℕ) → Step t (wait t parent_pid pid).1
  schedule : Step t (schedule_next t).1

-- any number of calls, from the start on
pub data IsReachable (t : Table) : Table → Type 0 where
  started : IsReachable t (init t)
  next : (u v : Table) → IsReachable t u → Step u v → IsReachable t v

Step-IsValid : (t u : Table) → IsValid t → Step t u → IsValid u
Step-IsValid t _ v (create_process parent_pid room) = create-IsValid t parent_pid v room
Step-IsValid t _ v (exit_process pid status) = exit-IsValid t pid status v
Step-IsValid t _ v (wait_process parent_pid pid) = wait-IsValid t parent_pid pid v
Step-IsValid t _ v schedule = schedule_next-IsValid t v

-- After `process_init`, whatever the sixteen slots held, every sequence of calls that create, exit,
-- wait and schedule leaves a table in which no two processes share a pid, no pid in use has yet to
-- be given out, and only the slot scheduled last can be running; processes are created only while
-- the 32-bit pid counter does not wrap.
pub IsReachable-IsValid : (t u : Table) → length t.procs ≡ process_max → IsReachable t u → IsValid u
IsReachable-IsValid t _ slots started = init-IsValid t slots
IsReachable-IsValid t _ slots (next u v before step) =
    Step-IsValid u v (IsReachable-IsValid t u slots before) step
