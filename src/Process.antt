-- ===== src/Process.antt =====
-- src/kernel/process/process.c and include/core/process.h: the process table. A function that
-- changes the table returns the new one beside its result; a pointer into the table is the index
-- of its slot, and `none` the null pointer. `next_pid++` wraps at 32 bits; an exit status is its
-- 32-bit pattern.
pub mod Inv
pub mod Reachable
pub mod Lifecycle
pub mod Schedule
pub mod Start
pub mod Tests
use project_orange_tea.Base.{
  ℕ, ◌+◌, ◌%◌, ◌^◌, Bool, true, false, ◌&&◌, ◌||◌, not, Option, none, some, List, map, ltb, ◌==◌,
  if◌then◌else◌, get_or, set, first_where,
}

abbrev pub process_max : ℕ
process_max = 16

-- `process_state_t`
pub data ProcessState : Type 0 where
  unused ready running zombie : ProcessState

abbrev pub is_unused : ProcessState → Bool
is_unused unused = true
is_unused _ = false

abbrev pub is_running : ProcessState → Bool
is_running running = true
is_running _ = false

abbrev pub is_zombie : ProcessState → Bool
is_zombie zombie = true
is_zombie _ = false

abbrev pub is_runnable : ProcessState → Bool
is_runnable ready = true
is_runnable running = true
is_runnable _ = false

-- `process_t`
pub record Process : Type 0 where
  pub pid : ℕ
  pub parent_pid : ℕ
  pub state : ProcessState
  pub exit_status : ℕ

-- the statics of the file
pub record Table : Type 0 where
  pub procs : List Process
  pub next_pid : ℕ
  pub last_slot : ℕ

-- what a slot holds before anything is written to it
abbrev pub blank : Process
blank = record { pid = 0; parent_pid = 0; state = unused; exit_status = 0 }

abbrev pub slot : Table → ℕ → Process
slot t i = get_or t.procs i blank

-- `next_pid++`
abbrev pub next_after : ℕ → ℕ
next_after pid = (pid + 1) % 2 ^ 32

abbrev pub cleared : Process → Process
cleared p = record p { state = unused }

unfoldable pub init : Table → Table
init t =
    let procs = map cleared t.procs in
    record {
      procs =
          set procs 0 (record (get_or procs 0 blank) { pid = 1; parent_pid = 0; state = running });
      next_pid = next_after 1;
      last_slot = 0;
    }

abbrev pub has_pid : Table → ℕ → ℕ → Bool
has_pid t pid i = not (is_unused (slot t i).state) && (slot t i).pid == pid

unfoldable pub get : Table → ℕ → Option ℕ
get t pid = first_where (has_pid t pid) process_max 0

abbrev pub is_free : Table → ℕ → Bool
is_free t i = is_unused (slot t i).state

abbrev pub is_some : Option ℕ → Bool
is_some none = false
is_some (some _) = true

-- the parent is given and there is no such process
abbrev pub orphan : Table → ℕ → Bool
orphan t parent_pid = not (parent_pid == 0) && not (is_some (get t parent_pid))

unfoldable pub create : Table → ℕ → Option ℕ × Table
create t parent_pid =
    if orphan t parent_pid then (none, t) else elim (first_where (is_free t) process_max 0) [
      | none ↦ (none, t)
      | some i ↦ (
        some i,
        record t {
          procs = set t.procs i (record {
            pid = t.next_pid;
            parent_pid = parent_pid;
            state = ready;
            exit_status = 0;
          });
          next_pid = next_after t.next_pid;
        },
      )
    ]

-- `true` is the 0 of the code, `false` its -1.
unfoldable pub exit : Table → ℕ → ℕ → Bool × Table
exit t pid status = elim (get t pid) [
  | none ↦ (false, t)
  | some i ↦ if (slot t i).pid == 1 then (false, t) else (
    true,
    record t { procs = set t.procs i (record (slot t i) { exit_status = status; state = zombie }) },
  )
]

-- not a child of the caller, or a child that has not exited
abbrev pub still_needed : Table → ℕ → ℕ → Bool
still_needed t parent_pid i =
    not ((slot t i).parent_pid == parent_pid) || not (is_zombie (slot t i).state)

-- The number is what goes through `status`; `none` is the -1 of the code.
unfoldable pub wait : Table → ℕ → ℕ → Option ℕ × Table
wait t parent_pid pid = elim (get t pid) [
  | none ↦ (none, t)
  | some i ↦ if still_needed t parent_pid i then (none, t) else (
    some (slot t i).exit_status,
    record t { procs = set t.procs i (record (slot t i) { state = unused }) },
  )
]

-- the slot that round `n` of the scheduler looks at
abbrev pub candidate : Table → ℕ → ℕ
candidate t n = (t.last_slot + n + 1) % process_max

abbrev pub can_run : Table → ℕ → Bool
can_run t n = is_runnable (slot t (candidate t n)).state

-- the slots once the running process has been put back among the ready ones
abbrev pub preempted : Table → List Process
preempted t =
    if is_running (slot t t.last_slot).state
    then set t.procs t.last_slot (record (slot t t.last_slot) { state = ready })
    else t.procs

abbrev pub switch_to : Table → ℕ → Table
switch_to t i = record t {
  procs = set (preempted t) i (record (get_or (preempted t) i blank) { state = running });
  last_slot = i;
}

unfoldable pub schedule_next : Table → Option ℕ × Table
schedule_next t = elim (first_where (can_run t) process_max 0) [
  | none ↦ (none, t)
  | some n ↦ (some (candidate t n), switch_to t (candidate t n))
]
