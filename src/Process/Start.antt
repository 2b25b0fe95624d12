-- ===== src/Process/Start.antt =====
-- src/kernel/process/process.c: the table that `process_init` leaves.
use project_orange_tea.Base.{
  ℕ, zero, suc, ◌<◌, ◌≡◌, refl, ap, ◌∙◌, true, List, [], ◌∷◌, map, get_or, set, length, length-set,
  get_or-set_self, arith,
}
use project_orange_tea.Process.{
  Process, ProcessState, unused, Table, blank, slot, cleared, init, process_max, is_running,
}
use project_orange_tea.Process.Inv.{IsValid, Used}

length-map-cleared : (ps : List Process) → length (map cleared ps) ≡ length ps
length-map-cleared [] = refl
length-map-cleared (p ∷ ps) = ap suc (length-map-cleared ps)

cleared-unused : (ps : List Process) (i : ℕ) → (get_or (map cleared ps) i blank).state ≡ unused
cleared-unused [] i = refl
cleared-unused (p ∷ ps) zero = refl
cleared-unused (p ∷ ps) (suc i) = cleared-unused ps i

-- only the first slot is in use
others-unused : (t : Table) (i : ℕ) → (slot (init t) (suc i)).state ≡ unused
unfolding init
others-unused t i = behind t.procs
  where
    behind :
        (ps : List Process)
        → (get_or
            (set (map cleared ps) 0 (record (get_or (map cleared ps) 0 blank) {
              pid = 1;
              parent_pid = 0;
              state = ProcessState.running;
            }))
            (suc i)
            blank).state
          ≡ unused
    behind [] = refl
    behind (p ∷ ps) = cleared-unused ps i

-- `process_init` leaves a valid table, whatever the sixteen slots held: one process runs, with pid
-- 1.
pub init-IsValid : (t : Table) → length t.procs ≡ process_max → IsValid (init t)
unfolding init
init-IsValid t slots = record {
  slots = length-set (map cleared t.procs) 0 _ ∙ length-map-cleared t.procs ∙ slots;
  last_in = omega arith;
  only_running = running_first;
  pid_below = used_below;
  pid_unique = used_first;
}
  where
    running_first : (i : ℕ) → is_running (slot (init t) i).state ≡ true → i ≡ 0
    running_first zero h = refl
    running_first (suc i) h = ground (arith, others-unused t i)

    used_below : (i : ℕ) → Used (init t) i → (slot (init t) i).pid < 2
    used_below zero h =
        let first : ℕ = (get_or (map cleared t.procs) 0 blank).exit_status in
        let e =
          get_or-set_self (map cleared t.procs) 0
            (record { pid = 1; parent_pid = 0; state = ProcessState.running; exit_status = first })
            blank (omega (arith, length-map-cleared t.procs)) in
        omega (arith, ap (λ p. p.pid) e)
    used_below (suc i) h = ground (arith, others-unused t i)

    used_first :
        (i j : ℕ)
        → Used (init t) i
        → Used (init t) j
        → (slot (init t) i).pid ≡ (slot (init t) j).pid
        → i ≡ j
    used_first zero zero h k e = refl
    used_first zero (suc j) h k e = ground (arith, others-unused t j)
    used_first (suc i) j h k e = ground (arith, others-unused t i)
