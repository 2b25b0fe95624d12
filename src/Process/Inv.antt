-- ===== src/Process/Inv.antt =====
-- src/kernel/process/process.c: what the process table keeps true.
use native.Mathlib.Decide.{ℕ_discrete}
use project_orange_tea.Base.{
  ℕ, ◌+◌, ◌^◌, ◌≤◌, ◌<◌, ◌≡◌, ◌≢◌, refl, sym, ◌∙◌, true, false, none, some, arith, ◌==◌, length,
  length-set, get_or, set, get_or-set_self, get_or-set_ne, first_where, first_where-IsFirst,
  first_where-none, Option-cases, Bool-cases, inl, inr,
}
use project_orange_tea.Process.{
  ready, is_unused, is_running, is_runnable, Process, Table, blank, slot, next_after, has_pid, get,
  create, exit, wait, candidate, preempted, schedule_next, orphan, is_free, can_run, still_needed,
  process_max,
}

abbrev pub Used : Table → ℕ → Type 0
Used t i = is_unused (slot t i).state ≡ false

-- No two processes share a pid, no pid has yet to be given out, and only the slot that was
-- scheduled last can be running.
pub record IsValid (t : Table) : Type 0 where
  pub slots : length t.procs ≡ process_max
  pub last_in : t.last_slot < process_max
  pub only_running : (i : ℕ) → is_running (slot t i).state ≡ true → i ≡ t.last_slot
  pub pid_below : (i : ℕ) → Used t i → (slot t i).pid < t.next_pid
  pub pid_unique : (i j : ℕ) → Used t i → Used t j → (slot t i).pid ≡ (slot t j).pid → i ≡ j

-- the table with one slot written and the two counters set
abbrev pub written : Table → ℕ → Process → (next last : ℕ) → Table
written t i p next last = record { procs = set t.procs i p; next_pid = next; last_slot = last }

-- Writing one slot keeps the table valid if the written process fits.
module _ (t : Table) (i : ℕ) (p : Process) (next last : ℕ) (v : IsValid t)
    (i_in : i < process_max) where
  slot_self : slot (written t i p next last) i ≡ p
  slot_self = get_or-set_self t.procs i p blank (omega (arith, v.slots))

  slot_ne : (j : ℕ) → i ≢ j → slot (written t i p next last) j ≡ slot t j
  slot_ne j ne = get_or-set_ne t.procs i j p blank ne

  slot_eq : (j : ℕ) → i ≡ j → slot (written t i p next last) j ≡ p
  slot_eq j e = rw (sym e) slot_self

  write-IsValid :
      last < process_max
      → t.next_pid ≤ next
      → (is_running p.state ≡ true → i ≡ last)
      → ((j : ℕ) → i ≢ j → is_running (slot t j).state ≡ true → j ≡ last)
      → (is_unused p.state ≡ false → p.pid < next)
      → ((j : ℕ) → i ≢ j → is_unused p.state ≡ false → Used t j → p.pid ≢ (slot t j).pid)
      → IsValid (written t i p next last)
  write-IsValid last_in grows run_self run_ne below apart = record {
    slots = length-set t.procs i p ∙ v.slots;
    last_in = last_in;
    only_running = λ j h. elim (ℕ_discrete i j) [
      | yes e ↦ sym e ∙ run_self (rw (sym e, slot_self) at h)
      | no ne ↦ run_ne j ne (rw (slot_ne j ne) at h)
    ];
    pid_below = λ j h. elim (ℕ_discrete i j) [
      | yes e ↦ rw (slot_eq j e) (below (rw (slot_eq j e) at h))
      | no ne ↦ rw (slot_ne j ne) (omega (arith, v.pid_below j (rw (slot_ne j ne) at h)))
    ];
    pid_unique = λ j k hj hk e. elim (ℕ_discrete i j) [
      | yes ej ↦ elim (ℕ_discrete i k) [
        | yes ek ↦ sym ej ∙ ek
        | no nk ↦ absurd (
            apart k nk (rw (slot_eq j ej) at hj) (rw (slot_ne k nk) at hk)
              (rw (slot_eq j ej, slot_ne k nk) at e))
      ]
      | no nj ↦ elim (ℕ_discrete i k) [
        | yes ek ↦ absurd (
            apart j nj (rw (slot_eq k ek) at hk) (rw (slot_ne j nj) at hj)
              (sym (rw (slot_ne j nj, slot_eq k ek) at e)))
        | no nk ↦
            v.pid_unique j k (rw (slot_ne j nj) at hj) (rw (slot_ne k nk) at hk)
              (rw (slot_ne j nj, slot_ne k nk) at e)
      ]
    ];
  }

-- `process_get` gives a slot that is in use and holds the pid.
pub get-some :
    (t : Table) (pid i : ℕ)
    → get t pid ≡ some i
    → (i < process_max) × Used t i × ((slot t i).pid ≡ pid)
unfolding get
get-some t pid i h = ground (arith, first_where-IsFirst (has_pid t pid) process_max 0 i h)

pub get-none :
    (t : Table) (pid i : ℕ) → get t pid ≡ none → i < process_max → Used t i → (slot t i).pid ≢ pid
unfolding get
get-none t pid i h i_in used e = ground (arith, first_where-none (has_pid t pid) process_max 0 i h)

-- what `process_create` writes into the slot that it found
abbrev pub fresh : Table → ℕ → Process
fresh t parent_pid = record {
  pid = t.next_pid;
  parent_pid = parent_pid;
  state = ready;
  exit_status = 0;
}

insert-IsValid :
    (t : Table) (parent_pid i : ℕ)
    → IsValid t
    → t.next_pid + 1 < 2 ^ 32
    → i < process_max
    → is_unused (slot t i).state ≡ true
    → IsValid (written t i (fresh t parent_pid) (next_after t.next_pid) t.last_slot)
insert-IsValid t parent_pid i v room i_in free =
    write-IsValid t i (fresh t parent_pid) (next_after t.next_pid) t.last_slot v i_in v.last_in
      (omega arith) (λ h. cc) (λ j ne h. v.only_running j h) (λ h. omega arith)
      (λ j ne h used e. omega (arith, v.pid_below j used))

-- `process_create` keeps the table valid as long as the 32-bit pid counter does not wrap.
pub create-IsValid :
    (t : Table) (parent_pid : ℕ)
    → IsValid t
    → t.next_pid + 1 < 2 ^ 32
    → IsValid (create t parent_pid).1
unfolding create
create-IsValid t parent_pid v room = elim (Bool-cases (orphan t parent_pid)) [
  | inl refused ↦ rw refused v
  | inr accepted ↦ elim (Option-cases (first_where (is_free t) process_max 0)) [
    | inl full ↦ rw (accepted, full, create) v
    | inr (i, found) ↦
        let first = first_where-IsFirst (is_free t) process_max 0 i found in
        rw (accepted, found, create) (insert-IsValid t parent_pid i v room first.below first.holds)
  ]
]

-- `process_exit` keeps the table valid.
pub exit-IsValid : (t : Table) (pid status : ℕ) → IsValid t → IsValid (exit t pid status).1
unfolding exit
exit-IsValid t pid status v = elim (Option-cases (get t pid)) [
  | inl e ↦ rw (e, exit) v
  | inr (i, e) ↦
      rw (e, exit)
        (elim (Bool-cases ((slot t i).pid == 1)) [
          | inl first_process ↦ rw first_process v
          | inr other ↦
              let (i_in, used, same) = get-some t pid i e in
              rw other (
                write-IsValid t i _ t.next_pid t.last_slot v i_in v.last_in (omega arith) (λ h. cc)
                  (λ j ne h. v.only_running j h) (λ h. v.pid_below i used)
                  (λ j ne h used_j eq. ne (v.pid_unique i j used used_j eq)))
        ])
]

-- `process_wait` keeps the table valid.
pub wait-IsValid : (t : Table) (parent_pid pid : ℕ) → IsValid t → IsValid (wait t parent_pid pid).1
unfolding wait
wait-IsValid t parent_pid pid v = elim (Option-cases (get t pid)) [
  | inl e ↦ rw (e, wait) v
  | inr (i, e) ↦
      rw (e, wait)
        (elim (Bool-cases (still_needed t parent_pid i)) [
          | inl refused ↦ rw refused v
          | inr reaped ↦
              let (i_in, used, same) = get-some t pid i e in
              rw reaped (
                write-IsValid t i _ t.next_pid t.last_slot v i_in v.last_in (omega arith) (λ h. cc)
                  (λ j ne h. v.only_running j h) (λ h. cc) (λ j ne h used_j eq. cc))
        ])
]

-- With the running process put back, the table is valid and no process is running.
preempted-IsValid :
    (t : Table)
    → IsValid t
    → IsValid (record t { procs = preempted t })
      × ((j : ℕ) → is_running (get_or (preempted t) j blank).state ≡ false)
preempted-IsValid t v = elim (Bool-cases (is_running (slot t t.last_slot).state)) [
  | inl on ↦ rw on (
    write-IsValid t t.last_slot _ t.next_pid t.last_slot v v.last_in v.last_in (omega arith)
        (λ h. cc) (λ j ne h. v.only_running j h) (λ h. v.pid_below t.last_slot (ground arith))
        (λ j ne h used_j eq. ne (v.pid_unique t.last_slot j (ground arith) used_j eq)),
    λ j. elim (ℕ_discrete t.last_slot j) [
      | yes e ↦ rw (slot_eq t t.last_slot _ t.next_pid t.last_slot v v.last_in j e)
      | no ne ↦ elim (Bool-cases (is_running (slot t j).state)) [
        | inl bad ↦ absurd (ne (sym (v.only_running j bad)))
        | inr good ↦ rw (get_or-set_ne t.procs t.last_slot j _ blank ne) good
      ]
    ],
  )
  | inr off ↦ rw off (
    v,
    λ j. elim (Bool-cases (is_running (slot t j).state)) [
      | inl bad ↦ absurd (ground (arith, v.only_running j bad))
      | inr good ↦ good
    ],
  )
]

-- Putting the running process back leaves a runnable process in its slot.
preempted-used :
    (t : Table) (i : ℕ)
    → t.last_slot < length t.procs
    → is_runnable (slot t i).state ≡ true
    → is_unused (get_or (preempted t) i blank).state ≡ false
preempted-used t i last_in h = elim (Bool-cases (is_running (slot t t.last_slot).state)) [
  | inl on ↦ rw on (elim (ℕ_discrete t.last_slot i) [
    | yes e ↦ rw (← e, get_or-set_self t.procs t.last_slot _ blank last_in)
    | no ne ↦ rw (get_or-set_ne t.procs t.last_slot i _ blank ne) (ground arith)
  ])
  | inr off ↦ rw off (ground arith)
]

-- `process_schedule_next` keeps the table valid: it never leaves two processes running.
pub schedule_next-IsValid : (t : Table) → IsValid t → IsValid (schedule_next t).1
unfolding schedule_next
schedule_next-IsValid t v = elim (Option-cases (first_where (can_run t) process_max 0)) [
  | inl idle ↦ rw (idle, schedule_next) v
  | inr (n, found) ↦
      rw (found, schedule_next)
        (let (v', idle) = preempted-IsValid t v in
          let first = first_where-IsFirst _ process_max 0 n found in
          let used =
            preempted-used t (candidate t n) (omega (arith, v.slots, v.last_in)) first.holds in
          write-IsValid (record t { procs = preempted t }) (candidate t n) _ t.next_pid
            (candidate t n) v' (omega arith) (omega arith) (omega arith) (λ h. refl)
            (λ j ne h. absurd (ground (arith, idle j))) (λ h. v'.pid_below (candidate t n) used)
            (λ j ne h used_j eq. ne (v'.pid_unique (candidate t n) j used used_j eq)))
]
