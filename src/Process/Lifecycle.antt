-- ===== src/Process/Lifecycle.antt =====
-- src/kernel/process/process.c: the life of one process, from creation to the wait of its parent.
use native.Mathlib.Decide.{ℕ_discrete}
use project_orange_tea.Base.{
  ℕ, ◌+◌, ◌^◌, ◌<◌, ◌≡◌, ◌≢◌, sym, ap, ◌∙◌, true, false, none, some, arith, ◌==◌, get_or-set_self,
  get_or-set_ne, first_where, first_where-IsFirst, first_where_total, Option-cases, Bool-cases, inl,
  inr,
}
use project_orange_tea.Process.{
  unused, zombie, is_unused, Process, Table, blank, slot, next_after, has_pid, get, create, exit,
  wait, process_max, orphan, is_free, still_needed,
}
use project_orange_tea.Process.Inv.{
  IsValid, Used, get-some, fresh, written, create-IsValid, exit-IsValid,
}

get-found :
    (t : Table) (pid i : ℕ)
    → IsValid t
    → i < process_max
    → Used t i
    → (slot t i).pid ≡ pid
    → get t pid ≡ some i
unfolding get
get-found t pid i v i_in used e =
    let (j, found) =
      first_where_total (has_pid t pid) process_max 0 i (omega arith) i_in (ground arith) in
    let first = first_where-IsFirst (has_pid t pid) process_max 0 j found in
    found ∙ ap some (v.pid_unique j i (ground (arith, first)) used (ground (arith, first)))

create-refused :
    (t : Table) (parent_pid : ℕ) → orphan t parent_pid ≡ true → create t parent_pid ≡ (none, t)
unfolding create
create-refused t parent_pid e = rw (e, create)

create-full :
    (t : Table) (parent_pid : ℕ)
    → orphan t parent_pid ≡ false
    → first_where (is_free t) process_max 0 ≡ none
    → create t parent_pid ≡ (none, t)
unfolding create
create-full t parent_pid accepted e = rw (accepted, e, create)

create-fresh :
    (t : Table) (parent_pid i : ℕ)
    → orphan t parent_pid ≡ false
    → first_where (is_free t) process_max 0 ≡ some i
    → create t parent_pid
      ≡ (some i, written t i (fresh t parent_pid) (next_after t.next_pid) t.last_slot)
unfolding create
create-fresh t parent_pid i accepted e = rw (accepted, e, create)

-- the free slot that a successful call took
create-slot :
    (t : Table) (parent_pid i : ℕ)
    → (create t parent_pid).0 ≡ some i
    → (orphan t parent_pid ≡ false) × (first_where (is_free t) process_max 0 ≡ some i)
create-slot t parent_pid i h = elim (Bool-cases (orphan t parent_pid)) [
  | inl refused ↦ cc (create-refused t parent_pid refused)
  | inr accepted ↦ elim (Option-cases (first_where (is_free t) process_max 0)) [
    | inl full ↦ cc (create-full t parent_pid accepted full)
    | inr (j, e) ↦ (accepted, ground (arith, create-fresh t parent_pid j accepted e))
  ]
]

-- In a valid table, in which no two processes share a pid and no pid in use has yet to be given
-- out, and while the 32-bit pid counter does not wrap: a process that `process_create` gives took a
-- free slot and is found under its pid, which was the next one to give out; it is ready, and its
-- parent is the caller's.
pub get-create :
    (t : Table) (parent_pid i : ℕ)
    → IsValid t
    → t.next_pid + 1 < 2 ^ 32
    → (create t parent_pid).0 ≡ some i
    → (get (create t parent_pid).1 t.next_pid ≡ some i)
      × (slot (create t parent_pid).1 i ≡ fresh t parent_pid)
      × (is_unused (slot t i).state ≡ true)
get-create t parent_pid i v room h =
    let (accepted, e) = create-slot t parent_pid i h in
    let first = first_where-IsFirst (is_free t) process_max 0 i e in
    let self =
      get_or-set_self t.procs i (fresh t parent_pid) blank (omega (arith, v.slots, first.below)) in
    let valid = create-IsValid t parent_pid v room in
    let eq = create-fresh t parent_pid i accepted e in
    (
      rw eq (
          get-found (written t i (fresh t parent_pid) (next_after t.next_pid) t.last_slot)
            t.next_pid i (rw eq at valid) first.below (rw self) (rw self)),
      rw eq self,
      first.holds,
    )

exit-zombie :
    (t : Table) (pid status i : ℕ)
    → get t pid ≡ some i
    → (slot t i).pid ≢ 1
    → exit t pid status ≡ (
      true,
      written t i
          (record (slot t i) { exit_status = status; state = zombie })
          t.next_pid
          t.last_slot,
    )
unfolding exit
exit-zombie t pid status i found ne =
    let other : ((slot t i).pid == 1) ≡ false = ground arith in rw (found, other, exit)

wait-reap :
    (t : Table) (parent_pid pid i : ℕ)
    → get t pid ≡ some i
    → still_needed t parent_pid i ≡ false
    → wait t parent_pid pid ≡ (
      some (slot t i).exit_status,
      written t i (record (slot t i) { state = unused }) t.next_pid t.last_slot,
    )
unfolding wait
wait-reap t parent_pid pid i found e = rw (found, e, wait)

-- Freeing the slot that holds a pid leaves the pid unknown.
get-freed :
    (t : Table) (pid i : ℕ)
    → IsValid t
    → get t pid ≡ some i
    → get (written t i (record (slot t i) { state = unused }) t.next_pid t.last_slot) pid ≡ none
get-freed t pid i v found = elim (Option-cases (get freed pid)) [
  | inl gone ↦ gone
  | inr (j, still) ↦
      let (i_in, used, same) = get-some t pid i found in
      let (j_in, used_j, same_j) = get-some freed pid j still in
      elim (ℕ_discrete i j) [
        | yes e ↦ absurd (
            cc (
              rw
                (
                  ← e,
                  get_or-set_self t.procs i (record (slot t i) { state = unused }) blank
                      (omega (arith, v.slots)),
                )
                at used_j))
        | no ne ↦
            let elsewhere =
              get_or-set_ne t.procs i j (record (slot t i) { state = unused }) blank ne in
            absurd (
              ne (
                v.pid_unique i j used (rw elsewhere at used_j)
                  (same ∙ sym (rw elsewhere at same_j))))
      ]
]
  where
    freed : Table
    freed = written t i (record (slot t i) { state = unused }) t.next_pid t.last_slot

-- In a valid table, in which no two processes share a pid and no pid in use has yet to be given
-- out, what a process with a pid other than 1 passes to `process_exit` is what its parent gets from
-- `process_wait`, and waiting frees the slot: the pid is known no more.
pub wait-exit :
    (t : Table) (pid status i : ℕ)
    → IsValid t
    → get t pid ≡ some i
    → pid ≢ 1
    → let t' = (exit t pid status).1 in
      ((exit t pid status).0 ≡ true)
      × ((wait t' (slot t i).parent_pid pid).0 ≡ some status)
      × (get (wait t' (slot t i).parent_pid pid).1 pid ≡ none)
wait-exit t pid status i v found ne =
    let (i_in, used, same) = get-some t pid i found in
    let z : Process = record (slot t i) { exit_status = status; state = zombie } in
    let t' : Table = written t i z t.next_pid t.last_slot in
    let left = exit-zombie t pid status i found (λ e. ne (sym same ∙ e)) in
    let self : slot t' i ≡ z = get_or-set_self t.procs i z blank (omega (arith, v.slots)) in
    let valid : IsValid t' = rw left at (exit-IsValid t pid status v) in
    let known : get t' pid ≡ some i = get-found t' pid i valid i_in (rw self) (rw self same) in
    let child : still_needed t' (slot t i).parent_pid i ≡ false = rw self (ground arith) in
    let reaped = wait-reap t' (slot t i).parent_pid pid i known child in
    (rw left, rw (left, reaped, self), rw (left, reaped) (get-freed t' pid i valid known))
