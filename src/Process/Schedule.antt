-- ===== src/Process/Schedule.antt =====
-- src/kernel/process/process.c: which process runs next.
use project_orange_tea.Base.{
  ℕ, ◌+◌, ◌-◌, ◌%◌, ◌<◌, ◌≡◌, ◌∙◌, true, false, none, some, arith, length, length-set, get_or,
  get_or-set_self, first_where, first_where-IsFirst, first_where-none, Option-cases, Bool-cases,
  inl, inr,
}
use project_orange_tea.Process.{
  running, is_running, is_runnable, Table, blank, slot, candidate, preempted, switch_to,
  schedule_next, process_max, can_run,
}
use project_orange_tea.Process.Inv.{IsValid, schedule_next-IsValid}

length-preempted : (t : Table) → length (preempted t) ≡ length t.procs
length-preempted t = elim (Bool-cases (is_running (slot t t.last_slot).state)) [
  | inl on ↦ rw on (length-set t.procs t.last_slot _)
  | inr off ↦ rw off
]

schedule_next-idle :
    (t : Table) → first_where (can_run t) process_max 0 ≡ none → schedule_next t ≡ (none, t)
unfolding schedule_next
schedule_next-idle t e = rw (e, schedule_next)

schedule_next-switch :
    (t : Table) (n : ℕ)
    → first_where (can_run t) process_max 0 ≡ some n
    → schedule_next t ≡ (some (candidate t n), switch_to t (candidate t n))
unfolding schedule_next
schedule_next-switch t n e = rw (e, schedule_next)

-- The scheduler goes round a valid table, in which no two processes share a pid, no pid in use has
-- yet to be given out, and only the slot scheduled last can be running. It picks slot `last_slot +
-- n + 1` for the least `n` whose process can run, so each process that it passes over cannot; the
-- picked process is then running, no other one is, and it is remembered as the last one.
pub schedule_next_lem :
    (t : Table) (i : ℕ)
    → IsValid t
    → (schedule_next t).0 ≡ some i
    → (n : ℕ) × (n < process_max)
      × (i ≡ (t.last_slot + n + 1) % process_max)
      × (is_runnable (slot t i).state ≡ true)
      × ((m : ℕ) → m < n → is_runnable (slot t ((t.last_slot + m + 1) % process_max)).state ≡ false)
      × (is_running (slot (schedule_next t).1 i).state ≡ true)
      × ((schedule_next t).1.last_slot ≡ i)
      × ((j : ℕ) → is_running (slot (schedule_next t).1 j).state ≡ true → j ≡ i)
schedule_next_lem t i v h = elim (Option-cases (first_where (can_run t) process_max 0)) [
  | inl idle ↦ cc (schedule_next-idle t idle)
  | inr (n, found) ↦
      let first = first_where-IsFirst (can_run t) process_max 0 n found in
      let e : i ≡ candidate t n = ground (arith, schedule_next-switch t n found) in
      let last : (schedule_next t).1.last_slot ≡ i = rw (e, schedule_next-switch t n found) in
      (
        n,
        first.below,
        e,
        rw e first.holds,
        λ m lt. first.before m (omega arith) lt,
        rw (
          e,
          schedule_next-switch t n found,
          get_or-set_self (preempted t) (candidate t n)
              (record (get_or (preempted t) (candidate t n) blank) { state = running }) blank
              (omega (arith, length-preempted t, v.slots)),
        ),
        last,
        λ j on. (schedule_next-IsValid t v).only_running j on ∙ last,
      )
]

-- In a table whose last slot is one of the sixteen, the scheduler gives no process only if the
-- process of no slot can run.
pub schedule_next-none :
    (t : Table) (i : ℕ)
    → t.last_slot < process_max
    → (schedule_next t).0 ≡ none
    → i < process_max
    → is_runnable (slot t i).state ≡ false
schedule_next-none t i last_in h i_in =
    elim (Option-cases (first_where (can_run t) process_max 0)) [
      | inl idle ↦ rw at_round (
          first_where-none (can_run t) process_max 0 ((i + 16 - t.last_slot - 1) % 16) idle
            (omega arith) (omega arith))
      | inr (n, found) ↦ cc (schedule_next-switch t n found)
    ]
  where
    at_round : i ≡ candidate t ((i + 16 - t.last_slot - 1) % 16)
    at_round = omega arith
