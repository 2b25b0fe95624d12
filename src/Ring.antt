-- ===== src/Ring.antt =====
-- include/ui/terminal_input_ring.h: the bounded ring of keyboard and terminal input. A function
-- that changes the ring returns the new one beside its result. The pointer to the ring itself is
-- never null in the program (it is the address of a static), so the tests of it are left out;
-- the pointer to the storage is an option. An `int` in the ring is its 32-bit pattern, and the
-- arithmetic of `size_t` wraps at 64 bits.
pub mod Fifo
pub mod Tests
use project_orange_tea.Base.{
  ℕ, ◌+◌, ◌-◌, ◌%◌, ◌^◌, Bool, true, false, Option, none, some, List, ltb, leb, ◌==◌, if◌then◌else◌,
  get_or, set,
}

-- `terminal_input_ring_t`
pub record Ring : Type 0 where
  pub buffer : Option (List ℕ)
  pub capacity : ℕ
  pub head : ℕ
  pub tail : ℕ
  pub count : ℕ

-- `size_t` addition
abbrev pub add_size : ℕ → ℕ → ℕ
add_size a b = (a + b) % 2 ^ 64

pub init : Option (List ℕ) → ℕ → Ring
init buffer capacity = record {
  buffer = buffer;
  capacity = if ltb 0 capacity then capacity else 1;
  head = 0;
  tail = 0;
  count = 0;
}

pub empty : Ring → Bool
empty r = elim r.buffer [ none ↦ true | some _ ↦ r.count == 0 ]

pub size : Ring → ℕ
size r = elim r.buffer [ none ↦ 0 | some _ ↦ r.count ]

pub push : Ring → ℕ → Bool × Ring
push r value = elim r.buffer [
  | none ↦ (false, r)
  | some buffer ↦ if leb r.capacity r.count then (false, r) else (
    true,
    record r {
      buffer = some (set buffer r.head value);
      head = add_size r.head 1 % r.capacity;
      count = add_size r.count 1;
    },
  )
]

-- The number is what goes through `out`.
pub pop : Ring → Option ℕ × Ring
pop r = elim r.buffer [
  | none ↦ (none, r)
  | some buffer ↦ if r.count == 0 then (none, r) else (
    some (get_or buffer r.tail 0),
    record r { tail = add_size r.tail 1 % r.capacity; count = r.count - 1 },
  )
]

-- `none` is the -1 of the code; the cast to `unsigned char` keeps the low eight bits.
pub pop_value : Ring → Option ℕ × Ring
unfolding pop
pop_value r =
    let (out, r') = pop r in (elim out [ none ↦ none | some value ↦ some (value % 256) ], r')
