-- ===== src/Ring/Tests.antt =====
-- The input ring at small inputs.
use project_orange_tea.Base.{ℕ, refl, some, List, [], ◌∷◌, arith}
use project_orange_tea.Ring.{Ring, init}
use project_orange_tea.Ring.Fifo.{IsValid, Pushed, Popped, ring_fifo}

abbrev cells : List ℕ
cells = 0 ∷ 0 ∷ []

abbrev empty_ring : Ring
empty_ring = init (some cells) 2

abbrev one_key : Ring
one_key = record { buffer = some (5 ∷ 0 ∷ []); capacity = 2; head = 1; tail = 0; count = 1 }

one_key-IsValid : IsValid one_key (5 ∷ 0 ∷ [])
one_key-IsValid = record {
  storage = refl;
  fits = omega arith;
  small = omega arith;
  tail_in = omega arith;
  count_in = omega arith;
  head_at = refl;
}

ring_fifo_example : Pushed one_key (5 ∷ 0 ∷ []) 7 × Popped one_key (5 ∷ 0 ∷ [])
ring_fifo_example = ring_fifo one_key (5 ∷ 0 ∷ []) 7 one_key-IsValid
