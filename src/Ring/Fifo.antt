-- ===== src/Ring/Fifo.antt =====
-- The ring behaves as a bounded first-in first-out queue of the values that it holds.
use native.Mathlib.Nat.{mod-eq_of_lt, mod-mod, mod-add-mod, add-zero}
use native.Mathlib.Decide.{dec_lt}
use mathlib.Core.Path.{ap₂, subst}
use project_orange_tea.Base.{
  ℕ, zero, suc, ◌+◌, ◌-◌, ◌%◌, ◌^◌, ◌≤◌, ◌<◌, ◌≡◌, refl, sym, ap, ◌∙◌, ◌≢◌, ◌⊎◌, inl, inr, true,
  false, none, some, Option-cases, List, [], ◌∷◌, ◌++◌, arith, leb, ◌==◌, length, get_or, set,
  length-set, get_or-set_self, get_or-set_ne,
}
use project_orange_tea.Ring.{Ring, add_size, init, push, pop}

-- the `n` values of the storage from position `t` on, going round at `cap`
pub window : List ℕ → ℕ → ℕ → ℕ → List ℕ
window buf cap t zero = []
window buf cap t (suc n) = get_or buf (t % cap) 0 ∷ window buf cap (t + 1) n

-- Positions that agree round the ring show the same window.
window_cong :
    (buf : List ℕ) (cap t u n : ℕ) → t % cap ≡ u % cap → window buf cap t n ≡ window buf cap u n
unfolding window
window_cong buf cap t u zero e = refl
window_cong buf cap t u (suc n) e =
    rw e (ap (λ l. get_or buf (u % cap) 0 ∷ l) (window_cong buf cap (t + 1) (u + 1) n step))
  where
    step : (t + 1) % cap ≡ (u + 1) % cap
    step = sym (mod-add-mod t cap 1) ∙ ap (λ k. (k + 1) % cap) e ∙ mod-add-mod u cap 1

-- Fewer than `cap` steps round the ring do not come back.
apart : (cap t k : ℕ) → suc k < cap → (t + suc k) % cap ≢ t % cap
apart cap t k h = grind arith

-- Writing the slot behind a window that is not full appends the value to it.
window-set :
    (buf : List ℕ) (cap t n x : ℕ)
    → cap ≤ length buf
    → n < cap
    → window (set buf ((t + n) % cap) x) cap t (suc n) ≡ window buf cap t n ++ (x ∷ [])
unfolding window
window-set buf cap t zero x room h = rw (add-zero, get_or-set_self buf (t % cap) x 0 (omega arith))
window-set buf cap t (suc n) x room h =
    ap₂ ◌∷◌ (get_or-set_ne buf ((t + suc n) % cap) (t % cap) x 0 (apart cap t n h)) (
      subst
        (λ k.
          window (set buf (k % cap) x) cap (t + 1) (suc n) ≡ window buf cap (t + 1) n ++ (x ∷ []))
        (omega arith) (window-set buf cap (t + 1) n x room (omega arith)))

-- What a ring promises of its fields while it is in use.
pub record IsValid (r : Ring) (buf : List ℕ) : Type 0 where
  pub storage : r.buffer ≡ some buf
  pub fits : r.capacity ≤ length buf
  pub small : r.capacity < 2 ^ 63
  pub tail_in : r.tail < r.capacity
  pub count_in : r.count ≤ r.capacity
  pub head_at : r.head ≡ (r.tail + r.count) % r.capacity

-- the values in the ring, oldest first
pub contents : Ring → List ℕ
contents r = elim r.buffer [ none ↦ [] | some buf ↦ window buf r.capacity r.tail r.count ]

-- `terminal_input_ring_init` on storage of at least `capacity` values, at least one and fewer
-- than 2 ^ 63, gives a valid empty ring.
pub init-IsValid :
    (buf : List ℕ) (capacity : ℕ)
    → 0 < capacity
    → capacity ≤ length buf
    → capacity < 2 ^ 63
    → IsValid (init (some buf) capacity) buf × (contents (init (some buf) capacity) ≡ [])
unfolding init contents window
init-IsValid buf capacity pos fits small = ground arith

push-full : (r : Ring) → r.count ≡ r.capacity → (x : ℕ) → push r x ≡ (false, r)
unfolding push
push-full r e x = elim (Option-cases r.buffer) [
  | inl no_storage ↦ rw no_storage
  | inr (buf, storage) ↦ ground arith
]

push-room :
    (r : Ring) (buf : List ℕ) (x : ℕ)
    → IsValid r buf
    → r.count < r.capacity
    → ((push r x).0 ≡ true)
      × (contents (push r x).1 ≡ contents r ++ (x ∷ []))
      × IsValid (push r x).1 (set buf r.head x)
unfolding push contents
push-room r buf x v room =
    rw (v.storage, le→ltb_count)
      (
        refl,
        ground (arith, window-set buf r.capacity r.tail r.count x v.fits room),
        record {
          storage = refl;
          fits = omega (arith, length-set buf r.head x);
          small = v.small;
          tail_in = v.tail_in;
          count_in = omega arith;
          head_at = head_value ∙ mod-add-mod (r.tail + r.count) r.capacity 1 ∙ head_step;
        },
      )
  where
    le→ltb_count : leb r.capacity r.count ≡ false
    le→ltb_count = ground arith

    head_value : add_size r.head 1 % r.capacity ≡ ((r.tail + r.count) % r.capacity + 1) % r.capacity
    head_value = ap (λ k. k % r.capacity) (omega arith)

    head_step : (r.tail + r.count + 1) % r.capacity ≡ (r.tail + add_size r.count 1) % r.capacity
    head_step = ap (λ k. k % r.capacity) (omega arith)

-- A push on a valid ring that is not full reports success, appends the value behind all others
-- and leaves the ring valid; on a full ring it reports failure and changes nothing.
abbrev pub Pushed : Ring → List ℕ → ℕ → Type 0
Pushed r buf x =
    ((r.count < r.capacity)
      × ((push r x).0 ≡ true)
      × (contents (push r x).1 ≡ contents r ++ (x ∷ []))
      × IsValid (push r x).1 (set buf r.head x))
    ⊎ ((r.count ≡ r.capacity) × (push r x ≡ (false, r)))

pub push_fifo : (r : Ring) (buf : List ℕ) (x : ℕ) → IsValid r buf → Pushed r buf x
push_fifo r buf x v = elim (dec_lt r.count r.capacity) [
  | yes room ↦
      let (done, behind, valid) = push-room r buf x v room in inl (room, done, behind, valid)
  | no full ↦ inr (omega arith, push-full r (omega arith) x)
]

window_pos :
    (buf : List ℕ) (cap t n : ℕ)
    → 0 < n
    → window buf cap t n ≡ get_or buf (t % cap) 0 ∷ window buf cap (t + 1) (n - 1)
unfolding window
window_pos buf cap t zero h = absurd (omega arith)
window_pos buf cap t (suc n) h =
    ap (λ k. get_or buf (t % cap) 0 ∷ window buf cap (t + 1) k) (omega arith)

pop-some :
    (r : Ring) (buf : List ℕ)
    → IsValid r buf
    → 0 < r.count
    → ((pop r).0 ≡ some (get_or buf r.tail 0))
      × (contents r ≡ get_or buf r.tail 0 ∷ contents (pop r).1)
      × IsValid (pop r).1 buf
unfolding pop contents
pop-some r buf v pos =
    rw (v.storage, not_empty)
      (
        refl,
        ground (
          arith,
          window_pos buf r.capacity r.tail r.count pos,
          same_tail,
          window_cong buf r.capacity (r.tail + 1) (add_size r.tail 1 % r.capacity) (r.count - 1)
              same,
        ),
        record {
          storage = refl;
          fits = v.fits;
          small = v.small;
          tail_in = omega arith;
          count_in = omega arith;
          head_at = v.head_at ∙ moved;
        },
      )
  where
    not_empty : (r.count == 0) ≡ false
    not_empty = ground arith

    same_tail : r.tail % r.capacity ≡ r.tail
    same_tail = mod-eq_of_lt v.tail_in

    same : (r.tail + 1) % r.capacity ≡ add_size r.tail 1 % r.capacity % r.capacity
    same = rw mod-mod (ap (λ k. k % r.capacity) (omega arith))

    moved :
        (r.tail + r.count) % r.capacity
        ≡ (add_size r.tail 1 % r.capacity + (r.count - 1)) % r.capacity
    moved = rw mod-add-mod (ap (λ k. k % r.capacity) (omega arith))

pop-none :
    (r : Ring) (buf : List ℕ)
    → IsValid r buf
    → r.count ≡ 0
    → (contents r ≡ []) × (pop r ≡ (none, r))
unfolding pop contents window
pop-none r buf v e = rw (v.storage, e) (refl, refl)

-- A pop on a valid ring gives its oldest value and leaves the others in order in a valid ring;
-- on an empty ring it reports failure and changes nothing.
abbrev pub Popped : Ring → List ℕ → Type 0
Popped r buf =
    ((x : ℕ) × ((pop r).0 ≡ some x) × (contents r ≡ x ∷ contents (pop r).1) × IsValid (pop r).1 buf)
    ⊎ ((r.count ≡ 0) × (contents r ≡ []) × (pop r ≡ (none, r)))

pub pop_fifo : (r : Ring) (buf : List ℕ) → IsValid r buf → Popped r buf
pop_fifo r buf v = elim (dec_lt 0 r.count) [
  | yes pos ↦
      let (out, oldest, valid) = pop-some r buf v pos in
      inl (get_or buf r.tail 0, out, oldest, valid)
  | no zero_count ↦
      let (bare, same) = pop-none r buf v (omega arith) in inr (omega arith, bare, same)
]

-- A valid ring is a bounded queue. A push appends the value behind the others and keeps the ring
-- valid, or the ring is full and nothing changes; a pop gives the oldest value and removes it,
-- keeping the ring valid, or the ring is empty and nothing changes.
pub ring_fifo : (r : Ring) (buf : List ℕ) (x : ℕ) → IsValid r buf → Pushed r buf x × Popped r buf
ring_fifo r buf x v = (push_fifo r buf x v, pop_fifo r buf v)
