-- ===== src/Net/Stack/Sockets.antt =====
-- src/net/config/network_stack.c: opening, binding and closing sockets.
use native.Mathlib.Decide.{ℕ_discrete}
use project_orange_tea.Base.{
  ℕ, ◌<◌, ◌≡◌, ◌≢◌, refl, sym, ap, ◌∙◌, Bool, true, false, Option, none, some, if◌then◌else◌,
  if-true, set, length, length-set, get_or-set_self, get_or-set_ne, set-set, set-get_or,
  first_where, first_where-IsFirst, first_where_total, arith,
}
use project_orange_tea.Net.Stack.{
  Net, Socket, blank_socket, ok, inval, socket_at, is_protocol, is_free, is_open, put_socket,
  open_slot, socket_open, socket_close, max_sockets,
}

-- All slots are there, and one that is not in use holds nothing.
pub record IsValid (n : Net) : Type 0 where
  pub slots : length n.sockets ≡ max_sockets
  pub free_is_blank : (i : ℕ) → (socket_at n i).in_use ≡ false → socket_at n i ≡ blank_socket

abbrev pub opened : ℕ → Socket
opened protocol = record { in_use = true; protocol = protocol; port = 0 }

module _ (n : Net) (i : ℕ) (socket : Socket) (slots : length n.sockets ≡ max_sockets)
    (inside : i < max_sockets) where
  pub socket_at-put_self : socket_at (put_socket n i socket) i ≡ socket
  socket_at-put_self = get_or-set_self n.sockets i socket blank_socket (omega arith)

  pub put-IsValid :
      IsValid n → (socket.in_use ≡ false → socket ≡ blank_socket) → IsValid (put_socket n i socket)
  put-IsValid h blank = record {
    slots = length-set n.sockets i socket ∙ slots;
    free_is_blank = λ k free. elim (ℕ_discrete i k) [
      | yes e ↦
          let here = ap (λ j. socket_at (put_socket n i socket) j) (sym e) ∙ socket_at-put_self in
          here ∙ blank (ap (λ x. x.in_use) (sym here) ∙ free)
      | no ne ↦
          let there = get_or-set_ne n.sockets i k socket blank_socket ne in
          there ∙ h.free_is_blank k (ap (λ x. x.in_use) (sym there) ∙ free)
    ];
  }

-- Opening a socket keeps the table valid, for every protocol and whether there is room or not.
pub socket_open-IsValid : (n : Net) (protocol : ℕ) → IsValid n → IsValid (socket_open n protocol).1
unfolding socket_open
socket_open-IsValid n protocol h = by_protocol (is_protocol protocol)
  where
    by_slot :
        (o : Option ℕ)
        → first_where (is_free n) max_sockets 0 ≡ o
        → IsValid (open_slot n protocol o).1
    by_slot none e = h
    by_slot (some i) e =
        let first = first_where-IsFirst (is_free n) 32 0 i e in
        put-IsValid n i (opened protocol) h.slots (omega (arith, first.below)) h (λ absurd_use. cc)

    by_protocol :
        (b : Bool)
        → IsValid
            (if b
              then open_slot n protocol (first_where (is_free n) max_sockets 0)
              else ((inval, 0), n)).1
    by_protocol true = by_slot (first_where (is_free n) max_sockets 0) refl
    by_protocol false = h

-- With a known protocol and a free slot, opening takes the first free slot, gives it the protocol
-- and no port, leaves the others alone, and closing that socket brings the old table back.
pub close-open :
    (n : Net) (protocol i : ℕ)
    → IsValid n
    → is_protocol protocol ≡ true
    → i < max_sockets
    → is_free n i ≡ true
    → (slot : ℕ) × (left : Net) × (socket_open n protocol ≡ ((ok, slot), left))
      × (is_free n slot ≡ true)
      × ((m : ℕ) → m < slot → is_free n m ≡ false)
      × (socket_at left slot ≡ opened protocol)
      × ((m : ℕ) → slot ≢ m → socket_at left m ≡ socket_at n m)
      × (socket_close left slot ≡ (ok, n))
unfolding socket_open socket_close
close-open n protocol i h known inside free =
    let (slot, found) = first_where_total (is_free n) 32 0 i (omega arith) (omega arith) free in
    let first = first_where-IsFirst (is_free n) 32 0 slot found in
    let below : slot < max_sockets = omega (arith, first.below) in
    let left = put_socket n slot (opened protocol) in
    let here : socket_at left slot ≡ opened protocol =
      socket_at-put_self n slot (opened protocol) h.slots below in
    let used : is_open left slot ≡ true = ground (arith, below, ap (λ x. x.in_use) here) in
    let unused : (socket_at n slot).in_use ≡ false = ground (arith, first.holds) in
    let same : set (set n.sockets slot (opened protocol)) slot blank_socket ≡ n.sockets =
      set-set n.sockets slot (opened protocol) blank_socket
      ∙ ap (set n.sockets slot) (sym (h.free_is_blank slot unused))
      ∙ set-get_or n.sockets slot blank_socket in
    (
      slot,
      left,
      if-true _ _ known ∙ ap (open_slot n protocol) found,
      first.holds,
      (λ m lt. first.before m (omega arith) lt),
      here,
      (λ m ne. get_or-set_ne n.sockets slot m (opened protocol) blank_socket ne),
      if-true _ _ used ∙ ap (λ sockets. (ok, record n { sockets = sockets })) same,
    )
