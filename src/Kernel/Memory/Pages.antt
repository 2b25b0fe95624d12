-- ===== src/Kernel/Memory/Pages.antt =====
-- src/kernel/memory/memory.c: which page is given out, giving it back, and the ranges that are
-- accepted.
use native.Mathlib.Decide.{ℕ_discrete}
use project_orange_tea.Base.{
  ℕ, zero, suc, ◌+◌, ◌*◌, ◌%◌, ◌^◌, ◌≤◌, ◌<◌, ◌≡◌, ◌≢◌, refl, sym, ap, ◌∙◌, Bool, true, false, ◌||◌,
  not, Option, none, some, ltb, leb, ◌==◌, if◌then◌else◌, if-true, if-false, get_or, set, length,
  get_or-set_self, get_or-set_ne, set-set, set-get_or, first_where, first_where-IsFirst,
  first_where_total, arith, ==→eq, leb→le, ltb→le,
}
use project_orange_tea.Kernel.Memory.{
  page_count, page_size, Memory, zero_page, is_used, is_vacant, page_address, taken, alloc_at,
  page_alloc, is_page, free_at, page_free, count_free, page_free_count, covers, is_some,
  memory_range_valid,
}

-- The arrays are whole, and the pool is aligned, not at 0, and inside the address space.
pub record IsPool (base : ℕ) (m : Memory) : Type 0 where
  pub flags : length m.page_used ≡ page_count
  pub pages : length m.early_pages ≡ page_count
  pub aligned : base % page_size ≡ 0
  pub not_null : 0 < base
  pub inside : base + page_count * page_size < 2 ^ 64

module _ (m : Memory) (j : ℕ) (on : Bool) where
  abbrev marked : Memory
  marked = record m { page_used = set m.page_used j on }

  used-marked_ne : (k : ℕ) → j ≢ k → is_used marked k ≡ is_used m k
  used-marked_ne k ne = get_or-set_ne m.page_used j k on false ne

-- the pages behind a change are counted as before
count-behind :
    (m m' : Memory) (j rounds i : ℕ)
    → ((k : ℕ) → j ≢ k → is_used m' k ≡ is_used m k)
    → j < i
    → count_free m' rounds i ≡ count_free m rounds i
unfolding count_free
count-behind m m' j zero i same h = refl
count-behind m m' j (suc rounds) i same h =
    rw (same i (λ e. omega arith), count-behind m m' j rounds (i + 1) same (omega arith)) refl

-- one page more in use is one less that is free
count-taken :
    (m m' : Memory) (j rounds i : ℕ)
    → ((k : ℕ) → j ≢ k → is_used m' k ≡ is_used m k)
    → is_used m j ≡ false
    → is_used m' j ≡ true
    → i ≤ j
    → j < i + rounds
    → count_free m rounds i ≡ count_free m' rounds i + 1
unfolding count_free
count-taken m m' j zero i same f t lo hi = absurd (omega arith)
count-taken m m' j (suc rounds) i same f t lo hi = elim (ℕ_discrete j i) [
  | yes e ↦
      let f' : is_used m i ≡ false = ap (is_used m) (sym e) ∙ f in
      let t' : is_used m' i ≡ true = ap (is_used m') (sym e) ∙ t in
      rw (f', t', count-behind m m' j rounds (i + 1) same (omega arith)) refl
  | no ne ↦
      let rest = count-taken m m' j rounds (i + 1) same f t (omega arith) (omega arith) in
      rw (same i ne) (ground (arith, rest))
]

-- A page is found by its address.
find-page :
    (base i : ℕ)
    → i < page_count
    → first_where (is_page base (page_address base i)) page_count 0 ≡ some i
find-page base i inside =
    let self : is_page base (page_address base i) i ≡ true = ground arith in
    let (j, found) =
      first_where_total (is_page base (page_address base i)) 128 0 i (omega arith) (omega arith)
        self in
    let first = first_where-IsFirst (is_page base (page_address base i)) 128 0 j found in
    let e : page_address base i ≡ page_address base j = ==→eq _ _ first.holds in
    let same : j ≡ i = omega arith in found ∙ ap some same

used_if : (b : Bool) → not b ≡ false → b ≡ true
used_if true e = refl
used_if false e = cc

module _ (base : ℕ) (m : Memory) (h : IsPool base m) (i : ℕ) (in_pool : i < page_count)
    (free : is_vacant m i ≡ true) where
  -- While a page of a whole pool is free, an allocation takes the first free one, before which
  -- every page is in use: its address is not null and lies on a page boundary of the pool, its
  -- bytes are zeros, the other pages keep their state and bytes, and one page less is free. Freeing
  -- that address succeeds and marks the pages as they were before.
  pub free-alloc :
      (page : ℕ) × (left freed : Memory) × (slot : ℕ) × (page_alloc base m ≡ (page, left))
      × (page ≡ page_address base slot)
      × (slot < page_count)
      × (is_used m slot ≡ false)
      × ((earlier : ℕ) → earlier < slot → is_used m earlier ≡ true)
      × (0 < page)
      × (get_or left.early_pages slot zero_page ≡ zero_page)
      × ((other : ℕ) → slot ≢ other → is_used left other ≡ is_used m other)
      × ((other : ℕ)
          → slot ≢ other
          → get_or left.early_pages other zero_page ≡ get_or m.early_pages other zero_page)
      × (page_free_count m ≡ page_free_count left + 1)
      × (page_free base left page ≡ (true, freed))
      × (freed.page_used ≡ m.page_used)
  unfolding page_alloc page_free page_free_count
  free-alloc =
      let (slot, found) =
        first_where_total (is_vacant m) 128 0 i (omega arith) (omega arith) free in
      let first = first_where-IsFirst (is_vacant m) 128 0 slot found in
      let left = taken m slot in
      let page = page_address base slot in
      let unused : is_used m slot ≡ false = ground (arith, first.holds) in
      let used : is_used left slot ≡ true =
        get_or-set_self m.page_used slot true false (omega (arith, h.flags, first.below)) in
      let proper : page == 0 || not (page % page_size == 0) ≡ false =
        ground (arith, h.aligned, h.not_null) in
      (
        page,
        left,
        record left { page_used = set left.page_used slot false },
        slot,
        ap (alloc_at base m) found,
        refl,
        omega (arith, first.below),
        unused,
        (λ earlier lt. used_if (is_used m earlier) (first.before earlier (omega arith) lt)),
        omega (arith, h.not_null),
        get_or-set_self m.early_pages slot zero_page zero_page
            (omega (arith, h.pages, first.below)),
        (λ other ne. get_or-set_ne m.page_used slot other true false ne),
        (λ other ne. get_or-set_ne m.early_pages slot other zero_page zero_page ne),
        count-taken m left slot 128 0 (λ k ne. get_or-set_ne m.page_used slot k true false ne)
            unused used (omega arith) (omega (arith, first.below)),
        if-false _ _ proper
            ∙ ap (free_at left) (find-page base slot (omega (arith, first.below)))
            ∙ if-true _ _ used,
        set-set m.page_used slot true false
            ∙ ap (set m.page_used slot) (sym unused)
            ∙ set-get_or m.page_used slot false,
      )

range_tests :
    (trivial wraps : Bool) (z y : Bool)
    → (if trivial then z else if wraps then false else y) ≡ true
    → z ≡ false
    → (trivial ≡ false) × (wraps ≡ false) × (y ≡ true)
range_tests true wraps z y e f = cc
range_tests false true z y e f = cc
range_tests false false z y e f = (refl, refl, e)

some-of : (o : Option ℕ) → is_some o ≡ true → (i : ℕ) × (o ≡ some i)
some-of none e = cc
some-of (some i) e = (i, refl)

-- A range of at least one byte that is accepted lies inside one page that is in use.
pub memory_range_valid-inside :
    (base : ℕ) (m : Memory) (address n : ℕ)
    → n < 2 ^ 64
    → address < 2 ^ 64
    → 0 < n
    → memory_range_valid base m address n ≡ true
    → (i : ℕ) × (is_used m i ≡ true)
      × (page_address base i ≤ address)
      × (address + n ≤ page_address base i + page_size)
unfolding memory_range_valid
memory_range_valid-inside base m address n small low some_bytes e =
    let end = (address + n) % 2 ^ 64 in
    let nonempty : n == 0 ≡ false = ground arith in
    let (real, no_wrap, covered) =
      range_tests (address == 0 || n == 0) (ltb end address) (n == 0)
        (is_some (first_where (covers base m address end) 128 0)) e nonempty in
    let (i, found) = some-of (first_where (covers base m address end) 128 0) covered in
    let first = first_where-IsFirst (covers base m address end) 128 0 i found in
    let used : is_used m i ≡ true = ground (arith, first.holds) in
    let lo : leb (page_address base i) address ≡ true = ground (arith, first.holds) in
    let hi : leb end (page_address base i + page_size) ≡ true = ground (arith, first.holds) in
    let from_start = leb→le _ _ lo in
    let to_end = leb→le _ _ hi in
    let order = ltb→le _ _ no_wrap in (i, used, from_start, omega arith)
