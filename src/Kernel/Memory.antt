-- ===== src/Kernel/Memory.antt =====
-- src/kernel/memory/memory.c: the early page allocator. `base` is the address of the pool, which
-- the linker chooses; page `i` starts `i` pages behind it. A null pointer is the address 0.
pub mod Pages
use project_orange_tea.Base.{
  ℕ, zero, suc, ◌+◌, ◌-◌, ◌*◌, ◌%◌, ◌^◌, Bool, true, false, ◌&&◌, ◌||◌, not, Option, none, some,
  List, [], ◌∷◌, ltb, leb, ◌==◌, if◌then◌else◌, get_or, set, replicate, first_where,
}

abbrev pub page_count : ℕ
page_count = 128

abbrev pub page_size : ℕ
page_size = 4096

-- the statics
pub record Memory : Type 0 where
  pub early_pages : List (List ℕ)
  pub page_used : List Bool

abbrev pub zero_page : List ℕ
zero_page = replicate 4096 0

-- `memory_init` leaves the bytes of the pages.
pub memory_init : Memory → Memory
memory_init m = record m { page_used = replicate page_count false }

abbrev pub is_used : Memory → ℕ → Bool
is_used m i = get_or m.page_used i false

abbrev pub is_vacant : Memory → ℕ → Bool
is_vacant m i = not (is_used m i)

abbrev pub page_address : ℕ → ℕ → ℕ
page_address base i = base + i * page_size

abbrev pub taken : Memory → ℕ → Memory
taken m i = record {
  early_pages = set m.early_pages i zero_page;
  page_used = set m.page_used i true;
}

abbrev pub alloc_at : ℕ → Memory → Option ℕ → ℕ × Memory
alloc_at base m none = (0, m)
alloc_at base m (some i) = (page_address base i, taken m i)

unfoldable pub page_alloc : ℕ → Memory → ℕ × Memory
page_alloc base m = alloc_at base m (first_where (is_vacant m) page_count 0)

abbrev pub is_page : ℕ → ℕ → ℕ → Bool
is_page base page i = page == page_address base i

abbrev pub free_at : Memory → Option ℕ → Bool × Memory
free_at m none = (false, m)
free_at m (some i) =
    if is_used m i then (true, record m { page_used = set m.page_used i false }) else (false, m)

-- `false` is the -1 of the code.
unfoldable pub page_free : ℕ → Memory → ℕ → Bool × Memory
page_free base m page =
    if page == 0 || not (page % page_size == 0)
    then (false, m)
    else free_at m (first_where (is_page base page) page_count 0)

unfoldable pub count_free : Memory → ℕ → ℕ → ℕ
count_free m zero i = 0
count_free m (suc rounds) i =
    let rest = count_free m rounds (i + 1) in if is_used m i then rest else rest + 1

pub page_free_count : Memory → ℕ
unfolding count_free
page_free_count m = count_free m page_count 0

abbrev pub covers : ℕ → Memory → ℕ → ℕ → ℕ → Bool
covers base m start end i =
    is_used m i && leb (page_address base i) start && leb end (page_address base i + page_size)

abbrev pub is_some : Option ℕ → Bool
is_some none = false
is_some (some _) = true

-- Addresses wrap at 64 bits.
unfoldable pub memory_range_valid : ℕ → Memory → ℕ → ℕ → Bool
memory_range_valid base m address length =
    let end = (address + length) % 2 ^ 64 in
    if address == 0 || length == 0
    then length == 0
    else if ltb end address
    then false
    else is_some (first_where (covers base m address end) page_count 0)
