-- ===== src/Kernel/Tests.antt =====
-- The page allocator and the loader at small inputs.
use project_orange_tea.Base.{
  ℕ, zero, suc, ◌+◌, ◌*◌, ◌^◌, ◌≡◌, ◌≢◌, ◌≤◌, ◌<◌, refl, Bool, true, false, Option, none, some,
  List, [], ◌∷◌, replicate, get_or, arith, length, length-replicate,
}
use project_orange_tea.Kernel.Memory.{
  Memory, zero_page, is_used, page_address, page_alloc, page_free, page_free_count,
  memory_range_valid, page_size, page_count,
}
use project_orange_tea.Kernel.Memory.Pages.{IsPool, free-alloc, memory_range_valid-inside}
use project_orange_tea.Kernel.Ora.{Header, validate_header, Loader, ora_load, load_payload, ok}
use project_orange_tea.Kernel.Ora.Loads.{Works, load_payload-Works}
use project_orange_tea.Kernel.Ora.Safety.{IsSound, validate_header-IsSound, ora_load-Inv}

abbrev pool : Memory
pool = record { early_pages = replicate 128 []; page_used = true ∷ replicate 127 false }

pool-IsPool : IsPool 1048576 pool
pool-IsPool = record {
  flags = refl;
  pages = refl;
  aligned = refl;
  not_null = omega arith;
  inside = omega arith;
}

free-alloc_example :
    (page : ℕ) × (left freed : Memory) × (slot : ℕ) × (page_alloc 1048576 pool ≡ (page, left))
    × (page ≡ page_address 1048576 slot)
    × (slot < page_count)
    × (is_used pool slot ≡ false)
    × ((earlier : ℕ) → earlier < slot → is_used pool earlier ≡ true)
    × (0 < page)
    × (get_or left.early_pages slot zero_page ≡ zero_page)
    × ((other : ℕ) → slot ≢ other → is_used left other ≡ is_used pool other)
    × ((other : ℕ)
        → slot ≢ other
        → get_or left.early_pages other zero_page ≡ get_or pool.early_pages other zero_page)
    × (page_free_count pool ≡ page_free_count left + 1)
    × (page_free 1048576 left page ≡ (true, freed))
    × (freed.page_used ≡ pool.page_used)
free-alloc_example = free-alloc 1048576 pool pool-IsPool 1 (omega arith) refl

memory_range_valid_inside_accepted : memory_range_valid 1048576 pool 1048580 16 ≡ true
unfolding memory_range_valid project_orange_tea.Base.first_where
memory_range_valid_inside_accepted = refl

memory_range_valid-inside_example :
    (i : ℕ) × (is_used pool i ≡ true)
    × (page_address 1048576 i ≤ 1048580)
    × (1048580 + 16 ≤ page_address 1048576 i + page_size)
memory_range_valid-inside_example =
    memory_range_valid-inside 1048576 pool 1048580 16 (omega arith) (omega arith) (omega arith)
      memory_range_valid_inside_accepted

abbrev header : Header
header = record {
  magic = 0x41524f4f;
  version = 1;
  architecture = 0x3e;
  size = 52;
  flags = 0;
  entry_point = 4;
  text_size = 300;
  data_size = 10;
  bss_size = 6;
  alignment = 16;
}

validate_header_IsSound_accepted : validate_header header 400 ≡ ok
unfolding validate_header
validate_header_IsSound_accepted = refl

validate_header-IsSound_example : IsSound header 400
validate_header-IsSound_example =
    validate_header-IsSound header 400 validate_header_IsSound_accepted

-- the bytes of such a header: "OORA", then the fields
abbrev header_bytes : List ℕ
header_bytes =
    0x4f ∷ 0x4f ∷ 0x52 ∷ 0x41 ∷ 1 ∷ 0 ∷ 0x3e ∷ 0 ∷ 52 ∷ 0 ∷ 0 ∷ 0 ∷ 4 ∷ 0 ∷ 0 ∷ 0 ∷ 0 ∷ 0 ∷ 0 ∷ 0
    ∷ 44 ∷ 1 ∷ 0 ∷ 0 ∷ 0 ∷ 0 ∷ 0 ∷ 0 ∷ 10 ∷ 0 ∷ 0 ∷ 0 ∷ 0 ∷ 0 ∷ 0 ∷ 0 ∷ 6 ∷ 0 ∷ 0 ∷ 0 ∷ 0 ∷ 0 ∷ 0
    ∷ 0 ∷ 16 ∷ 0 ∷ 0 ∷ 0 ∷ 0 ∷ 0 ∷ 0 ∷ 0 ∷ []

-- a loader whose context is the highest address that was written so far
abbrev recorder : Loader ℕ
recorder = record {
  read = λ c offset n. (some header_bytes, c);
  load = λ c address bytes n. (true, address + n);
  zero_range = λ c address n. (true, address + n);
  enter = λ c entry. (0, c);
  image_base = 65536;
  memory_limit = 131072;
}

-- Nothing above the limit is written.
ora_load-Inv_example : (ora_load recorder 400 0).1 ≤ 131072
ora_load-Inv_example =
    ora_load-Inv recorder 400 (λ c. c ≤ 131072) (omega arith) (λ c i. i) (λ c offset n i h. i)
      (λ c address bytes n i lo hi. hi) (λ c address n i lo hi. hi) (λ c entry i lo hi. i) 0
      (omega arith)

recorder-Works : Works recorder
recorder-Works = record {
  reads = λ c offset n. (header_bytes, c, refl);
  loads = λ c address bytes n. (address + n, refl);
}

load_payload-Works_example : (left : ℕ) × (load_payload recorder 311 362 52 0 ≡ (true, left))
load_payload-Works_example = load_payload-Works recorder recorder-Works 311 362 52 0 (omega arith)
