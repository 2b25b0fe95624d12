-- ===== src/Kernel/Ora.antt =====
-- src/kernel/exec/ora.c and include/apps/ora.h: the check of a program's header and its loading.
-- The functions of `struct ora_loader` are the caller's, so they are fields: each works on the
-- context and gives the one that it leaves. Their pointers are never null.
pub mod Loads
pub mod Safety
use project_orange_tea.Base.{
  ℕ, zero, suc, ◌+◌, ◌-◌, ◌*◌, ◌/◌, ◌%◌, ◌^◌, Bool, true, false, ◌&&◌, ◌||◌, not, Option, none,
  some, List, ltb, leb, ◌==◌, if◌then◌else◌, get_or, min,
}
use project_orange_tea.Storage.Bytes.{get32, get64}

-- the results of `ora_validate_header`, and the errors of `ora_load`
pub data OraStatus : Type 0 where
  ok err_format err_range err_io : OraStatus

abbrev pub header_size : ℕ
header_size = 52

abbrev pub uint64_max : ℕ
uint64_max = 2 ^ 64 - 1

-- `struct ora_header`
pub record Header : Type 0 where
  pub magic : ℕ
  pub version : ℕ
  pub architecture : ℕ
  pub size : ℕ
  pub flags : ℕ
  pub entry_point : ℕ
  pub text_size : ℕ
  pub data_size : ℕ
  pub bss_size : ℕ
  pub alignment : ℕ

abbrev pub get16 : List ℕ → ℕ → ℕ
get16 p i = get_or p i 0 + get_or p (i + 1) 0 * 256

-- the packed structure laid over the bytes
pub header_of : List ℕ → Header
unfolding get32 get64
header_of bytes = record {
  magic = get32 bytes 0;
  version = get16 bytes 4;
  architecture = get16 bytes 6;
  size = get16 bytes 8;
  flags = get16 bytes 10;
  entry_point = get64 bytes 12;
  text_size = get64 bytes 20;
  data_size = get64 bytes 28;
  bss_size = get64 bytes 36;
  alignment = get64 bytes 44;
}

pub add_overflows : ℕ → ℕ → Bool
add_overflows left right = ltb (uint64_max - right) left

-- `a & b`, bit by bit; 64 rounds are enough for 64 bits
pub bit_and : ℕ → ℕ → ℕ → ℕ
bit_and zero a b = 0
bit_and (suc bits) a b = a % 2 * (b % 2) + 2 * bit_and bits (a / 2) (b / 2)

abbrev pub is_aligned : ℕ → Bool
is_aligned alignment = not (alignment == 0) && bit_and 64 alignment (alignment - 1) == 0

abbrev pub well_formed : Header → Bool
well_formed h =
    h.magic == 0x41524f4f
    && h.version == 1
    && h.architecture == 0x3e
    && h.size == header_size
    && ltb h.entry_point h.text_size
    && is_aligned h.alignment

unfoldable pub validate_header : Header → ℕ → OraStatus
unfolding add_overflows bit_and
validate_header h file_size =
    if not (well_formed h)
    then err_format
    else if add_overflows h.text_size h.data_size
        || add_overflows header_size ((h.text_size + h.data_size) % 2 ^ 64)
    then err_range
    else if ltb file_size ((header_size + h.text_size + h.data_size) % 2 ^ 64)
        || ltb (uint64_max - h.text_size - h.data_size) h.bss_size
    then err_range
    else ok

-- `struct ora_loader`. `read` gives the bytes where as many were read as were asked for; `load`
-- takes an address, the bytes and their number.
pub record Loader (Context : Type 0) : Type 0 where
  pub read : Context → ℕ → ℕ → Option (List ℕ) × Context
  pub load : Context → ℕ → List ℕ → ℕ → Bool × Context
  pub zero_range : Context → ℕ → ℕ → Bool × Context
  pub enter : Context → ℕ → ℕ × Context
  pub image_base : ℕ
  pub memory_limit : ℕ

-- an error, or what `enter` returned
pub data Outcome : Type 0 where
  failed : OraStatus → Outcome
  entered : ℕ → Outcome

abbrev pub payload_end : Header → ℕ
payload_end h = (header_size + h.text_size + h.data_size) % 2 ^ 64

abbrev pub image_size : Header → ℕ
image_size h = (h.text_size + h.data_size + h.bss_size) % 2 ^ 64

abbrev pub chunk_size : ℕ → ℕ → ℕ
chunk_size end offset = min 256 (end - offset)

abbrev pub is_valid : OraStatus → Bool
is_valid ok = true
is_valid _ = false

module _ {Context : Type 0} (loader : Loader Context) where
  abbrev pub address_of : ℕ → ℕ
  address_of offset = (loader.image_base + offset - header_size) % 2 ^ 64

  -- `read` and `load` of one chunk
  unfoldable pub load_chunk : ℕ → ℕ → Context → Bool × Context
  load_chunk offset chunk c =
      let (result, c') = loader.read c offset chunk in
      elim result [
        | none ↦ (false, c')
        | some bytes ↦ loader.load c' (address_of offset) bytes chunk
      ]

  -- the loop; each round takes a byte at least, so as many rounds as there are bytes are enough
  unfoldable pub load_payload : ℕ → ℕ → ℕ → Context → Bool × Context
  unfolding load_chunk
  load_payload zero end offset c = (false, c)
  load_payload (suc rounds) end offset c =
      let (loaded, c') = load_chunk offset (chunk_size end offset) c in
      let rest = load_payload rounds end (offset + chunk_size end offset) c' in
      if leb end offset then (true, c) else if loaded then rest else (false, c')

  unfoldable pub clear_bss : Header → Context → Bool × Context
  clear_bss h c =
      if h.bss_size == 0
      then (true, c)
      else loader.zero_range c ((loader.image_base + h.text_size + h.data_size) % 2 ^ 64) h.bss_size

  unfoldable pub start_image : Header → Context → Outcome × Context
  start_image h c =
      let (result, c') = loader.enter c ((loader.image_base + h.entry_point) % 2 ^ 64) in
      (entered result, c')

  -- what follows the check of the header
  unfoldable pub load_image : Header → Context → Outcome × Context
  unfolding load_payload clear_bss start_image
  load_image h c =
      let (loaded, c1) = load_payload (suc (payload_end h)) (payload_end h) header_size c in
      let (cleared, c2) = clear_bss h c1 in
      if not loaded
      then (failed err_io, c1)
      else if not cleared
      then (failed err_io, c2)
      else start_image h c2

  abbrev pub fits_in_memory : Header → Bool
  fits_in_memory h =
      leb (image_size h) loader.memory_limit
      && leb loader.image_base (loader.memory_limit - image_size h)

  abbrev pub load_header : ℕ → Header → Context → Outcome × Context
  load_header file_size h c =
      if not (is_valid (validate_header h file_size))
      then (failed err_format, c)
      else if not (fits_in_memory h)
      then (failed err_range, c)
      else load_image h c

  unfoldable pub ora_load : ℕ → Context → Outcome × Context
  unfolding load_image validate_header header_of
  ora_load file_size c =
      let (result, c') = loader.read c 0 header_size in
      elim result [
        | none ↦ (failed err_io, c')
        | some bytes ↦ load_header file_size (header_of bytes) c'
      ]
