-- ===== src/Kernel/Ora/Safety.antt =====
-- src/kernel/exec/ora.c: what a header that is accepted promises, and that loading stays inside the
-- memory it was given and, but for the read of the header, inside the file.
use project_orange_tea.Base.{
  ℕ, zero, suc, ◌+◌, ◌-◌, ◌%◌, ◌^◌, ◌≤◌, ◌<◌, ◌≡◌, refl, Bool, true, false, not, Option, none, some,
  List, ltb, leb, ◌==◌, if◌then◌else◌, arith, ltb→lt, ltb→le,
}
use project_orange_tea.Kernel.Ora.{
  uint64_max, OraStatus, ok, err_format, err_range, err_io, header_size, Header, header_of,
  add_overflows, validate_header, Loader, Outcome, failed, payload_end, image_size, chunk_size,
  address_of, load_chunk, load_payload, clear_bss, start_image, load_image, is_valid,
  fits_in_memory, load_header, ora_load,
}

-- What the code relies on in a header: no sum wraps, the file has the payload, and the entry point
-- is in the text.
pub record IsSound (h : Header) (file_size : ℕ) : Type 0 where
  pub payload_in_file : header_size + h.text_size + h.data_size ≤ file_size
  pub image_no_wrap : h.text_size + h.data_size + h.bss_size < 2 ^ 64
  pub entry_in_text : h.entry_point < h.text_size
  pub payload_no_wrap : header_size + h.text_size + h.data_size < 2 ^ 64

valid-ok : (status : OraStatus) → is_valid status ≡ true → status ≡ ok
valid-ok ok e = refl
valid-ok err_format e = cc
valid-ok err_range e = cc
valid-ok err_io e = cc

all_tests :
    (good first second : Bool)
    → (if not good
        then err_format
        else if first
        then err_range
        else if second
        then err_range
        else ok)
      ≡ ok
    → (good ≡ true) × (first ≡ false) × (second ≡ false)
all_tests true false false e = (refl, refl, refl)
all_tests true false true e = cc
all_tests true true _ e = cc
all_tests false _ _ e = cc

-- A header that is accepted is sound, whatever the numbers in it are.
pub validate_header-IsSound :
    (h : Header) (file_size : ℕ) → validate_header h file_size ≡ ok → IsSound h file_size
unfolding validate_header add_overflows
validate_header-IsSound h file_size e =
    let (good, first, second) = all_tests _ _ _ e in
    let entry : ltb h.entry_point h.text_size ≡ true = ground arith in
    let payload : ltb (uint64_max - h.data_size) h.text_size ≡ false = ground arith in
    let wrapped : ltb (uint64_max - (h.text_size + h.data_size) % 2 ^ 64) header_size ≡ false =
      ground arith in
    let whole : ltb file_size ((header_size + h.text_size + h.data_size) % 2 ^ 64) ≡ false =
      ground arith in
    let bss : ltb (uint64_max - h.text_size - h.data_size) h.bss_size ≡ false = ground arith in
    let inside = ltb→lt h.entry_point h.text_size entry in
    let le_text = ltb→le (uint64_max - h.data_size) h.text_size payload in
    let le_header = ltb→le _ _ wrapped in
    let le_file = ltb→le _ _ whole in
    let le_bss = ltb→le _ _ bss in
    record {
      payload_in_file = omega arith;
      image_no_wrap = omega arith;
      entry_in_text = inside;
      payload_no_wrap = omega arith;
    }

module _ {Context : Type 0} (loader : Loader Context) (h : Header) (file_size : ℕ)
    (sound : IsSound h file_size) (fits : fits_in_memory loader h ≡ true)
    (limit : loader.memory_limit < 2 ^ 64) where
  image_fits : loader.image_base + (h.text_size + h.data_size + h.bss_size) ≤ loader.memory_limit
  image_fits =
      let e : image_size h ≡ h.text_size + h.data_size + h.bss_size =
        omega (arith, sound.image_no_wrap) in
      ground (arith, e, fits)

  address_lem :
      (offset : ℕ)
      → header_size ≤ offset
      → offset ≤ header_size + h.text_size + h.data_size
      → address_of loader offset + header_size ≡ loader.image_base + offset
  address_lem offset low high = omega (arith, image_fits, limit)

  end_lem : payload_end h ≡ header_size + h.text_size + h.data_size
  end_lem = omega (arith, sound.payload_no_wrap)

module _ {Context : Type 0} (loader : Loader Context) (h : Header) (file_size : ℕ)
    (sound : IsSound h file_size) (fits : fits_in_memory loader h ≡ true)
    (limit : loader.memory_limit < 2 ^ 64) (Inv : Context → Type 0)
    (reads : (c : Context) (offset n : ℕ)
      → Inv c
      → offset + n ≤ file_size
      → Inv (loader.read c offset n).1)
    (loads : (c : Context) (address : ℕ) (bytes : List ℕ) (n : ℕ)
      → Inv c
      → loader.image_base ≤ address
      → address + n ≤ loader.memory_limit
      → Inv (loader.load c address bytes n).1)
    (clears : (c : Context) (address n : ℕ)
      → Inv c
      → loader.image_base ≤ address
      → address + n ≤ loader.memory_limit
      → Inv (loader.zero_range c address n).1) where
  chunk-Inv :
      (c : Context) (offset chunk : ℕ)
      → Inv c
      → header_size ≤ offset
      → offset + chunk ≤ header_size + h.text_size + h.data_size
      → Inv (load_chunk loader offset chunk c).1
  unfolding load_chunk
  chunk-Inv c offset chunk inv low high =
      step (loader.read c offset chunk)
        (reads c offset chunk inv (omega (arith, sound.payload_in_file)))
    where
      at_address : address_of loader offset + header_size ≡ loader.image_base + offset
      at_address = address_lem loader h file_size sound fits limit offset low (omega arith)

      step :
          (r : Option (List ℕ) × Context)
          → Inv r.1
          → Inv
              (elim r.0 as (λ _. Bool × Context) [
                | none ↦ (false, r.1)
                | some bytes ↦ loader.load r.1 (address_of loader offset) bytes chunk
              ]).1
      step (none, c') i = i
      step (some bytes, c') i =
          loads c' (address_of loader offset) bytes chunk i (omega (arith, at_address))
            (omega (arith, at_address, image_fits loader h file_size sound fits limit))

  payload-Inv :
      (rounds offset : ℕ) (c : Context)
      → Inv c
      → header_size ≤ offset
      → Inv (load_payload loader rounds (payload_end h) offset c).1
  unfolding load_payload
  payload-Inv zero offset c inv low = inv
  payload-Inv (suc rounds) offset c inv low =
      both (λ inv'. payload-Inv rounds (offset + chunk) c' inv' (omega arith))
        (leb (payload_end h) offset) (load_chunk loader offset chunk c).0 refl
    where
      chunk : ℕ
      chunk = chunk_size (payload_end h) offset

      c' : Context
      c' = (load_chunk loader offset chunk c).1

      after : leb (payload_end h) offset ≡ false → Inv c'
      after h' =
          let before : offset < payload_end h = ground arith in
          chunk-Inv c offset chunk inv low
            (omega (arith, end_lem loader h file_size sound fits limit))

      both :
          (Inv c' → Inv (load_payload loader rounds (payload_end h) (offset + chunk) c').1)
          → (past loaded : Bool) → leb (payload_end h) offset ≡ past
          → Inv
              (if past
                then (true, c)
                else if loaded
                then load_payload loader rounds (payload_end h) (offset + chunk) c'
                else (false, c')).1
      both next true loaded e = inv
      both next false true e = next (after e)
      both next false false e = after e

  bss-Inv : (c : Context) → Inv c → Inv (clear_bss loader h c).1
  unfolding clear_bss
  bss-Inv c inv = by_size (h.bss_size == 0) refl
    where
      start : ℕ
      start = (loader.image_base + h.text_size + h.data_size) % 2 ^ 64

      at_start : h.bss_size == 0 ≡ false → start ≡ loader.image_base + h.text_size + h.data_size
      at_start e =
          let some_bytes : 0 < h.bss_size = ground arith in
          omega (arith, image_fits loader h file_size sound fits limit)

      by_size :
          (b : Bool)
          → h.bss_size == 0 ≡ b
          → Inv (if b then (true, c) else loader.zero_range c start h.bss_size).1
      by_size true e = inv
      by_size false e =
          clears c start h.bss_size inv (omega (arith, at_start e))
            (omega (arith, at_start e, image_fits loader h file_size sound fits limit))

  image-Inv :
      ((c : Context) (entry : ℕ)
        → Inv c
        → loader.image_base ≤ entry
        → entry < loader.image_base + h.text_size
        → Inv (loader.enter c entry).1)
      → (c : Context) → Inv c
      → Inv (load_image loader h c).1
  unfolding load_image start_image
  image-Inv enters c inv = by_result loaded.0 cleared.0
    where
      loaded : Bool × Context
      loaded = load_payload loader (suc (payload_end h)) (payload_end h) header_size c

      cleared : Bool × Context
      cleared = clear_bss loader h loaded.1

      loaded_inv : Inv loaded.1
      loaded_inv = payload-Inv (suc (payload_end h)) header_size c inv (omega arith)

      cleared_inv : Inv cleared.1
      cleared_inv = bss-Inv loaded.1 loaded_inv

      entry : ℕ
      entry = (loader.image_base + h.entry_point) % 2 ^ 64

      entry_lem : entry ≡ loader.image_base + h.entry_point
      entry_lem =
          omega (arith, image_fits loader h file_size sound fits limit, limit, sound.entry_in_text)

      by_result :
          (a b : Bool)
          → Inv
              (if not a
                then (failed err_io, loaded.1)
                else if not b
                then (failed err_io, cleared.1)
                else start_image loader h cleared.1).1
      by_result false b = loaded_inv
      by_result true false = cleared_inv
      by_result true true =
          enters cleared.1 entry cleared_inv (omega (arith, entry_lem))
            (omega (arith, entry_lem, sound.entry_in_text))

-- What a caller's functions keep, `ora_load` keeps, on every path, errors included, whatever the
-- file holds, with a memory limit below 2 ^ 64. The functions keep it for reads inside the file,
-- and for the read of 52 bytes at its start, which `ora_load` makes whatever the file's size is;
-- for writes and clears between the image's base and the memory limit; and for entering the program
-- at or above the base and below the limit.
pub ora_load-Inv :
    {Context : Type 0} (loader : Loader Context) (file_size : ℕ) (Inv : Context → Type 0)
    → loader.memory_limit < 2 ^ 64
    → ((c : Context) → Inv c → Inv (loader.read c 0 header_size).1)
    → ((c : Context) (offset n : ℕ)
        → Inv c
        → offset + n ≤ file_size
        → Inv (loader.read c offset n).1)
    → ((c : Context) (address : ℕ) (bytes : List ℕ) (n : ℕ)
        → Inv c
        → loader.image_base ≤ address
        → address + n ≤ loader.memory_limit
        → Inv (loader.load c address bytes n).1)
    → ((c : Context) (address n : ℕ)
        → Inv c
        → loader.image_base ≤ address
        → address + n ≤ loader.memory_limit
        → Inv (loader.zero_range c address n).1)
    → ((c : Context) (entry : ℕ)
        → Inv c
        → loader.image_base ≤ entry
        → entry < loader.memory_limit
        → Inv (loader.enter c entry).1)
    → (c : Context) → Inv c
    → Inv (ora_load loader file_size c).1
unfolding ora_load
ora_load-Inv {Context = Context} loader file_size Inv limit header reads loads clears enters c inv =
    step (loader.read c 0 header_size) (header c inv)
  where
    checked :
        (h : Header) (c' : Context)
        → Inv c'
        → (valid fits : Bool) → is_valid (validate_header h file_size) ≡ valid
        → fits_in_memory loader h ≡ fits
        → Inv
            (if not valid
              then (failed err_format, c')
              else if not fits
              then (failed err_range, c')
              else load_image loader h c').1
    checked h c' i false fits e f = i
    checked h c' i true false e f = i
    checked h c' i true true e f =
        let accepted : validate_header h file_size ≡ ok =
          valid-ok (validate_header h file_size) e in
        let sound = validate_header-IsSound h file_size accepted in
        image-Inv loader h file_size sound f limit Inv reads loads clears
          (λ c'' entry i'' low high.
            enters c'' entry i'' low (omega (arith, image_fits loader h file_size sound f limit)))
          c' i

    step :
        (r : Option (List ℕ) × Context)
        → Inv r.1
        → Inv
            (elim r.0 as (λ _. Outcome × Context) [
              | none ↦ (failed err_io, r.1)
              | some bytes ↦ load_header loader file_size (header_of bytes) r.1
            ]).1
    step (none, c') i = i
    step (some bytes, c') i = checked (header_of bytes) c' i _ _ refl refl
