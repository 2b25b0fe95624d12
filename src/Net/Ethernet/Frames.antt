-- ===== src/Net/Ethernet/Frames.antt =====
-- src/net/ethernet.c: a frame that is built into a buffer with room for it parses back.
use project_orange_tea.Base.{
  ℕ, zero, suc, ◌+◌, ◌-◌, ◌*◌, ◌/◌, ◌%◌, ◌≤◌, ◌<◌, ◌≡◌, refl, ap, ◌∙◌, false, some, List, [], ◌∷◌,
  ◌++◌, ltb, if-false, get_or, length, take, drop, replicate, arith, length-append,
  length-replicate, take-append, drop-append,
}
use project_orange_tea.Net.Ethernet.{
  min_frame_size, max_frame_size, header_size, ok, Frame, built, fields, frame_parse, frame_bytes,
  frame_build,
}

-- A frame that the format can carry: two addresses of six bytes, a type of two, and a payload that
-- the largest frame has room for.
pub record IsFrame (frame : Frame) : Type 0 where
  pub destination_length : length frame.destination ≡ 6
  pub source_length : length frame.source ≡ 6
  pub type_fits : frame.ether_type < 65536
  pub payload_fits : header_size + length frame.payload ≤ max_frame_size

abbrev pub padded : Frame → Frame
padded frame = record frame {
  payload = frame.payload ++ replicate (min_frame_size - (header_size + length frame.payload)) 0;
}

-- Reading behind a prefix.
get_or-behind :
    (xs ys : List ℕ) (n i d : ℕ) → length xs ≡ n → get_or (xs ++ ys) (n + i) d ≡ get_or ys i d
get_or-behind [] ys n i d h = ap (λ k. get_or ys k d) (omega arith)
get_or-behind (x ∷ xs) ys zero i d h = absurd (omega arith)
get_or-behind (x ∷ xs) ys (suc n) i d h =
    ap (λ k. get_or (x ∷ (xs ++ ys)) k d) (suc-add n i) ∙ get_or-behind xs ys n i d (omega arith)
  where
    suc-add : (a b : ℕ) → suc a + b ≡ suc (a + b)
    suc-add a b = omega arith

drop-behind : (xs ys : List ℕ) (n i : ℕ) → length xs ≡ n → drop (n + i) (xs ++ ys) ≡ drop i ys
drop-behind [] ys n i h = ap (λ k. drop k ys) (omega arith)
drop-behind (x ∷ xs) ys zero i h = absurd (omega arith)
drop-behind (x ∷ xs) ys (suc n) i h =
    ap (λ k. drop k (x ∷ (xs ++ ys))) (suc-add n i) ∙ drop-behind xs ys n i (omega arith)
  where
    suc-add : (a b : ℕ) → suc a + b ≡ suc (a + b)
    suc-add a b = omega arith

module _ (frame : Frame) (h : IsFrame frame) where
  abbrev tail : List ℕ
  tail = (frame.ether_type / 256) ∷ (frame.ether_type % 256) ∷ (padded frame).payload

  length-frame_bytes :
      length (frame_bytes frame)
      ≡ 14 + (length frame.payload + (min_frame_size - (header_size + length frame.payload)))
  length-frame_bytes = omega (
    arith,
    length-append frame.destination (frame.source ++ tail),
    length-append frame.source tail,
    length-append frame.payload
        (replicate (min_frame_size - (header_size + length frame.payload)) 0),
    length-replicate {A = ℕ} (min_frame_size - (header_size + length frame.payload)) 0,
    h.destination_length,
    h.source_length,
  )

  after_addresses : (i : ℕ) → get_or (frame_bytes frame) (6 + (6 + i)) 0 ≡ get_or tail i 0
  after_addresses i =
      get_or-behind frame.destination (frame.source ++ tail) 6 (6 + i) 0 h.destination_length
      ∙ get_or-behind frame.source tail 6 i 0 h.source_length

  source_back : take 6 (drop 6 (frame_bytes frame)) ≡ frame.source
  source_back =
      ap (take 6) (drop-append frame.destination (frame.source ++ tail) 6 h.destination_length)
      ∙ take-append frame.source tail 6 h.source_length

  payload_back : drop (6 + (6 + 2)) (frame_bytes frame) ≡ (padded frame).payload
  payload_back =
      drop-behind frame.destination (frame.source ++ tail) 6 (6 + 2) h.destination_length
      ∙ drop-behind frame.source tail 6 2 h.source_length

  type_back :
      get_or (frame_bytes frame) 12 0 * 256 + get_or (frame_bytes frame) 13 0 ≡ frame.ether_type
  type_back = omega (arith, after_addresses 0, after_addresses 1, h.type_fits)

  fields-frame_bytes : fields (frame_bytes frame) ≡ padded frame
  fields-frame_bytes =
      rw
        (
          take-append frame.destination (frame.source ++ tail) 6 h.destination_length,
          source_back,
          type_back,
          payload_back,
        )
        refl

  -- A frame that the format can carry, built into a buffer that has room for the smallest frame and
  -- for the header and the payload, is built without running over the buffer, and parses back to
  -- the same addresses, type and payload, the payload padded with zeros up to the smallest frame;
  -- no built frame is shorter than the smallest, longer than the largest or longer than the buffer.
  pub parse-build :
      (capacity : ℕ)
      → min_frame_size ≤ capacity
      → header_size + length frame.payload ≤ capacity
      → (bytes : List ℕ) × (frame_build capacity frame ≡ built bytes)
        × (min_frame_size ≤ length bytes)
        × (length bytes ≤ max_frame_size)
        × (length bytes ≤ capacity)
        × (frame_parse bytes ≡ (ok, some (padded frame)))
  unfolding frame_build frame_parse
  parse-build capacity room whole =
      let small : ltb max_frame_size (header_size + length frame.payload) ≡ false =
        ground (arith, h.payload_fits) in
      let enough : ltb capacity min_frame_size ≡ false = ground arith in
      let holds : ltb capacity (header_size + length frame.payload) ≡ false = ground arith in
      let least : min_frame_size ≤ length (frame_bytes frame) = omega (arith, length-frame_bytes) in
      let most : length (frame_bytes frame) ≤ max_frame_size =
        omega (arith, length-frame_bytes, h.payload_fits) in
      let long : ltb (length (frame_bytes frame)) header_size ≡ false = ground arith in
      let short : ltb max_frame_size (length (frame_bytes frame)) ≡ false = ground arith in
      (
        frame_bytes frame,
        if-false _ _ small ∙ if-false _ _ enough ∙ if-false _ _ holds,
        least,
        most,
        omega (arith, length-frame_bytes),
        if-false _ _ long ∙ if-false _ _ short ∙ ap (λ f. (ok, some f)) fields-frame_bytes,
      )
