-- ===== src/Net/Ethernet.antt =====
-- src/net/ethernet.c and include/net/ethernet.h: Ethernet frames. The pointers are never null; a
-- frame is the list of its bytes.
pub mod Frames
use project_orange_tea.Base.{
  ℕ, ◌+◌, ◌-◌, ◌*◌, ◌/◌, ◌%◌, Bool, Option, none, some, List, [], ◌∷◌, ◌++◌, ltb, if◌then◌else◌,
  get_or, length, take, drop, replicate,
}

abbrev pub header_size : ℕ
header_size = 14

abbrev pub min_frame_size : ℕ
min_frame_size = 60

abbrev pub max_frame_size : ℕ
max_frame_size = 1518

pub data EthernetStatus : Type 0 where
  ok too_small too_large : EthernetStatus

-- `ortos_ethernet_frame_t`; the payload stands for its pointer and length
pub record Frame : Type 0 where
  pub destination : List ℕ
  pub source : List ℕ
  pub ether_type : ℕ
  pub payload : List ℕ

abbrev pub fields : List ℕ → Frame
fields bytes = record {
  destination = take 6 bytes;
  source = take 6 (drop 6 bytes);
  ether_type = get_or bytes 12 0 * 256 + get_or bytes 13 0;
  payload = drop 14 bytes;
}

unfoldable pub frame_parse : List ℕ → EthernetStatus × Option Frame
frame_parse bytes =
    if ltb (length bytes) header_size
    then (too_small, none)
    else if ltb max_frame_size (length bytes)
    then (too_large, none)
    else (ok, some (fields bytes))

-- the bytes put into the buffer: the header, the payload, and zeros up to the smallest frame
abbrev pub frame_bytes : Frame → List ℕ
frame_bytes frame =
    frame.destination
    ++ (frame.source
        ++ ((frame.ether_type / 256)
            ∷ (frame.ether_type % 256)
            ∷ (frame.payload
                ++ replicate (min_frame_size - (header_size + length frame.payload)) 0)))

-- What building a frame comes to: a status other than OK, writing behind the end of the buffer, or
-- the bytes of the frame with ORTOS_ETHERNET_OK.
pub data Built : Type 0 where
  refused : EthernetStatus → Built
  overrun : Built
  built : List ℕ → Built

-- The code tests the capacity against the smallest frame only: a longer frame is written whatever
-- the capacity is, so it may run over the end of the buffer.
unfoldable pub frame_build : ℕ → Frame → Built
frame_build capacity frame =
    if ltb max_frame_size (header_size + length frame.payload)
    then refused too_large
    else if ltb capacity min_frame_size
    then refused too_small
    else if ltb capacity (header_size + length frame.payload)
    then overrun
    else built (frame_bytes frame)
