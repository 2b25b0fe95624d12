-- ===== src/Net/Packet.antt =====
-- src/net/config/network_stack.c: the Internet checksum, the check of an IPv4 header and the names
-- in DNS packets. A buffer is the list of its bytes, never null.
pub mod Checksum
pub mod Names
use project_orange_tea.Base.{
  ℕ, zero, suc, ◌+◌, ◌-◌, ◌*◌, ◌/◌, ◌%◌, ◌^◌, Bool, true, false, ◌&&◌, ◌||◌, not, Option, none,
  some, List, [], ◌∷◌, ◌++◌, ltb, leb, ◌==◌, if◌then◌else◌, get_or, set, take, drop, length,
}
use project_orange_tea.Net.Stack.{NetStatus, ok, inval, invalid_checksum}

-- the two loops over the bytes: big-endian words, an odd byte last; `uint32_t` addition
unfoldable pub sum_words : ℕ → List ℕ → ℕ
sum_words sum [] = sum
sum_words sum (a ∷ []) = (sum + a * 256) % 2 ^ 32
sum_words sum (a ∷ b ∷ rest) = sum_words ((sum + (a * 256 + b)) % 2 ^ 32) rest

-- `while (sum >> 16) sum = (sum & 0xffff) + (sum >> 16);`: two rounds are enough for 32 bits
unfoldable pub fold_carries : ℕ → ℕ → ℕ
fold_carries zero sum = sum
fold_carries (suc rounds) sum =
    let rest = fold_carries rounds (sum % 65536 + sum / 65536) in
    if sum / 65536 == 0 then sum else rest

unfoldable pub checksum16 : List ℕ → ℕ
unfolding sum_words fold_carries
checksum16 bytes = 65535 - fold_carries 3 (sum_words 0 bytes)

-- what a valid packet gives: the header's bytes and where the payload starts
pub record Ipv4 : Type 0 where
  pub header : List ℕ
  pub payload_offset : ℕ

abbrev pub stored_checksum : List ℕ → ℕ
stored_checksum bytes = get_or bytes 10 0 * 256 + get_or bytes 11 0

-- the header with zeros in place of its checksum
abbrev pub zeroed_header : List ℕ → List ℕ
zeroed_header bytes = set (set (take 20 bytes) 10 0) 11 0

-- A header with options (more than 20 bytes) is refused. `header` and `payload_offset` are filled
-- once the lengths are known to be right, whatever comes after.
unfoldable pub ipv4_packet_validate : List ℕ → NetStatus × Option Ipv4
unfolding checksum16
ipv4_packet_validate packet =
    let ihl = get_or packet 0 0 % 16 * 4 in
    let seen : Ipv4 = record { header = take 20 packet; payload_offset = ihl } in
    if ltb (length packet) 20
    then (inval, none)
    else if not (get_or packet 0 0 / 16 == 4)
    then (inval, none)
    else if ltb ihl 20 || ltb (length packet) ihl
    then (inval, none)
    else if ltb 20 ihl
    then (inval, some seen)
    else if stored_checksum packet == checksum16 (zeroed_header packet)
    then (ok, some seen)
    else (invalid_checksum, some seen)

abbrev pub dotted : List ℕ → List ℕ → List ℕ
dotted [] label = label
dotted (c ∷ out) label = (c ∷ out) ++ (b'.' ∷ label)

-- The loop of `ortos_net_dns_parse_name`: `rest` is what stands from the cursor on and `out` what
-- was put into the buffer so far. Each round takes a byte at least, so as many rounds as the packet
-- has bytes are enough. `none` is ORTOS_NET_ERR_INVAL.
unfoldable pub dns_labels : ℕ → ℕ → List ℕ → List ℕ → Option (List ℕ)
dns_labels zero out_size rest out = none
dns_labels (suc rounds) out_size [] out = none
dns_labels (suc rounds) out_size (n ∷ rest) out =
    let more = dns_labels rounds out_size (drop n rest) (dotted out (take n rest)) in
    if n == 0
    then some out
    else if ltb (length rest) n
    then none
    else if leb out_size (length out + n + 1)
    then none
    else more

unfoldable pub dns_parse_name : List ℕ → ℕ → ℕ → Option (List ℕ)
unfolding dns_labels
dns_parse_name packet offset out_size =
    if length packet == 0 || out_size == 0
    then none
    else dns_labels (length packet) out_size (drop offset packet) []
