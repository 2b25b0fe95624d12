-- ===== src/Net/Tests.antt =====
-- The network layer at small inputs.
use project_orange_tea.Base.{
  none, ℕ, zero, suc, ◌+◌, ◌%◌, ◌≡◌, ◌≢◌, ◌≤◌, ◌<◌, refl, true, false, some, List, [], ◌∷◌, ◌++◌,
  replicate, length, get_or, set, arith,
}
use project_orange_tea.Net.Link.{Link, enable_network, set_wifi_capability, connect_wifi}
use project_orange_tea.Net.Link.Reachable
use project_orange_tea.Net.Link.Reachable.{
  Step, Steps, stop, next, Steps-IsValid, get_wifi_ssid-is_wifi_connected,
}
use project_orange_tea.Net.Stack
use project_orange_tea.Net.Stack.{
  Net, Rule, blank_rule, Socket, blank_socket, blank_interface, NetStatus, socket_at, is_free,
  socket_open, socket_close, firewall_allows, firewall_add_rule, max_sockets,
}
use project_orange_tea.Net.Stack.Sockets.{IsValid, opened, close-open}
use project_orange_tea.Net.Stack.Firewall.{
  Decided, firewall_allows-first, added, deciding, allows-add_rule,
}
use project_orange_tea.Net.Packet.{checksum16, dns_parse_name}
use project_orange_tea.Net.Packet.Checksum.{word_sum, checksum16-complement}
use project_orange_tea.Net.Packet.Names.{
  encode_labels, join_labels, dns_parse_name-encode, dns_parse_name-bound,
}
use project_orange_tea.Net.Ethernet
use project_orange_tea.Net.Ethernet.{
  Frame, min_frame_size, max_frame_size, frame_build, frame_parse,
}
use project_orange_tea.Net.Ethernet.Frames.{IsFrame, padded, parse-build}

abbrev start : Net
start = record {
  interfaces = replicate 8 blank_interface;
  interface_count = 0;
  sockets = replicate 32 blank_socket;
  firewall_rules = replicate 16 blank_rule;
  firewall_rule_count = 0;
  firewall_default_policy = 1;
}

blank_everywhere : (n i : ℕ) → get_or (replicate n blank_socket) i blank_socket ≡ blank_socket
blank_everywhere zero i = refl
blank_everywhere (suc n) zero = refl
blank_everywhere (suc n) (suc i) = blank_everywhere n i

start-IsValid : IsValid start
start-IsValid = record { slots = refl; free_is_blank = λ i free. blank_everywhere 32 i }

close-open_example :
    (slot : ℕ) × (left : Net) × (socket_open start 6 ≡ ((Stack.ok, slot), left))
    × (is_free start slot ≡ true)
    × ((m : ℕ) → m < slot → is_free start m ≡ false)
    × (socket_at left slot ≡ opened 6)
    × ((m : ℕ) → slot ≢ m → socket_at left m ≡ socket_at start m)
    × (socket_close left slot ≡ (Stack.ok, start))
close-open_example = close-open start 6 0 start-IsValid refl (omega arith) refl

-- refuse what comes in to port 23
abbrev no_telnet : Rule
no_telnet = record blank_rule { destination_port = 23; inbound = 1 }

-- one rule, which refuses what comes in to port 23
abbrev guarded : Net
guarded = record start {
  firewall_rules = set start.firewall_rules 0 no_telnet;
  firewall_rule_count = 1;
}

firewall_allows-first_example : Decided 1000 23 1 guarded
firewall_allows-first_example = firewall_allows-first 1000 23 1 guarded

-- the decisions of that table, on the port and elsewhere
guarded_port : firewall_allows guarded 1000 23 1 ≡ 0
unfolding firewall_allows
guarded_port = refl

guarded_elsewhere : firewall_allows guarded 1000 24 1 ≡ guarded.firewall_default_policy
unfolding firewall_allows
guarded_elsewhere = refl

allows-add_rule_example :
    (firewall_add_rule start no_telnet
      ≡ (Stack.ok, added 1000 23 1 start no_telnet refl (omega arith)))
    × (firewall_allows (added 1000 23 1 start no_telnet refl (omega arith)) 1000 23 1
        ≡ firewall_allows (deciding 1000 23 1 start no_telnet refl (omega arith) 0) 1000 23 1)
allows-add_rule_example = allows-add_rule 1000 23 1 start no_telnet refl (omega arith)

checksum16-complement_example :
    (checksum16 (69 ∷ 0 ∷ 7 ∷ []) < 65536)
    × ((word_sum (69 ∷ 0 ∷ 7 ∷ []) + checksum16 (69 ∷ 0 ∷ 7 ∷ [])) % 65535 ≡ 0)
checksum16-complement_example =
    checksum16-complement (69 ∷ 0 ∷ 7 ∷ []) (omega arith, (omega arith, (omega arith, tt)))
      (omega arith)

-- "ab.c"
abbrev name : List (List ℕ)
name = (b'a' ∷ b'b' ∷ []) ∷ (b'c' ∷ []) ∷ []

dns_parse_name_encode_fits : length (join_labels name) + 1 < 16
unfolding join_labels
dns_parse_name_encode_fits = omega arith

dns_parse_name-encode_example :
    dns_parse_name ((1 ∷ 2 ∷ []) ++ (encode_labels name ++ (9 ∷ []))) 2 16 ≡ some (join_labels name)
dns_parse_name-encode_example =
    dns_parse_name-encode (1 ∷ 2 ∷ []) (9 ∷ []) name 16 (omega arith, (omega arith, tt))
      dns_parse_name_encode_fits

dns_parse_name_bound_read : dns_parse_name (1 ∷ b'a' ∷ 0 ∷ []) 0 8 ≡ some (b'a' ∷ [])
unfolding dns_parse_name
dns_parse_name_bound_read = refl

dns_parse_name-bound_example : length {A = ℕ} (b'a' ∷ []) < 8
dns_parse_name-bound_example =
    dns_parse_name-bound (1 ∷ b'a' ∷ 0 ∷ []) 0 8 (b'a' ∷ []) dns_parse_name_bound_read

abbrev frame : Frame
frame = record {
  destination = replicate 6 255;
  source = 2 ∷ 0 ∷ 0 ∷ 0 ∷ 0 ∷ 1 ∷ [];
  ether_type = 2048;
  payload = 1 ∷ 2 ∷ 3 ∷ [];
}

frame-IsFrame : IsFrame frame
frame-IsFrame = record {
  destination_length = refl;
  source_length = refl;
  type_fits = omega arith;
  payload_fits = omega arith;
}

parse-build_example :
    (bytes : List ℕ) × (frame_build 64 frame ≡ Ethernet.built bytes)
    × (min_frame_size ≤ length bytes)
    × (length bytes ≤ max_frame_size)
    × (length bytes ≤ 64)
    × (frame_parse bytes ≡ (Ethernet.ok, some (padded frame)))
parse-build_example = parse-build frame frame-IsFrame 64 (omega arith) (omega arith)

abbrev unlinked : Link
unlinked = record {
  network_enabled = false;
  ethernet_available = false;
  wifi_supported = false;
  wifi_connected = false;
  wifi_ssid = [];
  net = start;
}

unlinked-IsValid : Reachable.IsValid unlinked
unlinked-IsValid = record { unjoined = λ off. refl; joined = λ on. cc }

-- The network comes up without a card, WiFi is supported, and "a" is joined.
abbrev joined : Link
joined = record {
  network_enabled = true;
  ethernet_available = false;
  wifi_supported = true;
  wifi_connected = true;
  wifi_ssid = b'a' ∷ [];
  net = start;
}

joined-Steps : Steps unlinked joined
unfolding enable_network set_wifi_capability connect_wifi
joined-Steps =
    next _ _ (next _ _ (next _ _ stop (Step.enable none)) (Step.set_wifi true))
      (Step.connect (b'a' ∷ []))

Steps-IsValid_example : Reachable.IsValid joined
Steps-IsValid_example = Steps-IsValid unlinked joined joined-Steps unlinked-IsValid
