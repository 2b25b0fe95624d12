-- ===== src/Net/Stack.antt =====
-- src/net/config/network_stack.c and include/net/stack.h: the interfaces, the sockets and the
-- firewall. The pointers that callers give are never null.
pub mod Firewall
pub mod Sockets
use project_orange_tea.Base.{
  ℕ, zero, suc, ◌+◌, ◌-◌, ◌/◌, ◌%◌, Bool, true, false, ◌&&◌, ◌||◌, not, Option, none, some, List,
  [], ◌∷◌, ◌++◌, replicate, ltb, leb, ◌==◌, if◌then◌else◌, get_or, set, first_where, take,
}

pub data NetStatus : Type 0 where
  ok inval no_interface no_memory invalid_checksum : NetStatus

abbrev pub max_interfaces : ℕ
max_interfaces = 8

abbrev pub max_firewall_rules : ℕ
max_firewall_rules = 16

abbrev pub max_sockets : ℕ
max_sockets = 32

-- `ortos_net_interface_t`; `name` is the string in its array
pub record Interface : Type 0 where
  pub address : List ℕ
  pub mtu : ℕ
  pub up : Bool
  pub type : ℕ
  pub ipv4 : List ℕ
  pub ipv4_netmask : List ℕ
  pub ipv4_gateway : List ℕ
  pub name : List ℕ

abbrev pub blank_interface : Interface
blank_interface = record {
  address = replicate 6 0;
  mtu = 0;
  up = false;
  type = 0;
  ipv4 = replicate 4 0;
  ipv4_netmask = replicate 4 0;
  ipv4_gateway = replicate 4 0;
  name = [];
}

-- `ortos_net_firewall_rule_t`
pub record Rule : Type 0 where
  pub source_ip : ℕ
  pub destination_ip : ℕ
  pub protocol : ℕ
  pub source_port : ℕ
  pub destination_port : ℕ
  pub inbound : ℕ
  pub allow : ℕ

abbrev pub blank_rule : Rule
blank_rule = record {
  source_ip = 0;
  destination_ip = 0;
  protocol = 0;
  source_port = 0;
  destination_port = 0;
  inbound = 0;
  allow = 0;
}

-- the three arrays of the socket table, slot by slot
pub record Socket : Type 0 where
  pub in_use : Bool
  pub protocol : ℕ
  pub port : ℕ

abbrev pub blank_socket : Socket
blank_socket = record { in_use = false; protocol = 0; port = 0 }

-- the statics
pub record Net : Type 0 where
  pub interfaces : List Interface
  pub interface_count : ℕ
  pub sockets : List Socket
  pub firewall_rules : List Rule
  pub firewall_rule_count : ℕ
  pub firewall_default_policy : ℕ

pub init : Net
init = record {
  interfaces = replicate 8 blank_interface;
  interface_count = 0;
  sockets = replicate 32 blank_socket;
  firewall_rules = replicate 16 blank_rule;
  firewall_rule_count = 0;
  firewall_default_policy = 1;
}

abbrev pub socket_at : Net → ℕ → Socket
socket_at n i = get_or n.sockets i blank_socket

abbrev pub rule_at : Net → ℕ → Rule
rule_at n i = get_or n.firewall_rules i blank_rule

-- `ortos_format_interface_name` for an index below 10, which is all that eight interfaces need, and
-- an array of 16
abbrev pub format_interface_name : ℕ → List ℕ
format_interface_name index = b'e' ∷ b't' ∷ b'h' ∷ (b'0' + index) ∷ []

abbrev pub named : Interface → ℕ → Interface
named interface index = elim interface.name [
  | [] ↦ record interface { name = format_interface_name index }
  | _ ∷ _ ↦ interface
]

pub register_interface : Net → Interface → NetStatus × Net
register_interface n interface = if leb max_interfaces n.interface_count then (no_memory, n) else (
  ok,
  record n {
    interfaces = set n.interfaces n.interface_count (named interface n.interface_count);
    interface_count = n.interface_count + 1;
  },
)

-- `ortos_net_send_ipv4` and `ortos_net_send_ipv6`: nothing is sent yet, the tests stand. `payload`
-- says whether there is one.
pub send_ip : Net → Bool → ℕ → NetStatus
send_ip n payload length =
    if not payload && not (length == 0)
    then inval
    else if n.interface_count == 0
    then no_interface
    else if ltb 65535 length
    then inval
    else ok

-- RAW, ICMP, TCP, UDP, ESP
abbrev pub is_protocol : ℕ → Bool
is_protocol p = p == 0 || p == 1 || p == 6 || p == 17 || p == 50

abbrev pub is_free : Net → ℕ → Bool
is_free n slot = not (socket_at n slot).in_use

abbrev pub put_socket : Net → ℕ → Socket → Net
put_socket n slot socket = record n { sockets = set n.sockets slot socket }

abbrev pub open_slot : Net → ℕ → Option ℕ → (NetStatus × ℕ) × Net
open_slot n protocol none = ((no_memory, 0), n)
open_slot n protocol (some slot) =
    ((ok, slot), put_socket n slot (record { in_use = true; protocol = protocol; port = 0 }))

-- The number is the descriptor, where the status is `ok`.
unfoldable pub socket_open : Net → ℕ → (NetStatus × ℕ) × Net
socket_open n protocol =
    if is_protocol protocol
    then open_slot n protocol (first_where (is_free n) max_sockets 0)
    else ((inval, 0), n)

-- A descriptor below 0 is not given: it is refused as one past the table is.
abbrev pub is_open : Net → ℕ → Bool
is_open n socket = ltb socket max_sockets && (socket_at n socket).in_use

unfoldable pub socket_bind : Net → ℕ → ℕ → NetStatus × Net
socket_bind n socket port =
    if is_open n socket
    then (ok, put_socket n socket (record (socket_at n socket) { port = port }))
    else (inval, n)

unfoldable pub socket_close : Net → ℕ → NetStatus × Net
socket_close n socket =
    if is_open n socket then (ok, put_socket n socket blank_socket) else (inval, n)

pub firewall_set_default_policy : Net → ℕ → Net
firewall_set_default_policy n allow = record n {
  firewall_default_policy = if allow == 0 then 0 else 1;
}

unfoldable pub firewall_add_rule : Net → Rule → NetStatus × Net
firewall_add_rule n rule =
    if leb max_firewall_rules n.firewall_rule_count then (no_memory, n) else (
      ok,
      record n {
        firewall_rules = set n.firewall_rules n.firewall_rule_count rule;
        firewall_rule_count = n.firewall_rule_count + 1;
      },
    )

-- the three tests of the loop that `continue`; a port of 0 in a rule stands for every port
abbrev pub applies : Rule → ℕ → ℕ → ℕ → Bool
applies rule source_port destination_port inbound =
    rule.inbound == inbound
    && (rule.source_port == 0 || rule.source_port == source_port)
    && (rule.destination_port == 0 || rule.destination_port == destination_port)

abbrev pub verdict : Rule → ℕ
verdict rule = if rule.allow == 0 then 0 else 1

unfoldable pub firewall_from : Net → ℕ → ℕ → ℕ → ℕ → ℕ → ℕ
firewall_from n source_port destination_port inbound zero index = n.firewall_default_policy
firewall_from n source_port destination_port inbound (suc rounds) index =
    let rest = firewall_from n source_port destination_port inbound rounds (index + 1) in
    if applies (rule_at n index) source_port destination_port inbound
    then verdict (rule_at n index)
    else rest

unfoldable pub firewall_allows : Net → ℕ → ℕ → ℕ → ℕ
unfolding firewall_from
firewall_allows n source_port destination_port inbound =
    firewall_from n source_port destination_port inbound n.firewall_rule_count 0
