-- ===== src/Net/Link.antt =====
-- src/drivers/ethernet/network.c: which links the kernel has, and the WiFi network that it joined.
-- What initialising the card gives is an argument of `enable_network`.
pub mod Reachable
use project_orange_tea.Base.{
  ℕ, ◌+◌, Bool, true, false, ◌&&◌, ◌||◌, not, Option, none, some, List, [], ◌∷◌, replicate, ltb,
  leb, ◌==◌, if◌then◌else◌, length, get_or,
}
use project_orange_tea.Net.Stack.{Net, Interface, blank_interface, register_interface}

pub data LinkStatus : Type 0 where
  ok inval not_connected not_supported : LinkStatus

-- what `rtl8139_init` fills in of the device
pub record Card : Type 0 where
  pub address : List ℕ
  pub mtu : ℕ
  pub link_up : Bool

-- the statics, with those of the network stack; `wifi_ssid` is the string in its array
pub record Link : Type 0 where
  pub network_enabled : Bool
  pub ethernet_available : Bool
  pub wifi_supported : Bool
  pub wifi_connected : Bool
  pub wifi_ssid : List ℕ
  pub net : Net

abbrev pub ssid_size : ℕ
ssid_size = 32

abbrev pub eth0 : Card → Interface
eth0 card = record blank_interface {
  address = card.address;
  mtu = card.mtu;
  up = card.link_up;
  type = 1;
  name = b'e' ∷ b't' ∷ b'h' ∷ b'0' ∷ [];
}

abbrev pub enabled : Link → Bool → Link
enabled l available = record l {
  network_enabled = true;
  ethernet_available = available;
  wifi_supported = false;
  wifi_connected = false;
  wifi_ssid = [];
}

-- The card is registered once more at every call.
unfoldable pub enable_network : Link → Option Card → Link
enable_network l none = enabled l false
enable_network l (some card) =
    let (_, net) = register_interface l.net (eth0 card) in record (enabled l true) { net = net }

unfoldable pub has_ethernet : Link → Bool
has_ethernet l = l.network_enabled && l.ethernet_available

unfoldable pub is_wifi_connected : Link → Bool
is_wifi_connected l = l.network_enabled && l.wifi_supported && l.wifi_connected

unfoldable pub get_wifi_ssid : Link → List ℕ
get_wifi_ssid l = if l.wifi_connected then l.wifi_ssid else []

unfoldable pub set_ethernet_enabled : Link → Bool → LinkStatus × Link
set_ethernet_enabled l on =
    if not l.network_enabled then (inval, l) else (ok, record l { ethernet_available = on })

abbrev pub without_wifi : Link → Link
without_wifi l = record l { wifi_connected = false; wifi_ssid = [] }

unfoldable pub set_wifi_capability : Link → Bool → LinkStatus × Link
set_wifi_capability l supported =
    if not l.network_enabled
    then (inval, l)
    else if supported
    then (ok, record l { wifi_supported = true })
    else (ok, without_wifi (record l { wifi_supported = false }))

-- what goes through the two pointers
pub get_link_status : Link → Bool × Bool
unfolding has_ethernet is_wifi_connected
get_link_status l = (has_ethernet l, is_wifi_connected l)

-- A null pointer is refused as the empty name is.
unfoldable pub connect_wifi : Link → List ℕ → LinkStatus × Link
connect_wifi l ssid =
    if not l.network_enabled || length ssid == 0
    then (inval, l)
    else if not l.wifi_supported
    then (not_supported, l)
    else if leb ssid_size (length ssid)
    then (inval, l)
    else (ok, record l { wifi_ssid = ssid; wifi_connected = true })

unfoldable pub disconnect_wifi : Link → Link
disconnect_wifi l = without_wifi l

-- Nothing is sent yet: with every test passed, the answer is still that it is not supported.
unfoldable pub ping : Link → List ℕ → Bool → LinkStatus
ping l host use_wifi =
    if not l.network_enabled || length host == 0
    then inval
    else if use_wifi && l.wifi_supported && not l.wifi_connected
    then not_connected
    else not_supported
