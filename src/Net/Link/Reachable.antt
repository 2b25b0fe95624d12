-- ===== src/Net/Link/Reachable.antt =====
-- src/drivers/ethernet/network.c: what every sequence of calls keeps true of the links.
use project_orange_tea.Base.{
  ℕ, ◌<◌, ◌≡◌, refl, Bool, true, false, ◌||◌, not, Option, none, some, List, [], leb, ◌==◌,
  if◌then◌else◌, length, arith, Bool-cases, inl, inr,
}
use project_orange_tea.Net.Link.{
  Link, Card, LinkStatus, ok, ssid_size, without_wifi, enable_network, set_ethernet_enabled,
  set_wifi_capability, connect_wifi, disconnect_wifi, is_wifi_connected, get_wifi_ssid,
}

-- One call that changes the statics, with whatever it answers.
pub data Step (l : Link) : Link → Type 0 where
  enable : (card : Option Card) → Step l (enable_network l card)
  set_ethernet : (on : Bool) → Step l (set_ethernet_enabled l on).1
  set_wifi : (supported : Bool) → Step l (set_wifi_capability l supported).1
  connect : (ssid : List ℕ) → Step l (connect_wifi l ssid).1
  disconnect : Step l (disconnect_wifi l)

-- any number of calls, one after the other
pub data Steps (l : Link) : Link → Type 0 where
  stop : Steps l l
  next : (m n : Link) → Steps l m → Step m n → Steps l n

-- Without a network that was joined the name is empty; a joined one has a name that fits in its
-- array, on a link that is enabled and supported.
pub record IsValid (l : Link) : Type 0 where
  pub unjoined : l.wifi_connected ≡ false → l.wifi_ssid ≡ []
  pub joined :
      l.wifi_connected ≡ true
      → (l.network_enabled ≡ true)
        × (l.wifi_supported ≡ true)
        × (0 < length l.wifi_ssid)
        × (length l.wifi_ssid < ssid_size)

abbrev left_by : LinkStatus × Link → Link
left_by result = result.1

bare-IsValid : (l : Link) → l.wifi_connected ≡ false → l.wifi_ssid ≡ [] → IsValid l
bare-IsValid l off none_left = record { unjoined = λ _. none_left; joined = λ on. cc }

Step-IsValid : (l m : Link) → Step l m → IsValid l → IsValid m
unfolding enable_network set_ethernet_enabled set_wifi_capability connect_wifi disconnect_wifi
Step-IsValid l _ (enable none) v = bare-IsValid _ refl refl
Step-IsValid l _ (enable (some card)) v = bare-IsValid _ refl refl
Step-IsValid l _ (set_ethernet on) v = by_enabled l.network_enabled
  where
    by_enabled :
        (b : Bool)
        → IsValid (
            left_by
              (if not b then (LinkStatus.inval, l) else (ok, record l { ethernet_available = on })))
    by_enabled true = record { unjoined = v.unjoined; joined = v.joined }
    by_enabled false = v
Step-IsValid l _ (set_wifi supported) v = by_tests l.network_enabled supported
  where
    by_tests :
        (b c : Bool)
        → IsValid (
            left_by (
              if not b
              then (LinkStatus.inval, l)
              else if c
              then (ok, record l { wifi_supported = true })
              else (ok, without_wifi (record l { wifi_supported = false }))))
    by_tests false c = v
    by_tests true true = record {
      unjoined = v.unjoined;
      joined = λ on. let (e, s, some_text, short) = v.joined on in (e, refl, some_text, short);
    }
    by_tests true false = bare-IsValid _ refl refl
Step-IsValid l _ (connect ssid) v =
    by_tests (not l.network_enabled || length ssid == 0) (not l.wifi_supported)
      (leb ssid_size (length ssid)) refl refl refl
  where
    by_tests :
        (a b c : Bool)
        → (not l.network_enabled || length ssid == 0) ≡ a
        → not l.wifi_supported ≡ b
        → leb ssid_size (length ssid) ≡ c
        → IsValid (
            left_by (
              if a
              then (LinkStatus.inval, l)
              else if b
              then (LinkStatus.not_supported, l)
              else if c
              then (LinkStatus.inval, l)
              else (ok, record l { wifi_ssid = ssid; wifi_connected = true })))
    by_tests true b c ea eb ec = v
    by_tests false true c ea eb ec = v
    by_tests false false true ea eb ec = v
    by_tests false false false ea eb ec = record {
      unjoined = λ off. cc;
      joined = λ on. (ground arith, ground arith, ground arith, ground arith);
    }
Step-IsValid l _ disconnect v = bare-IsValid _ refl refl

-- From links without a joined network, every sequence of calls leads to links that are valid: a
-- network is joined only while the link is enabled and WiFi supported, its name is not empty and
-- fits in its array with a NUL, and no name is kept of a network that was left.
pub Steps-IsValid : (l m : Link) → Steps l m → IsValid l → IsValid m
Steps-IsValid l _ stop v = v
Steps-IsValid l _ (next m n before last) v = Step-IsValid m n last (Steps-IsValid l m before v)

-- With valid links, `network_get_wifi_ssid` gives a name exactly where `network_is_wifi_connected`
-- says that a network is joined.
pub get_wifi_ssid-is_wifi_connected :
    (l : Link) → IsValid l → is_wifi_connected l ≡ not (length (get_wifi_ssid l) == 0)
unfolding get_wifi_ssid is_wifi_connected
get_wifi_ssid-is_wifi_connected l v = elim (Bool-cases l.wifi_connected) [
  | inl on ↦ let (e, s, text, short) = v.joined on in rw (on, e, s) (ground (arith, text))
  | inr off ↦ rw off (ground arith)
]
