-- ===== src/Examples/Addresses.antt =====
-- Addresses, networks and the allocator of pkg/driver/utils.go at concrete inputs.
use nifcloud_nas_csi_driver.Base.{◌+◌, ◌≤◌, ◌<◌, ◌≡◌, refl, ◌↔◌, true, some, [], ◌∷◌, arith}
use nifcloud_nas_csi_driver.Base.Text.{Str, codes, split, cut, atoi, byte_text}
use nifcloud_nas_csi_driver.Base.Outcome.{ok, err, plain}
use nifcloud_nas_csi_driver.Net.Ip.{
  Ip, IsIp, value, IsIncrement, increment_ip, increment_ip-IsIncrement, inc_ip, value-inc_ip,
}
use nifcloud_nas_csi_driver.Net.Notation.{Cidr, parse_ip, ip_text, parse_cidr, parse_ip-ip_text}
use nifcloud_nas_csi_driver.Net.Mask.{IpNet, IsNet, contains, base, size, mask_ip}
use nifcloud_nas_csi_driver.Net.Mask.Range.{contains_iff}
use nifcloud_nas_csi_driver.Allocator.{
  IpAllocator, net_of, new_ip_allocator, hold_ip, get_unreserved_ip, search, used,
}
use nifcloud_nas_csi_driver.Allocator.Grants.{IsGrant, get_unreserved_ip-IsGrant}
use nifcloud_nas_csi_driver.Allocator.Leases.{Inv, initial, grant, start, later, leases_distinct}

abbrev ip_a : Ip
ip_a = record { b0 = 192; b1 = 168; b2 = 1; b3 = 255 }

ip_a-IsIp : IsIp ip_a
ip_a-IsIp = record {
  byte0 = omega arith;
  byte1 = omega arith;
  byte2 = omega arith;
  byte3 = omega arith;
}

text_example : parse_ip (ip_text ip_a) ≡ some ip_a
text_example = parse_ip-ip_text ip_a ip_a-IsIp

abbrev net_a : IpNet
net_a = record { ip = record { b0 = 192; b1 = 168; b2 = 1; b3 = 252 }; ones = 30 }

net_a-IsNet : IsNet net_a
net_a-IsNet = record {
  address = record {
    byte0 = omega arith;
    byte1 = omega arith;
    byte2 = omega arith;
    byte3 = omega arith;
  };
  bits = omega arith;
}

contains_example :
    (contains net_a ip_a ≡ true)
    ↔ ((base net_a ≤ value ip_a) × (value ip_a < base net_a + size net_a))
contains_example = contains_iff net_a ip_a net_a-IsNet ip_a-IsIp

-- A block of four addresses of which the cloud has the first.
abbrev fresh : IpAllocator
fresh = new_ip_allocator []

abbrev block : Str
block = codes "192.168.1.252/30"

abbrev first : Str
first = codes "192.168.1.252"

abbrev second : Str
second = codes "192.168.1.253"

granted : get_unreserved_ip fresh block (first ∷ []) ≡ (ok second, hold_ip fresh second)
unfolding get_unreserved_ip parse_cidr cut parse_ip split atoi search contains
    nifcloud_nas_csi_driver.Net.Ip.ip_eq mask_ip used increment_ip new_ip_allocator ip_text
    byte_text
granted = refl

grant_example :
    (c : Cidr) × (parse_cidr block ≡ some c)
    × IsGrant c (first ∷ []) second
    × (hold_ip fresh second ≡ hold_ip fresh second)
unfolding new_ip_allocator
grant_example =
    get_unreserved_ip-IsGrant fresh block (first ∷ []) second (hold_ip fresh second) granted

abbrev one : Cidr
one = record { ip = record { b0 = 192; b1 = 168; b2 = 1; b3 = 252 }; ones = 32 }

one_parses : parse_cidr (codes "192.168.1.252/32") ≡ some one
unfolding parse_cidr cut parse_ip split atoi
one_parses = refl

one_full : get_unreserved_ip fresh (codes "192.168.1.252/32") (first ∷ []) ≡ (err plain, fresh)
unfolding get_unreserved_ip parse_cidr cut parse_ip split atoi search contains
    nifcloud_nas_csi_driver.Net.Ip.ip_eq mask_ip used increment_ip
one_full = refl

one_inside : contains (net_of one) (record { b0 = 192; b1 = 168; b2 = 1; b3 = 252 }) ≡ true
unfolding contains nifcloud_nas_csi_driver.Net.Ip.ip_eq mask_ip
one_inside = refl

leases_example : Inv (record { allocator = hold_ip fresh second; leases = second ∷ [] })
leases_example =
    leases_distinct
      (later start (grant initial block (first ∷ []) second (hold_ip fresh second) granted))
