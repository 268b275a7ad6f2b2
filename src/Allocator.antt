-- ===== src/Allocator.antt =====
-- The IP allocator of pkg/driver/utils.go: IPAllocator and its methods. A Go set map[string]bool is
-- the list of its keys.
use nifcloud_nas_csi_driver.Base.{
  ℕ, zero, suc, ◌+◌, ◌-◌, ◌*◌, ◌/◌, ◌%◌, ◌^◌, ◌≤◌, ◌<◌, ◌≡◌, refl, sym, ap, ap₂, ◌∙◌, subst, ◌≢◌,
  ◌↔◌, ◌⊎◌, inl, inr, Bool, true, false, not, ◌&&◌, ◌||◌, Option, none, some, List, [], ◌∷◌, ◌++◌,
  map, append-nil, append_assoc, arith, ltb, leb, ◌==◌, if◌then◌else◌, ==_iff, Bool-cases,
  Option-cases, length, take, drop, get_elem?, All, In, bit_and,
}
use nifcloud_nas_csi_driver.Base.Keys.{
  add_key, delete_key, Distinct, In-add_key_self, In-add_key, In-delete_key, delete_key-In,
  delete_key-Distinct,
}
use nifcloud_nas_csi_driver.Base.Text.{
  Str, codes, str_eq, str_eq_iff, str_eq_refl, mem?, mem?-In, In-mem?, split, cut, Lacks,
  split-lacking, split-append, cut-append, atoi, byte_text, contains as str_contains, has_prefix,
  digits_from,
}
use nifcloud_nas_csi_driver.Base.Outcome.{
  Code, Error, Outcome, ok, err, plain, status, cloud, not_exist, object_exists, invalid_argument,
  not_found, already_exists, aborted, internal, unimplemented, ◌>>=◌, ◌>>◌,
}
use nifcloud_nas_csi_driver.Net.Ip.{
  Ip, IsIp, value, value_bound, value-injective, ip_eq, ip_eq_iff, increment_ip, inc_ip,
  inc_ip-IsIp, value-inc_ip, IsIncrement, next, past, increment_ip-IsIncrement, add8, sub8,
}
use nifcloud_nas_csi_driver.Net.Notation.{
  Cidr, IsCidr, parse_ip, parse_ip-IsIp, ip_text, parse_ip-ip_text, parse_cidr, parse_cidr-IsCidr,
}
use nifcloud_nas_csi_driver.Net.Mask.{
  IpNet, IsNet, mask_byte, mask_ip, start_ip, end_ip, contains, size, base,
}
use nifcloud_nas_csi_driver.Net.Mask.Bytes.{mask_ip-IsIp}
use nifcloud_nas_csi_driver.Net.Mask.Rounds.{value-mask_ip}
use nifcloud_nas_csi_driver.Net.Mask.Range.{contains_iff, end_ip-IsIp, value-end_ip, pow_pos}
pub mod Search
pub mod Grants
pub mod Leases

pub record IpAllocator : Type 0 where
  pub pending_ips : List Str

-- newIPAllocator copies the keys.
unfoldable pub new_ip_allocator : List Str → IpAllocator
new_ip_allocator pending = record { pending_ips = pending }

unfoldable pub hold_ip : IpAllocator → Str → IpAllocator
unfolding add_key
hold_ip a ip = record { pending_ips = add_key ip a.pending_ips }

unfoldable pub release_ip : IpAllocator → Str → IpAllocator
unfolding delete_key
release_ip a ip = record { pending_ips = delete_key ip a.pending_ips }

-- targetIP.Equal(net.ParseIP(reservedIP)); a text that does not parse equals no address.
abbrev pub equals_parsed : Ip → Option Ip → Bool
equals_parsed ip none = false
equals_parsed ip (some r) = ip_eq ip r

-- The inner loop, over the keys of reservedIPs.
unfoldable pub used : List Str → Ip → Bool
used [] ip = false
used (r ∷ rs) ip = equals_parsed ip (parse_ip r) || used rs ip

abbrev pub proceed : Outcome Ip → (Ip → Option Ip) → Option Ip
proceed (ok r) rest = rest r
proceed (err e) rest = none

-- The outer loop. After a failed increment the target is nil, which no network contains.
unfoldable pub search : ℕ → IpNet → List Str → Ip → Option Ip
search zero net reserved ip = none
search (suc fuel) net reserved ip =
    if contains net ip
    then (if used reserved ip
        then proceed (increment_ip ip 1) (search fuel net reserved)
        else some ip)
    else none

abbrev pub net_of : Cidr → IpNet
net_of c = record { ip = c.ip; ones = c.ones }

-- GetUnreservedIP: the reserved addresses are those of the cloud and the pending ones. There are
-- `size` addresses in the block, so that many rounds and one are enough.
abbrev pub granted : IpAllocator → Option Ip → Outcome Str × IpAllocator
granted a none = (err plain, a)
granted a (some ip) = (ok (ip_text ip), hold_ip a (ip_text ip))

abbrev pub in_block : IpAllocator → List Str → Option Cidr → Outcome Str × IpAllocator
in_block a cloud_ips none = (err plain, a)
in_block a cloud_ips (some c) =
    granted a
      (search (size (net_of c) + 1) (net_of c) (cloud_ips ++ a.pending_ips) (mask_ip c.ip c.ones))

unfoldable pub get_unreserved_ip : IpAllocator → Str → List Str → Outcome Str × IpAllocator
get_unreserved_ip a cidr cloud_ips = in_block a cloud_ips (parse_cidr cidr)
