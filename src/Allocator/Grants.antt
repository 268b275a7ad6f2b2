-- ===== src/Allocator/Grants.antt =====
-- What GetUnreservedIP grants, and what holds of all grants that are not yet released.
use nifcloud_nas_csi_driver.Base.{
  ◌+◌, ◌<◌, ◌≡◌, refl, true, false, Option, none, some, List, ◌++◌, arith,
}
use nifcloud_nas_csi_driver.Base.Text.{Str}
use nifcloud_nas_csi_driver.Base.Outcome.{Error, ok, err}
use nifcloud_nas_csi_driver.Net.Ip.{Ip, IsIp, value}
use nifcloud_nas_csi_driver.Net.Notation.{Cidr, IsCidr, ip_text, parse_cidr, parse_cidr-IsCidr}
use nifcloud_nas_csi_driver.Net.Mask.{IsNet, mask_ip, contains, size, base}
use nifcloud_nas_csi_driver.Net.Mask.Bytes.{mask_ip-IsIp}
use nifcloud_nas_csi_driver.Net.Mask.Rounds.{value-mask_ip}
use nifcloud_nas_csi_driver.Net.Mask.Range.{contains_iff}
use nifcloud_nas_csi_driver.Allocator.{
  IpAllocator, used, search, net_of, get_unreserved_ip, hold_ip, in_block, granted,
}
use nifcloud_nas_csi_driver.Allocator.Search.{
  IsReserved, used-IsReserved, Searched, found, full, search-Searched,
}

-- The search starts at the first address of the block, with enough rounds.
search_block :
    (c : Cidr) (reserved : List Str)
    → IsCidr c
    → Searched
        (net_of c)
        reserved
        (mask_ip c.ip c.ones)
        (search (size (net_of c) + 1) (net_of c) reserved (mask_ip c.ip c.ones))
search_block c reserved h =
    search-Searched (net_of c) reserved net (size (net_of c) + 1) (mask_ip c.ip c.ones)
      (mask_ip-IsIp c.ip c.ones h.address) (omega (arith, start)) (omega (arith, start))
  where
    net : IsNet (net_of c)
    net = record { address = h.address; bits = h.bits }

    start : value (mask_ip c.ip c.ones) ≡ base (net_of c)
    start = value-mask_ip c.ip h.address c.ones h.bits

-- The address that a grant is for.
pub record IsGrant (c : Cidr) (reserved : List Str) (s : Str) : Type 0 where
  pub ip : Ip
  pub address : IsIp ip
  pub named : s ≡ ip_text ip
  pub inside : contains (net_of c) ip ≡ true
  pub free : used reserved ip ≡ false
  pub first :
      (q : Ip) → IsIp q → contains (net_of c) q ≡ true → value q < value ip → used reserved q ≡ true

granted-IsGrant :
    (a : IpAllocator) (c : Cidr) (reserved : List Str) (o : Option Ip) {s : Str} {b : IpAllocator}
    → IsCidr c
    → Searched (net_of c) reserved (mask_ip c.ip c.ones) o
    → granted a o ≡ (ok s, b)
    → IsGrant c reserved s × (b ≡ hold_ip a s)
granted-IsGrant a c reserved o hc (found r f) e = (
  record {
    ip = r;
    address = f.address;
    named = cc;
    inside = f.inside;
    free = f.free;
    first =
        λ q hq k l. f.first q hq (omega (arith, ((contains_iff (net_of c) q net hq).0 k), start)) l;
  },
  cc,
)
  where
    net : IsNet (net_of c)
    net = record { address = hc.address; bits = hc.bits }

    start : value (mask_ip c.ip c.ones) ≡ base (net_of c)
    start = value-mask_ip c.ip hc.address c.ones hc.bits
granted-IsGrant a c reserved o hc (full all) e = cc

in_block-IsGrant :
    (a : IpAllocator) (cidr : Str) (cloud_ips : List Str) (o : Option Cidr) {s : Str}
    {b : IpAllocator}
    → parse_cidr cidr ≡ o
    → in_block a cloud_ips o ≡ (ok s, b)
    → (c : Cidr) × (parse_cidr cidr ≡ some c)
      × IsGrant c (cloud_ips ++ a.pending_ips) s
      × (b ≡ hold_ip a s)
in_block-IsGrant a cidr cloud_ips none p e = cc
in_block-IsGrant a cidr cloud_ips (some c) p e =
    let hc : IsCidr c = parse_cidr-IsCidr cidr c p in
    let g = granted-IsGrant a c (cloud_ips ++ a.pending_ips) _ hc (search_block c _ hc) e in
    (c, p, g.0, g.1)

-- If an address is returned, it is the text of an address of the parsed block that no reserved
-- address of the cloud and no pending address equals, every lower address of the block is reserved,
-- and the allocator holds it and changes in nothing else.
pub get_unreserved_ip-IsGrant :
    (a : IpAllocator) (cidr : Str) (cloud_ips : List Str) (s : Str) (b : IpAllocator)
    → get_unreserved_ip a cidr cloud_ips ≡ (ok s, b)
    → (c : Cidr) × (parse_cidr cidr ≡ some c)
      × IsGrant c (cloud_ips ++ a.pending_ips) s
      × (b ≡ hold_ip a s)
unfolding get_unreserved_ip
get_unreserved_ip-IsGrant a cidr cloud_ips s b e =
    in_block-IsGrant a cidr cloud_ips (parse_cidr cidr) refl e

IsReserved-all :
    (a : IpAllocator) (c : Cidr) (reserved : List Str) (o : Option Ip) {x : Error} {b : IpAllocator}
    (q : Ip)
    → IsCidr c
    → Searched (net_of c) reserved (mask_ip c.ip c.ones) o
    → granted a o ≡ (err x, b)
    → IsIp q
    → contains (net_of c) q ≡ true
    → IsReserved reserved q
IsReserved-all a c reserved o q hc (found r f) e hq k = cc
IsReserved-all a c reserved o q hc (full all) e hq k = used-IsReserved reserved q hq (
    all q hq k (
      omega (
        arith,
        (contains_iff (net_of c) q (record { address = hc.address; bits = hc.bits }) hq).0 k,
        value-mask_ip c.ip hc.address c.ones hc.bits,
      )))

-- If the block parses and no address is returned, then every address of the block is reserved: it
-- equals the address of an entry of the cloud's list or of the pending ones.
pub get_unreserved_ip_full :
    (a : IpAllocator) (cidr : Str) (cloud_ips : List Str) (c : Cidr) (x : Error) (b : IpAllocator)
    (q : Ip)
    → parse_cidr cidr ≡ some c
    → get_unreserved_ip a cidr cloud_ips ≡ (err x, b)
    → IsIp q
    → contains (net_of c) q ≡ true
    → IsReserved (cloud_ips ++ a.pending_ips) q
unfolding get_unreserved_ip
get_unreserved_ip_full a cidr cloud_ips c x b q p e hq k =
    let hc : IsCidr c = parse_cidr-IsCidr cidr c p in
    IsReserved-all a c (cloud_ips ++ a.pending_ips) _ q hc (search_block c _ hc) (rw p at e) hq k
