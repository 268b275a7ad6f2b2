-- ===== src/Divs/Recommend.antt =====
-- The recommended CIDR block: the part of Configurator.configure in pkg/driver/configurator.go that
-- divides the private LAN and drops the blocks with addresses in use. What the cloud answers is given
-- as the results of the calls.
use nifcloud_nas_csi_driver.Base.{
  ℕ, zero, suc, ◌+◌, ◌-◌, ◌*◌, ◌/◌, ◌%◌, ◌^◌, ◌≤◌, ◌<◌, ◌≡◌, refl, sym, ap, ap₂, ◌∙◌, subst, ◌≢◌,
  ◌↔◌, ◌⊎◌, inl, inr, Bool, true, false, not, ◌&&◌, ◌||◌, Option, none, some, List, [], ◌∷◌, ◌++◌,
  map, append-nil, append_assoc, arith, ltb, leb, ◌==◌, if◌then◌else◌, ==_iff, Bool-cases,
  Option-cases, length, take, drop, get_elem?, All, In, In-append_left, In-append_right, bit_and,
}
use nifcloud_nas_csi_driver.Base.Keys.{
  add_key, delete_key, Distinct, In-add_key_self, In-add_key, In-delete_key, delete_key-In,
  delete_key-Distinct, add_key_new,
}
use nifcloud_nas_csi_driver.Base.Assoc.{find, put, remove, find-put, find-remove, map_laws}
use nifcloud_nas_csi_driver.Base.Text.{
  Str, codes, str_eq, str_eq_iff, str_eq_refl, mem?, mem?-In, In-mem?, split, cut, Lacks,
  split-lacking, split-append, cut-append, atoi, byte_text, contains as str_contains, has_prefix,
  digits_from,
}
use nifcloud_nas_csi_driver.Base.Outcome.{
  Code, Error, Outcome, Done, ok, err, plain, status, cloud, not_exist, object_exists,
  invalid_argument, not_found, already_exists, aborted, internal, unimplemented, ◌>>=◌, ◌>>◌,
}
use nifcloud_nas_csi_driver.Base.Int.{
  ℤ, pos, negsuc, pos_part, neg_part, sub_ℕ, two63, two64, ◌+ℤ◌, ◌-ℤ◌, ◌*ℤ◌, ◌≤ℤ◌, ◌<ℤ◌, ltb_ℤ,
  leb_ℤ, wrap, IsInt64, wrap_of_IsInt64, wrap-IsInt64,
}
use nifcloud_nas_csi_driver.Net.Ip.{
  Ip, IsIp, value, value_bound, value-injective, ip_eq, ip_eq_iff, increment_ip, inc_ip,
  inc_ip-IsIp, value-inc_ip, IsIncrement, next, past, increment_ip-IsIncrement, add8, sub8,
}
use nifcloud_nas_csi_driver.Net.Notation.{
  Cidr, IsCidr, parse_ip, parse_ip-IsIp, ip_text, parse_ip-ip_text, parse_cidr, parse_cidr-IsCidr,
}
use nifcloud_nas_csi_driver.Net.Mask.{
  IpNet, IsNet, mask_byte, mask_ip, start_ip, end_ip, contains, size, base,
}
use nifcloud_nas_csi_driver.Net.Mask.Bytes.{mask_ip-IsIp}
use nifcloud_nas_csi_driver.Net.Mask.Rounds.{value-mask_ip}
use nifcloud_nas_csi_driver.Net.Mask.Range.{contains_iff, end_ip-IsIp, value-end_ip, pow_pos}
pub mod Steps
pub mod Avoids
pub mod Choice
pub mod Offset
use nifcloud_nas_csi_driver.Divs.{
  CidrDivs, new_cidr_divs, drop_head_and_tail, drop_with_ip, drop_with_ip_range,
}

pub record Lan : Type 0 where
  pub cidr_block : Str
  pub routers : List Str

pub record RdbInstance : Type 0 where
  pub network_id : Str
  pub master_private_address : Str

pub record IpAddressPool : Type 0 where
  pub start_ip_address : Str
  pub stop_ip_address : Str

-- The loop `for ; bits-lanMask-offset < minmaskfordiv; offset--` from offset 4. It falls at most to
-- -5, so ten rounds are enough.
unfoldable pub offset_loop : ℕ → ℕ → ℤ → ℤ
offset_loop zero free offset = offset
offset_loop (suc rounds) free offset =
    offset_loop rounds free (if ltb_ℤ (pos free -ℤ offset) (pos 5) then offset -ℤ pos 1 else offset)

unfoldable pub choose_offset : ℕ → ℤ
unfolding offset_loop ◌-ℤ◌
choose_offset lan_mask = offset_loop 10 (32 - lan_mask) (pos 4)

-- The loops that drop the blocks with an address in use.
unfoldable pub drop_rdbs : Str → List RdbInstance → CidrDivs → Outcome CidrDivs
drop_rdbs network_id [] d = ok d
drop_rdbs network_id (db ∷ dbs) d = do
  e ← if str_eq db.network_id network_id then drop_with_ip d db.master_private_address else ok d
  drop_rdbs network_id dbs e

unfoldable pub drop_pools : List IpAddressPool → CidrDivs → Outcome CidrDivs
drop_pools [] d = ok d
drop_pools (pool ∷ pools) d = do
  e ← drop_with_ip_range d pool.start_ip_address pool.stop_ip_address
  drop_pools pools e

unfoldable pub drop_statics : List Str → CidrDivs → Outcome CidrDivs
drop_statics [] d = ok d
drop_statics (ip ∷ ips) d = do e ← drop_with_ip d ip; drop_statics ips e

-- The loop over the routers, which gathers the pools and the static addresses.
unfoldable pub gather :
    (Str → Outcome (List IpAddressPool × List Str))
    → List Str
    → List IpAddressPool
    → List Str
    → Outcome (List IpAddressPool × List Str)
gather dhcp [] pools ips = ok (pools, ips)
gather dhcp (r ∷ rs) pools ips = do
  found ← dhcp r
  gather dhcp rs (pools ++ found.0) (ips ++ found.1)

-- net.IPNet.String
unfoldable pub net_text : IpNet → Str
net_text n = ip_text n.ip ++ b'/' ∷ byte_text n.ones

abbrev pub text_or_empty : Option IpNet → Str
text_or_empty none = []
text_or_empty (some n) = net_text n

-- The middle block, or the empty text.
unfoldable pub choose : CidrDivs → Str
choose d = text_or_empty (get_elem? d.divs (length d.divs / 2))

abbrev pub or_err : Option Cidr → Outcome Cidr
or_err none = err plain
or_err (some c) = ok c

-- net.ParseCIDR gives the network with its address masked.
abbrev pub lan_net : Cidr → IpNet
lan_net c = record { ip = mask_ip c.ip c.ones; ones = c.ones }

unfoldable pub trim : ℤ → CidrDivs → Outcome CidrDivs
trim offset d = if leb_ℤ (pos 3) offset then drop_head_and_tail d else ok d

unfoldable pub recommend_cidr :
    Str
    → Outcome Lan
    → Outcome (List RdbInstance)
    → (Str → Outcome (List IpAddressPool × List Str))
    → Outcome Str
recommend_cidr network_id get_lan list_rdbs dhcp = do
  lan ← get_lan
  c ← or_err (parse_cidr lan.cidr_block)
  all ← new_cidr_divs (lan_net c) (choose_offset c.ones)
  inner ← trim (choose_offset c.ones) all
  dbs ← list_rdbs
  kept ← drop_rdbs network_id dbs inner
  found ← gather dhcp lan.routers [] []
  rest ← drop_pools found.0 kept
  left ← drop_statics found.1 rest
  ok (choose left)

-- The offset is four, or what leaves five bits to each block.
choose_offset_values :
    (choose_offset 16 ≡ pos 4)
    × (choose_offset 24 ≡ pos 3)
    × (choose_offset 27 ≡ pos 0)
    × (choose_offset 32 ≡ negsuc 4)
unfolding choose_offset
choose_offset_values = (refl, refl, refl, refl)
