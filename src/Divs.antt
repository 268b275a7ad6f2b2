-- ===== src/Divs.antt =====
-- Dividing a private LAN into CIDR blocks: divideNet, CidrDivs and the drops of
-- pkg/driver/configurator.go.
use nifcloud_nas_csi_driver.Base.{
  ℕ, zero, suc, ◌+◌, ◌-◌, ◌*◌, ◌/◌, ◌%◌, ◌^◌, ◌≤◌, ◌<◌, ◌≡◌, refl, sym, ap, ap₂, ◌∙◌, subst, ◌≢◌,
  ◌↔◌, ◌⊎◌, inl, inr, Bool, true, false, not, ◌&&◌, ◌||◌, Option, none, some, List, [], ◌∷◌, ◌++◌,
  map, append-nil, append_assoc, arith, ltb, leb, ◌==◌, if◌then◌else◌, ==_iff, Bool-cases,
  Option-cases, length, take, drop, get_elem?, All, In, In-append_left, In-append_right, bit_and,
}
use nifcloud_nas_csi_driver.Base.Keys.{
  add_key, delete_key, Distinct, In-add_key_self, In-add_key, In-delete_key, delete_key-In,
  delete_key-Distinct, add_key_new,
}
use nifcloud_nas_csi_driver.Base.Assoc.{find, put, remove, find-put, find-remove, map_laws}
use nifcloud_nas_csi_driver.Base.Text.{
  Str, codes, str_eq, str_eq_iff, str_eq_refl, mem?, mem?-In, In-mem?, split, cut, Lacks,
  split-lacking, split-append, cut-append, atoi, byte_text, contains as str_contains, has_prefix,
  digits_from,
}
use nifcloud_nas_csi_driver.Base.Outcome.{
  Code, Error, Outcome, Done, ok, err, plain, status, cloud, not_exist, object_exists,
  invalid_argument, not_found, already_exists, aborted, internal, unimplemented, ◌>>=◌, ◌>>◌,
}
use nifcloud_nas_csi_driver.Base.Int.{
  ℤ, pos, negsuc, pos_part, neg_part, sub_ℕ, two63, two64, ◌+ℤ◌, ◌-ℤ◌, ◌*ℤ◌, ◌≤ℤ◌, ◌<ℤ◌, ltb_ℤ,
  leb_ℤ, wrap, IsInt64, wrap_of_IsInt64, wrap-IsInt64,
}
use nifcloud_nas_csi_driver.Net.Ip.{
  Ip, IsIp, value, value_bound, value-injective, ip_eq, ip_eq_iff, increment_ip, inc_ip,
  inc_ip-IsIp, value-inc_ip, IsIncrement, next, past, increment_ip-IsIncrement, add8, sub8,
}
use nifcloud_nas_csi_driver.Net.Notation.{
  Cidr, IsCidr, parse_ip, parse_ip-IsIp, ip_text, parse_ip-ip_text, parse_cidr, parse_cidr-IsCidr,
}
use nifcloud_nas_csi_driver.Net.Mask.{
  IpNet, IsNet, mask_byte, mask_ip, start_ip, end_ip, contains, size, base,
}
use nifcloud_nas_csi_driver.Net.Mask.Bytes.{mask_ip-IsIp}
use nifcloud_nas_csi_driver.Net.Mask.Rounds.{value-mask_ip}
use nifcloud_nas_csi_driver.Net.Mask.Range.{contains_iff, end_ip-IsIp, value-end_ip, pow_pos}
pub mod Slices
pub mod Order
pub mod Tiles
pub mod Drops
pub mod Recommend

-- The loop of divideNet, over the rounds that are left.
unfoldable pub divs_from : ℕ → Ip → ℕ → List IpNet
divs_from zero start ones = []
divs_from (suc n) start ones =
    let div : IpNet = record { ip = start; ones = ones } in
    div ∷ divs_from n (inc_ip (end_ip div)) ones

abbrev divide_by : IpNet → ℕ → Outcome (List IpNet)
divide_by cidr k =
    if ltb (32 - cidr.ones) k
    then err plain
    else ok (divs_from (2 ^ k) (start_ip cidr) (cidr.ones + k))

unfoldable pub divide_net : IpNet → ℤ → Outcome (List IpNet)
unfolding divs_from
divide_net cidr (negsuc n) = err plain
divide_net cidr (pos zero) = err plain
divide_net cidr (pos (suc k)) = divide_by cidr (suc k)

-- CidrDivs keeps its network and its offset beside the blocks.
pub record CidrDivs : Type 0 where
  pub cidr : IpNet
  pub mask_offset : ℤ
  pub divs : List IpNet

unfoldable pub new_cidr_divs : IpNet → ℤ → Outcome CidrDivs
unfolding divide_net
new_cidr_divs cidr offset = do
  ds ← divide_net cidr offset
  ok (record { cidr = cidr; mask_offset = offset; divs = ds })

-- divs[1 : len(divs)-1]
unfoldable pub drop_head_and_tail : CidrDivs → Outcome CidrDivs
drop_head_and_tail d =
    if ltb (length d.divs) 3
    then err plain
    else ok (record d { divs = take (length d.divs - 2) (drop 1 d.divs) })

-- The index of the first block that has the address.
unfoldable pub index_from : ℕ → (IpNet → Bool) → List IpNet → Option ℕ
index_from i p [] = none
index_from i p (d ∷ ds) = let rest = index_from (i + 1) p ds in if p d then some i else rest

-- The three slices that leave out the block at an index.
unfoldable pub without_index : List IpNet → Option ℕ → List IpNet
without_index ds none = ds
without_index ds (some i) =
    if i == 0
    then drop 1 ds
    else if i == length ds - 1
    then take (length ds - 1) ds
    else take i ds ++ drop (i + 1) ds

abbrev drop_parsed : CidrDivs → Option Ip → Outcome CidrDivs
drop_parsed d none = err plain
drop_parsed d (some ip) =
    ok (record d { divs = without_index d.divs (index_from 0 (λ n. contains n ip) d.divs) })

unfoldable pub drop_with_ip : CidrDivs → Str → Outcome CidrDivs
unfolding index_from without_index
drop_with_ip d text = drop_parsed d (parse_ip text)

-- compareIP is 1 where the first address is the lower one: the loop over the bytes.
unfoldable pub compare_ip : Ip → Ip → ℤ
compare_ip a b =
    if ltb a.b0 b.b0
    then pos 1
    else if ltb b.b0 a.b0
    then negsuc 0
    else if ltb a.b1 b.b1
    then pos 1
    else if ltb b.b1 a.b1
    then negsuc 0
    else if ltb a.b2 b.b2
    then pos 1
    else if ltb b.b2 a.b2
    then negsuc 0
    else if ltb a.b3 b.b3
    then pos 1
    else if ltb b.b3 a.b3
    then negsuc 0
    else pos 0

unfoldable pub is_dev_in_range : Ip → Ip → IpNet → Bool
is_dev_in_range from to div =
    if contains div from || contains div to
    then true
    else ltb_ℤ (pos 0) (compare_ip from (start_ip div))
      && ltb_ℤ (pos 0) (compare_ip (end_ip div) to)

-- The loop of dropWithIPRange: the first and the last index in the range, once one was met.
abbrev extended : ℕ → Option (ℕ × ℕ) → Option (ℕ × ℕ)
extended i none = some (i, i)
extended i (some (f, t)) = some (f, i)

unfoldable pub range_loop : ℕ → (IpNet → Bool) → List IpNet → Option (ℕ × ℕ) → Option (ℕ × ℕ)
range_loop i p [] s = s
range_loop i p (d ∷ ds) s = range_loop (i + 1) p ds (if p d then extended i s else s)

unfoldable pub without_range : List IpNet → Option (ℕ × ℕ) → List IpNet
without_range ds none = ds
without_range ds (some (f, t)) =
    if f == 0
    then drop (t + 1) ds
    else if f == length ds - 1
    then take (length ds - 1) ds
    else take f ds ++ drop (t + 1) ds

abbrev drop_parsed_range : CidrDivs → Option Ip → Option Ip → Outcome CidrDivs
drop_parsed_range d (some from) (some to) =
    ok (record d {
      divs = without_range d.divs (range_loop 0 (is_dev_in_range from to) d.divs none);
    })
drop_parsed_range d _ _ = err plain

unfoldable pub drop_with_ip_range : CidrDivs → Str → Str → Outcome CidrDivs
unfolding range_loop without_range
drop_with_ip_range d from to = drop_parsed_range d (parse_ip from) (parse_ip to)
