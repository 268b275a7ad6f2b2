-- ===== src/Net/Mask.antt =====
-- Masks and networks: net.CIDRMask, net.IP.Mask and net.IPNet.Contains on IPv4, and the ends of a
-- network: startIP and endIP of pkg/driver/configurator.go. A mask is kept as its number of ones,
-- since the driver has its masks from net.ParseCIDR and net.CIDRMask alone.
pub mod Bytes
pub mod Rounds
pub mod Range
use nifcloud_nas_csi_driver.Base.{
  ℕ, zero, suc, ◌+◌, ◌-◌, ◌*◌, ◌/◌, ◌%◌, ◌^◌, ◌≤◌, ◌<◌, ◌≡◌, refl, sym, ap, ap₂, ◌∙◌, subst, ◌≢◌,
  ◌↔◌, ◌⊎◌, inl, inr, Bool, true, false, not, ◌&&◌, ◌||◌, Option, none, some, List, [], ◌∷◌, ◌++◌,
  map, append-nil, append_assoc, arith, ltb, leb, ◌==◌, if◌then◌else◌, ==_iff, Bool-cases,
  Option-cases, length, take, drop, get_elem?, All, In, bit_and,
}
use nifcloud_nas_csi_driver.Base.Text.{
  Str, codes, str_eq, str_eq_iff, str_eq_refl, mem?, mem?-In, In-mem?, split, cut, Lacks,
  split-lacking, split-append, cut-append, atoi, byte_text, contains as str_contains, has_prefix,
  digits_from,
}
use nifcloud_nas_csi_driver.Base.Outcome.{
  Code, Error, Outcome, ok, err, plain, status, cloud, not_exist, object_exists, invalid_argument,
  not_found, already_exists, aborted, internal, unimplemented, ◌>>=◌, ◌>>◌,
}
use nifcloud_nas_csi_driver.Net.Ip.{
  Ip, IsIp, value, value_bound, value-injective, ip_eq, ip_eq_iff, increment_ip, inc_ip,
  inc_ip-IsIp, value-inc_ip, IsIncrement, next, past, increment_ip-IsIncrement, add8, sub8,
}

pub record IpNet : Type 0 where
  pub ip : Ip
  pub ones : ℕ

pub record IsNet (n : IpNet) : Type 0 where
  pub address : IsIp n.ip
  pub bits : n.ones ≤ 32

-- Byte i of net.CIDRMask(ones, 32): 0xff, or ^byte(0xff >> n) where n ones are left for it.
abbrev pub mask_byte : ℕ → ℕ → ℕ
mask_byte ones i = if leb 8 (ones - 8 * i) then 255 else 255 - 255 / 2 ^ (ones - 8 * i)

-- ip.Mask(mask), and startIP: a bitwise and, byte by byte.
unfoldable pub mask_ip : Ip → ℕ → Ip
mask_ip ip ones = record {
  b0 = bit_and ip.b0 (mask_byte ones 0);
  b1 = bit_and ip.b1 (mask_byte ones 1);
  b2 = bit_and ip.b2 (mask_byte ones 2);
  b3 = bit_and ip.b3 (mask_byte ones 3);
}

abbrev pub start_ip : IpNet → Ip
start_ip n = mask_ip n.ip n.ones

-- endIP adds the complement of the mask to each byte.
unfoldable pub end_ip : IpNet → Ip
end_ip n = record {
  b0 = add8 (start_ip n).b0 (255 - mask_byte n.ones 0);
  b1 = add8 (start_ip n).b1 (255 - mask_byte n.ones 1);
  b2 = add8 (start_ip n).b2 (255 - mask_byte n.ones 2);
  b3 = add8 (start_ip n).b3 (255 - mask_byte n.ones 3);
}

-- Contains compares the masked bytes.
unfoldable pub contains : IpNet → Ip → Bool
contains n ip = ip_eq (mask_ip n.ip n.ones) (mask_ip ip n.ones)

-- The number of addresses, and the first as a number.
abbrev pub size : IpNet → ℕ
size n = 2 ^ (32 - n.ones)

abbrev pub base : IpNet → ℕ
base n = value n.ip - value n.ip % size n
