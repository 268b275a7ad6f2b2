-- ===== src/Net/Notation.antt =====
-- Addresses and CIDR blocks as text: net.ParseIP, net.IP.String and net.ParseCIDR on IPv4, as the
-- driver uses them in pkg/driver/utils.go and pkg/driver/configurator.go.
use nifcloud_nas_csi_driver.Base.{
  ℕ, ◌≤◌, ◌<◌, ◌≡◌, refl, ap, inl, inr, Bool, true, false, Option, none, some, List, [], ◌∷◌, ◌++◌,
  arith, ltb, leb, ◌==◌, if◌then◌else◌, Bool-cases,
}
use nifcloud_nas_csi_driver.Base.Table.{every_below, every_below-at}
use nifcloud_nas_csi_driver.Base.Text.{
  Str, codes, split, cut, Lacks, split-lacking, split-append, atoi, byte_text,
}
use nifcloud_nas_csi_driver.Net.Ip.{Ip, IsIp}

-- One component: decimal digits, at most 255. Go 1.14 accepts leading zeros.
abbrev byte_of : Option ℕ → Option ℕ
byte_of none = none
byte_of (some n) = if ltb n 256 then some n else none

parse_byte : Str → Option ℕ
parse_byte s = byte_of (atoi s)

parse_byte-lt : (s : Str) (n : ℕ) → parse_byte s ≡ some n → n < 256
unfolding parse_byte
parse_byte-lt s n h = ground arith

abbrev quad : Option ℕ → Option ℕ → Option ℕ → Option ℕ → Option Ip
quad (some a) (some b) (some c) (some d) = some (record { b0 = a; b1 = b; b2 = c; b3 = d })
quad _ _ _ _ = none

abbrev four_parts : List Str → Option Ip
four_parts (a ∷ b ∷ c ∷ d ∷ []) = quad (parse_byte a) (parse_byte b) (parse_byte c) (parse_byte d)
four_parts _ = none

unfoldable pub parse_ip : Str → Option Ip
unfolding parse_byte
parse_ip s = four_parts (split b'.' s)

unfoldable pub ip_text : Ip → Str
ip_text ip =
    byte_text ip.b0
    ++ b'.' ∷ (byte_text ip.b1 ++ b'.' ∷ (byte_text ip.b2 ++ b'.' ∷ byte_text ip.b3))

pub record Cidr : Type 0 where
  pub ip : Ip
  pub ones : ℕ

abbrev with_ones : Option Ip → Option ℕ → Option Cidr
with_ones (some ip) (some n) = if leb n 32 then some (record { ip = ip; ones = n }) else none
with_ones _ _ = none

abbrev parse_parts : Str → Option Str → Option Cidr
parse_parts addr none = none
parse_parts addr (some mask) = with_ones (parse_ip addr) (atoi mask)

-- The address and the length of the mask; `none` is the error.
unfoldable pub parse_cidr : Str → Option Cidr
parse_cidr s = let (addr, mask) = cut b'/' s in parse_parts addr mask

-- A parsed address has bytes for components.
quad-IsIp :
    (a b c d : Option ℕ) (ip : Ip)
    → ((n : ℕ) → a ≡ some n → n < 256)
    → ((n : ℕ) → b ≡ some n → n < 256)
    → ((n : ℕ) → c ≡ some n → n < 256)
    → ((n : ℕ) → d ≡ some n → n < 256)
    → quad a b c d ≡ some ip
    → IsIp ip
quad-IsIp (some a) (some b) (some c) (some d) ip ha hb hc hd e =
    ground (arith, ha a refl, hb b refl, hc c refl, hd d refl)
quad-IsIp _ _ _ _ ip ha hb hc hd e = cc

four_parts-IsIp : (ps : List Str) (ip : Ip) → four_parts ps ≡ some ip → IsIp ip
four_parts-IsIp (a ∷ b ∷ c ∷ d ∷ []) ip h =
    quad-IsIp (parse_byte a) (parse_byte b) (parse_byte c) (parse_byte d) ip (parse_byte-lt a)
      (parse_byte-lt b) (parse_byte-lt c) (parse_byte-lt d) h
four_parts-IsIp _ ip h = cc

pub parse_ip-IsIp : (s : Str) (ip : Ip) → parse_ip s ≡ some ip → IsIp ip
parse_ip-IsIp s ip h = four_parts-IsIp (split b'.' s) ip (unfold parse_ip in h)

pub record IsCidr (c : Cidr) : Type 0 where
  pub address : IsIp c.ip
  pub bits : c.ones ≤ 32

parse_parts-IsCidr :
    (addr : Str) (mask : Option Str) (c : Cidr) → parse_parts addr mask ≡ some c → IsCidr c
parse_parts-IsCidr addr none c h = cc
parse_parts-IsCidr addr (some mask) c h = record {
  address = parse_ip-IsIp addr c.ip (ground arith);
  bits = ground arith;
}

pub parse_cidr-IsCidr : (s : Str) (c : Cidr) → parse_cidr s ≡ some c → IsCidr c
unfolding parse_cidr
parse_cidr-IsCidr s c h = parse_parts-IsCidr (cut b'/' s).0 (cut b'/' s).1 c h

-- The decimal text of a byte reads back, and has no dot.
abbrev read_back : ℕ → Option ℕ → Bool
read_back n none = false
read_back n (some m) = m == n

read_back_table : every_below (λ n. read_back n (parse_byte (byte_text n))) 256 ≡ true
unfolding every_below parse_byte atoi byte_text
read_back_table = refl

parse_byte-byte_text : (n : ℕ) → n < 256 → parse_byte (byte_text n) ≡ some n
parse_byte-byte_text n h =
    ground
      (arith, every_below-at (λ n. read_back n (parse_byte (byte_text n))) n 256 read_back_table h)

pub byte_text-Lacks : (n : ℕ) → Lacks b'.' (byte_text n)
unfolding byte_text
byte_text-Lacks n = elim (Bool-cases (ltb n 10)) [
  | inl small ↦ rw small (omega arith)
  | inr large ↦ elim (Bool-cases (ltb n 100)) [
    | inl two ↦ rw (large, two) (omega arith)
    | inr three ↦ rw (large, three) (omega arith)
  ]
]

pub byte_text-injective : (n m : ℕ) → n < 256 → m < 256 → byte_text n ≡ byte_text m → n ≡ m
byte_text-injective n m hn hm e =
    cc (parse_byte-byte_text n hn, parse_byte-byte_text m hm, ap parse_byte e)

four_parts-byte_text :
    (ip : Ip)
    → IsIp ip
    → four_parts (byte_text ip.b0 ∷ byte_text ip.b1 ∷ byte_text ip.b2 ∷ byte_text ip.b3 ∷ [])
      ≡ some ip
four_parts-byte_text ip h = rw (
  parse_byte-byte_text ip.b0 h.byte0,
  parse_byte-byte_text ip.b1 h.byte1,
  parse_byte-byte_text ip.b2 h.byte2,
  parse_byte-byte_text ip.b3 h.byte3,
)

-- The text of an address parses to that address.
pub parse_ip-ip_text : (ip : Ip) → IsIp ip → parse_ip (ip_text ip) ≡ some ip
parse_ip-ip_text ip h =
    unfold parse_ip ip_text in
    rw
      (
        split-append b'.' (byte_text ip.b0) _ (byte_text-Lacks ip.b0),
        split-append b'.' (byte_text ip.b1) _ (byte_text-Lacks ip.b1),
        split-append b'.' (byte_text ip.b2) _ (byte_text-Lacks ip.b2),
        split-lacking b'.' (byte_text ip.b3) (byte_text-Lacks ip.b3),
      )
      (four_parts-byte_text ip h)

parse_sample :
    parse_cidr (codes "192.168.010.0/24")
    ≡ some (record { ip = record { b0 = 192; b1 = 168; b2 = 10; b3 = 0 }; ones = 24 })
unfolding parse_cidr parse_ip parse_byte atoi cut split
parse_sample = refl

parse_bad : parse_cidr (codes "192.168.1.256/24") ≡ none
unfolding parse_cidr parse_ip parse_byte atoi cut split
parse_bad = refl
