-- ===== src/Net/Mask/Range.antt =====
-- A network is a range of numbers: its first and last address, and what it contains.
use native.Mathlib.Nat.{div-eq_of_lt-le, div-add-mod', mod-lt, two-pow-succ}
use nifcloud_nas_csi_driver.Base.{
  ℕ, zero, suc, ◌+◌, ◌-◌, ◌*◌, ◌/◌, ◌%◌, ◌^◌, ◌≤◌, ◌<◌, ◌≡◌, refl, ap, ◌↔◌, Bool, true, arith, ◌==◌,
  ==_iff,
}
use nifcloud_nas_csi_driver.Base.Table.{every_below, every_below-at}
use nifcloud_nas_csi_driver.Net.Ip.{Ip, IsIp, value, ip_eq_iff, add8}
use nifcloud_nas_csi_driver.Net.Mask.{
  IpNet, IsNet, mask_byte, mask_ip, start_ip, end_ip, contains, size, base,
}
use nifcloud_nas_csi_driver.Net.Mask.Bytes.{byte_room, mask_ip-IsIp}
use nifcloud_nas_csi_driver.Net.Mask.Rounds.{value-mask_ip}

-- The complement of the mask is the last address of a network counted from its first.
host_part : ℕ → Bool
host_part ones =
    (255 - mask_byte ones 0) * 16777216
      + (255 - mask_byte ones 1) * 65536
      + (255 - mask_byte ones 2) * 256
      + (255 - mask_byte ones 3)
      + 1
    == 2 ^ (32 - ones)

host_part_table : every_below host_part 33 ≡ true
unfolding every_below host_part
host_part_table = refl

host_part_size :
    (ones : ℕ)
    → ones ≤ 32
    → (255 - mask_byte ones 0) * 16777216
        + (255 - mask_byte ones 1) * 65536
        + (255 - mask_byte ones 2) * 256
        + (255 - mask_byte ones 3)
        + 1
      ≡ 2 ^ (32 - ones)
host_part_size ones h =
    (==_iff _ _).0
      (unfold host_part in every_below-at host_part ones 33 host_part_table (omega arith))

pub end_ip-IsIp : (n : IpNet) → IsIp (end_ip n)
unfolding end_ip
end_ip-IsIp n = omega arith

-- Adding up two addresses byte by byte, where no byte overflows.
add_bytes :
    (a0 a1 a2 a3 c0 c1 c2 c3 : ℕ)
    → a0 + c0 < 256
    → a1 + c1 < 256
    → a2 + c2 < 256
    → a3 + c3 < 256
    → add8 a0 c0 * 16777216 + add8 a1 c1 * 65536 + add8 a2 c2 * 256 + add8 a3 c3
      ≡ a0 * 16777216 + a1 * 65536 + a2 * 256 + a3 + (c0 * 16777216 + c1 * 65536 + c2 * 256 + c3)
add_bytes a0 a1 a2 a3 c0 c1 c2 c3 h0 h1 h2 h3 = omega arith

-- The last address of a network is as many numbers behind the first as the network is large, less one.
pub value-end_ip : (n : IpNet) → IsNet n → value (end_ip n) + 1 ≡ value (start_ip n) + size n
unfolding end_ip mask_ip
value-end_ip n h =
    rw
      (add_bytes _ _ _ _ (255 - mask_byte n.ones 0) (255 - mask_byte n.ones 1)
        (255 - mask_byte n.ones 2) (255 - mask_byte n.ones 3)
        (byte_room n.ip.b0 n.ones 0 h.address.byte0) (byte_room n.ip.b1 n.ones 1 h.address.byte1)
        (byte_room n.ip.b2 n.ones 2 h.address.byte2) (byte_room n.ip.b3 n.ones 3 h.address.byte3))
      (omega (arith, host_part_size n.ones h.bits))

round_iff : (s b v : ℕ) → 0 < s → (b - b % s ≡ v - v % s) ↔ ((b - b % s ≤ v) × (v < b - b % s + s))
round_iff s b v h = (down, up)
  where
    down : b - b % s ≡ v - v % s → (b - b % s ≤ v) × (v < b - b % s + s)
    down e = (omega arith, omega (arith, mod-lt v h, div-add-mod' v s))

    up : (b - b % s ≤ v) × (v < b - b % s + s) → b - b % s ≡ v - v % s
    up p =
        let low : b / s * s ≤ v = omega (arith, div-add-mod' b s) in
        let high : v < (b / s + 1) * s = omega (arith, div-add-mod' b s) in
        let same : v / s ≡ b / s = div-eq_of_lt-le s low high in
        omega (arith, div-add-mod' b s, div-add-mod' v s, ap (λ (t : ℕ). t * s) same)

pub pow_pos : (k : ℕ) → 0 < 2 ^ k
pow_pos zero = omega arith
pow_pos (suc k) = omega (arith, two-pow-succ k, pow_pos k)

-- A network holds the addresses from its first on, as many as its size.
pub contains_iff :
    (n : IpNet) (ip : Ip)
    → IsNet n
    → IsIp ip
    → (contains n ip ≡ true) ↔ ((base n ≤ value ip) × (value ip < base n + size n))
contains_iff n ip h hi = (down, up)
  where
    same : (contains n ip ≡ true) ↔ (value (start_ip n) ≡ value (mask_ip ip n.ones))
    same =
        unfold contains in
        ip_eq_iff (start_ip n) (mask_ip ip n.ones) (mask_ip-IsIp n.ip n.ones h.address)
          (mask_ip-IsIp ip n.ones hi)

    rounded :
        (base n ≡ value ip - value ip % size n)
        ↔ ((base n ≤ value ip) × (value ip < base n + size n))
    rounded = round_iff (size n) (value n.ip) (value ip) (pow_pos (32 - n.ones))

    down : contains n ip ≡ true → (base n ≤ value ip) × (value ip < base n + size n)
    down e = rounded.0 (
        omega (
          arith,
          same.0 e,
          value-mask_ip n.ip h.address n.ones h.bits,
          value-mask_ip ip hi n.ones h.bits,
        ))

    up : (base n ≤ value ip) × (value ip < base n + size n) → contains n ip ≡ true
    up p = same.1 (
        omega (
          arith,
          rounded.1 p,
          value-mask_ip n.ip h.address n.ones h.bits,
          value-mask_ip ip hi n.ones h.bits,
        ))
