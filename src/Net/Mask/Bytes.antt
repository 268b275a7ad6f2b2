-- ===== src/Net/Mask/Bytes.antt =====
-- One byte of an address under one byte of a mask, by tables over both.
use native.Mathlib.Nat.{div-le_self}
use nifcloud_nas_csi_driver.Base.{
  ℕ, ◌+◌, ◌-◌, ◌*◌, ◌/◌, ◌%◌, ◌^◌, ◌≤◌, ◌<◌, ◌≡◌, refl, inl, inr, Bool, true, false, arith, ltb,
  leb, ◌==◌, ==_iff, Bool-cases, bit_and,
}
use nifcloud_nas_csi_driver.Base.Table.{every_below, every_below-at}
use nifcloud_nas_csi_driver.Net.Ip.{Ip, IsIp}
use nifcloud_nas_csi_driver.Net.Mask.{mask_byte, mask_ip}

-- One byte under a mask of j ones.
pub masked : ℕ → ℕ → Bool
masked j b = bit_and b (255 - 255 / 2 ^ j) == b - b % 2 ^ (8 - j)

masked_table : every_below (λ j. every_below (masked j) 256) 9 ≡ true
unfolding every_below masked
masked_table = refl

bit_and-partial : (j b : ℕ) → j < 9 → b < 256 → bit_and b (255 - 255 / 2 ^ j) ≡ b - b % 2 ^ (8 - j)
bit_and-partial j b hj hb = (==_iff _ _).0 (
    unfold masked in
    every_below-at (masked j) b 256
      (every_below-at (λ j. every_below (masked j) 256) j 9 masked_table hj) hb)

-- What is left of byte i, by the number n of ones that its part of the mask has.
pub byte-full : (b ones i : ℕ) → b < 256 → 8 ≤ ones - 8 * i → bit_and b (mask_byte ones i) ≡ b
byte-full b ones i hb h = ground (arith, bit_and-partial 8 b (omega arith) hb)

pub byte-partial :
    (b ones i n : ℕ)
    → b < 256
    → n < 8
    → ones - 8 * i ≡ n
    → bit_and b (mask_byte ones i) ≡ b - b % 2 ^ (8 - n)
byte-partial b ones i n hb hn e =
    let short : leb 8 (ones - 8 * i) ≡ false = ground arith in
    rw (short, e) (bit_and-partial n b (omega arith) hb)

pub byte-empty : (b ones i : ℕ) → b < 256 → ones ≤ 8 * i → bit_and b (mask_byte ones i) ≡ 0
byte-empty b ones i hb h = omega (arith, byte-partial b ones i 0 hb (omega arith) (omega arith))

-- A masked byte and the complement of its mask add up within a byte.
fits : ℕ → ℕ → Bool
fits j b = ltb (bit_and b (255 - 255 / 2 ^ j) + 255 / 2 ^ j) 256

fits_table : every_below (λ j. every_below (fits j) 256) 9 ≡ true
unfolding every_below fits
fits_table = refl

bit_and-fits : (j b : ℕ) → j < 9 → b < 256 → fits j b ≡ true
bit_and-fits j b hj hb =
    every_below-at (fits j) b 256 (every_below-at (λ k. every_below (fits k) 256) j 9 fits_table hj)
      hb

quotient_le : (j : ℕ) → 255 / 2 ^ j ≤ 255
quotient_le j = div-le_self 255 (2 ^ j)

part_room :
    (b j : ℕ) → b < 256 → j < 9 → bit_and b (255 - 255 / 2 ^ j) + (255 - (255 - 255 / 2 ^ j)) < 256
unfolding fits
part_room b j hb hj = ground (arith, bit_and-fits j b hj hb, quotient_le j)

pub byte_room :
    (b ones i : ℕ) → b < 256 → bit_and b (mask_byte ones i) + (255 - mask_byte ones i) < 256
byte_room b ones i hb = elim (Bool-cases (leb 8 (ones - 8 * i))) [
  | inl full ↦ rw full (omega (arith, bit_and-partial 8 b (omega arith) hb))
  | inr part ↦ rw part (part_room b (ones - 8 * i) hb (ground arith))
]

pub mask_ip-IsIp : (ip : Ip) (ones : ℕ) → IsIp ip → IsIp (mask_ip ip ones)
unfolding mask_ip
mask_ip-IsIp ip ones h = omega (
  arith,
  byte_room ip.b0 ones 0 h.byte0,
  byte_room ip.b1 ones 1 h.byte1,
  byte_room ip.b2 ones 2 h.byte2,
  byte_room ip.b3 ones 3 h.byte3,
)
