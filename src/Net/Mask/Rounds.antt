-- ===== src/Net/Mask/Rounds.antt =====
-- A masked address is the number rounded down to a multiple of the network's size.
use nifcloud_nas_csi_driver.Base.{
  ℕ, zero, suc, ◌+◌, ◌-◌, ◌*◌, ◌%◌, ◌^◌, ◌≤◌, ◌<◌, ◌≡◌, subst, inl, inr, arith, ltb, Bool-cases,
}
use nifcloud_nas_csi_driver.Net.Ip.{Ip, IsIp, value}
use nifcloud_nas_csi_driver.Net.Mask.{mask_ip}
use nifcloud_nas_csi_driver.Net.Mask.Bytes.{byte-full, byte-partial, byte-empty}

-- A claim for the numbers below eight.
eight : (P : ℕ → Type 0) → P 0 → P 1 → P 2 → P 3 → P 4 → P 5 → P 6 → P 7 → (j : ℕ) → j < 8 → P j
eight P p0 p1 p2 p3 p4 p5 p6 p7 zero h = p0
eight P p0 p1 p2 p3 p4 p5 p6 p7 (suc zero) h = p1
eight P p0 p1 p2 p3 p4 p5 p6 p7 (suc (suc zero)) h = p2
eight P p0 p1 p2 p3 p4 p5 p6 p7 (suc (suc (suc zero))) h = p3
eight P p0 p1 p2 p3 p4 p5 p6 p7 (suc (suc (suc (suc zero)))) h = p4
eight P p0 p1 p2 p3 p4 p5 p6 p7 (suc (suc (suc (suc (suc zero))))) h = p5
eight P p0 p1 p2 p3 p4 p5 p6 p7 (suc (suc (suc (suc (suc (suc zero)))))) h = p6
eight P p0 p1 p2 p3 p4 p5 p6 p7 (suc (suc (suc (suc (suc (suc (suc zero))))))) h = p7
eight P p0 p1 p2 p3 p4 p5 p6 p7 (suc (suc (suc (suc (suc (suc (suc (suc j)))))))) h =
    absurd (omega arith)

-- The masked number where the mask ends in byte q, for each number of ones in that byte.
module _ (ip : Ip) (h : IsIp ip) where
  abbrev Rounds : ℕ → Type 0
  Rounds ones = value (mask_ip ip ones) ≡ value ip - value ip % 2 ^ (32 - ones)

  rounds0 : (j : ℕ) → j < 8 → Rounds j
  unfolding mask_ip
  rounds0 j hj =
      rw
        (
          byte-partial ip.b0 j 0 j h.byte0 hj (omega arith),
          byte-empty ip.b1 j 1 h.byte1 (omega arith),
          byte-empty ip.b2 j 2 h.byte2 (omega arith),
          byte-empty ip.b3 j 3 h.byte3 (omega arith),
        )
        (eight
          (λ k.
            (ip.b0 - ip.b0 % 2 ^ (8 - k)) * 16777216 + 0 * 65536 + 0 * 256 + 0
            ≡ value ip - value ip % 2 ^ (32 - k))
          (omega arith) (omega arith) (omega arith) (omega arith) (omega arith) (omega arith)
          (omega arith) (omega arith) j hj)

  rounds1 : (j : ℕ) → j < 8 → Rounds (8 + j)
  unfolding mask_ip
  rounds1 j hj =
      rw
        (
          byte-full ip.b0 (8 + j) 0 h.byte0 (omega arith),
          byte-partial ip.b1 (8 + j) 1 j h.byte1 hj (omega arith),
          byte-empty ip.b2 (8 + j) 2 h.byte2 (omega arith),
          byte-empty ip.b3 (8 + j) 3 h.byte3 (omega arith),
        )
        (eight
          (λ k.
            ip.b0 * 16777216 + (ip.b1 - ip.b1 % 2 ^ (8 - k)) * 65536 + 0 * 256 + 0
            ≡ value ip - value ip % 2 ^ (32 - (8 + k)))
          (omega arith) (omega arith) (omega arith) (omega arith) (omega arith) (omega arith)
          (omega arith) (omega arith) j hj)

  rounds2 : (j : ℕ) → j < 8 → Rounds (16 + j)
  unfolding mask_ip
  rounds2 j hj =
      rw
        (
          byte-full ip.b0 (16 + j) 0 h.byte0 (omega arith),
          byte-full ip.b1 (16 + j) 1 h.byte1 (omega arith),
          byte-partial ip.b2 (16 + j) 2 j h.byte2 hj (omega arith),
          byte-empty ip.b3 (16 + j) 3 h.byte3 (omega arith),
        )
        (eight
          (λ k.
            ip.b0 * 16777216 + ip.b1 * 65536 + (ip.b2 - ip.b2 % 2 ^ (8 - k)) * 256 + 0
            ≡ value ip - value ip % 2 ^ (32 - (16 + k)))
          (omega arith) (omega arith) (omega arith) (omega arith) (omega arith) (omega arith)
          (omega arith) (omega arith) j hj)

  rounds3 : (j : ℕ) → j < 8 → Rounds (24 + j)
  unfolding mask_ip
  rounds3 j hj =
      rw
        (
          byte-full ip.b0 (24 + j) 0 h.byte0 (omega arith),
          byte-full ip.b1 (24 + j) 1 h.byte1 (omega arith),
          byte-full ip.b2 (24 + j) 2 h.byte2 (omega arith),
          byte-partial ip.b3 (24 + j) 3 j h.byte3 hj (omega arith),
        )
        (eight
          (λ k.
            ip.b0 * 16777216 + ip.b1 * 65536 + ip.b2 * 256 + (ip.b3 - ip.b3 % 2 ^ (8 - k))
            ≡ value ip - value ip % 2 ^ (32 - (24 + k)))
          (omega arith) (omega arith) (omega arith) (omega arith) (omega arith) (omega arith)
          (omega arith) (omega arith) j hj)

  rounds4 : Rounds 32
  unfolding mask_ip
  rounds4 = omega (
    arith,
    byte-full ip.b0 32 0 h.byte0 (omega arith),
    byte-full ip.b1 32 1 h.byte1 (omega arith),
    byte-full ip.b2 32 2 h.byte2 (omega arith),
    byte-full ip.b3 32 3 h.byte3 (omega arith),
  )

  moved : (a b : ℕ) → b ≡ a → Rounds b → Rounds a
  moved a b e r = subst Rounds e r

  -- Masking rounds the number down to a multiple of the size.
  pub value-mask_ip : (ones : ℕ) → ones ≤ 32 → Rounds ones
  value-mask_ip ones hb = elim (Bool-cases (ltb ones 8)) [
    | inl p ↦ rounds0 ones (ground arith)
    | inr p ↦ elim (Bool-cases (ltb ones 16)) [
      | inl q ↦ moved ones (8 + (ones - 8)) (ground arith) (rounds1 (ones - 8) (ground arith))
      | inr q ↦ elim (Bool-cases (ltb ones 24)) [
        | inl r ↦ moved ones (16 + (ones - 16)) (ground arith) (rounds2 (ones - 16) (ground arith))
        | inr r ↦ elim (Bool-cases (ltb ones 32)) [
          | inl s ↦
              moved ones (24 + (ones - 24)) (ground arith) (rounds3 (ones - 24) (ground arith))
          | inr s ↦ moved ones 32 (ground arith) rounds4
        ]
      ]
    ]
  ]
