-- ===== src/Divs/Tiles.antt =====
-- The blocks of divideNet tile the network: they are in order, of equal size, and cover it.
use nifcloud_nas_csi_driver.Base.{
  ℕ, zero, suc, ◌+◌, ◌-◌, ◌*◌, ◌/◌, ◌%◌, ◌^◌, ◌≤◌, ◌<◌, ◌≡◌, refl, sym, ap, ap₂, ◌∙◌, subst, ◌↔◌,
  ◌⊎◌, inl, inr, true, List, [], ◌∷◌, arith, ltb, Bool-cases, length, In,
}
use nifcloud_nas_csi_driver.Base.Outcome.{ok, err, plain}
use nifcloud_nas_csi_driver.Base.Int.{ℤ, pos, negsuc, ◌≤ℤ◌, ◌<ℤ◌}
use nifcloud_nas_csi_driver.Net.Ip.{Ip, IsIp, value, value_bound, inc_ip, inc_ip-IsIp, value-inc_ip}
use nifcloud_nas_csi_driver.Net.Mask.{IpNet, IsNet, start_ip, end_ip, contains, size, base}
use nifcloud_nas_csi_driver.Net.Mask.Bytes.{mask_ip-IsIp}
use nifcloud_nas_csi_driver.Net.Mask.Rounds.{value-mask_ip}
use nifcloud_nas_csi_driver.Net.Mask.Range.{contains_iff, end_ip-IsIp, value-end_ip, pow_pos}
use native.Mathlib.Nat.{mul-mod_left, two-pow-succ, add-mod_right, div-add-mod', mul_assoc}
use nifcloud_nas_csi_driver.Divs.{divs_from, divide_net}
use nifcloud_nas_csi_driver.Divs.Order.{Above}

-- Blocks with a given number of ones, one behind the other, from one number to another.
pub data Tiles (ones : ℕ) : ℕ → List IpNet → ℕ → Type 0 where
  done : (low : ℕ) → Tiles ones low [] low
  tile :
      (low high : ℕ) (d : IpNet) (ds : List IpNet)
      → IsNet d
      → d.ones ≡ ones
      → base d ≡ low
      → Tiles ones (low + 2 ^ (32 - ones)) ds high
      → Tiles ones low (d ∷ ds) high

pow_add : (a b : ℕ) → 2 ^ (a + b) ≡ 2 ^ a * 2 ^ b
pow_add zero b = let e : 0 + b ≡ b = omega arith in rw e (omega arith)
pow_add (suc a) b =
    let e : suc a + b ≡ suc (a + b) = omega arith in
    rw e
      (omega (arith, two-pow-succ (a + b), pow_add a b, ap (λ (t : ℕ). t * 2 ^ b) (two-pow-succ a)))

-- An address on a multiple of the size is the first of its block.
base_aligned : (d : IpNet) → value d.ip % size d ≡ 0 → base d ≡ value d.ip
base_aligned d h = omega arith

module _ (ones : ℕ) (h : ones ≤ 32) where
  abbrev step : ℕ
  step = 2 ^ (32 - ones)

  abbrev block : Ip → IpNet
  block start = record { ip = start; ones = ones }

  block-IsNet : (start : Ip) → IsIp start → IsNet (block start)
  block-IsNet start hi = record { address = hi; bits = h }

  -- The next block begins where this one ends, unless this one is the last of all.
  next_start :
      (start : Ip)
      → IsIp start
      → value start % step ≡ 0
      → value start + step < 4294967296
      → value (inc_ip (end_ip (block start))) ≡ value start + step
  next_start start hi al l = omega (
    arith,
    value-inc_ip (end_ip (block start)) (end_ip-IsIp (block start)),
    value-end_ip (block start) (block-IsNet start hi),
    value-mask_ip start hi ones h,
    base_aligned (block start) al,
  )

  divs_from-Tiles :
      (n : ℕ) (start : Ip) (high : ℕ)
      → IsIp start
      → value start % step ≡ 0
      → value start + n * step ≡ high
      → high ≤ 4294967296
      → Tiles ones (value start) (divs_from n start ones) high
  unfolding divs_from
  divs_from-Tiles zero start high hi al e b =
      let e' : value start ≡ high = omega arith in
      subst (Tiles ones (value start) []) e' (done (value start))
  divs_from-Tiles (suc zero) start high hi al e b =
      let e' : value start + step ≡ high = omega arith in
      tile (value start) high (block start) [] (block-IsNet start hi) refl
        (base_aligned (block start) al)
        (subst (Tiles ones (value start + step) []) e' (done (value start + step)))
  divs_from-Tiles (suc (suc n)) start high hi al e b =
      tile (value start) high (block start) (divs_from (suc n) (inc_ip (end_ip (block start))) ones)
        (block-IsNet start hi) refl (base_aligned (block start) al)
        (subst (λ low. Tiles ones low (divs_from (suc n) (inc_ip (end_ip (block start))) ones) high)
          at
          (divs_from-Tiles (suc n) (inc_ip (end_ip (block start))) high
            (inc_ip-IsIp (end_ip (block start)) (end_ip-IsIp (block start)))
            (rw at (add-mod_right (value start) step ∙ al)) (omega (arith, at)) b))
    where
      at : value (inc_ip (end_ip (block start))) ≡ value start + step
      at = next_start start hi al (omega (arith, pow_pos (32 - ones)))

length-divs_from : (n : ℕ) (start : Ip) (ones : ℕ) → length (divs_from n start ones) ≡ n
unfolding divs_from
length-divs_from zero start ones = refl
length-divs_from (suc n) start ones =
    ap suc (length-divs_from n (inc_ip (end_ip (record { ip = start; ones = ones }))) ones)

-- The start of a network is on a multiple of the size of its parts, and the parts add up to it.
module _ (c : IpNet) (hc : IsNet c) (k : ℕ) (fits : k ≤ 32 - c.ones) where
  sizes : 2 ^ k * 2 ^ (32 - (c.ones + k)) ≡ size c
  sizes =
      let e : 32 - c.ones ≡ k + (32 - (c.ones + k)) = omega arith in
      rw e (sym (pow_add k (32 - (c.ones + k))))

  aligned : value (start_ip c) % 2 ^ (32 - (c.ones + k)) ≡ 0
  aligned =
      let q : value (start_ip c) ≡ value c.ip / size c * size c =
        omega (
          arith,
          div-add-mod' (value c.ip) (size c),
          value-mask_ip c.ip hc.address c.ones hc.bits,
        ) in
      let r : value (start_ip c) ≡ value c.ip / size c * 2 ^ k * 2 ^ (32 - (c.ones + k)) =
        q
        ∙ ap (λ (t : ℕ). value c.ip / size c * t) (sym sizes)
        ∙ sym (mul_assoc (value c.ip / size c) (2 ^ k) (2 ^ (32 - (c.ones + k)))) in
      rw r (mul-mod_left (value c.ip / size c * 2 ^ k) (2 ^ (32 - (c.ones + k))))

  network_top : base c + size c ≤ 4294967296
  network_top = omega (
    arith,
    value_bound (end_ip c) (end_ip-IsIp c),
    value-end_ip c hc,
    value-mask_ip c.ip hc.address c.ones hc.bits,
  )

  divided :
      (length (divs_from (2 ^ k) (start_ip c) (c.ones + k)) ≡ 2 ^ k)
      × Tiles (c.ones + k) (base c) (divs_from (2 ^ k) (start_ip c) (c.ones + k)) (base c + size c)
  divided =
      let start : value (start_ip c) ≡ base c = value-mask_ip c.ip hc.address c.ones hc.bits in
      (
        length-divs_from (2 ^ k) (start_ip c) (c.ones + k),
        subst
            (λ low.
              Tiles (c.ones + k) low (divs_from (2 ^ k) (start_ip c) (c.ones + k))
                (base c + size c))
            start
            (divs_from-Tiles (c.ones + k) (omega (arith, hc.bits)) (2 ^ k) (start_ip c)
              (base c + size c) (mask_ip-IsIp c.ip c.ones hc.address) aligned
              (omega (arith, sizes, start)) network_top),
      )

-- If dividing by an offset returns blocks, there are two to the power of the offset of them, each
-- with as many more ones, and they tile the network from its first address to its last.
pub divide_net-Tiles :
    (c : IpNet) (k : ℕ) (ds : List IpNet)
    → IsNet c
    → divide_net c (pos k) ≡ ok ds
    → (length ds ≡ 2 ^ k) × Tiles (c.ones + k) (base c) ds (base c + size c)
unfolding divide_net
divide_net-Tiles c zero ds hc e = cc
divide_net-Tiles c (suc k) ds hc e = elim (Bool-cases (ltb (32 - c.ones) (suc k))) [
  | inl y ↦ cc (rw y at e)
  | inr n ↦
      let same : divs_from (2 ^ suc k) (start_ip c) (c.ones + suc k) ≡ ds = cc (rw n at e) in
      subst (λ l. (length l ≡ 2 ^ suc k) × Tiles (c.ones + suc k) (base c) l (base c + size c)) same
        (divided c hc (suc k) (ground arith))
]

-- The division fails exactly for an offset that is not positive or leaves no address to a block.
pub divide_net_err :
    (c : IpNet) (offset : ℤ)
    → (divide_net c offset ≡ err plain) ↔ ((offset ≤ℤ pos 0) ⊎ (pos (32 - c.ones) <ℤ offset))
unfolding divide_net
divide_net_err c (negsuc n) = (λ h. ground arith, λ h. refl)
divide_net_err c (pos zero) = (λ h. ground arith, λ h. refl)
divide_net_err c (pos (suc k)) = (λ h. ground arith, λ h. ground arith)

tile_end :
    (ones low : ℕ) (d : IpNet)
    → d.ones ≡ ones
    → base d ≡ low
    → base d + size d ≡ low + 2 ^ (32 - ones)
tile_end ones low d o b = ap₂ (λ (x y : ℕ). x + 2 ^ (32 - y)) b o

-- Blocks that tile are in order.
pub Tiles-Above : {ones low high : ℕ} {ds : List IpNet} → Tiles ones low ds high → Above low ds
Tiles-Above (done low) = tt
Tiles-Above {ones} (tile low high d ds n o b t) =
    (omega (arith, b), n, subst (λ x. Above x ds) (sym (tile_end ones low d o b)) (Tiles-Above t))

-- An address in the range that blocks tile is in one of the blocks.
pub Tiles_cover :
    {ones low high : ℕ} {ds : List IpNet} (ip : Ip)
    → Tiles ones low ds high
    → IsIp ip
    → low ≤ value ip
    → value ip < high
    → (d : IpNet) × In d ds × (contains d ip ≡ true)
Tiles_cover ip (done low) hi l h = absurd (omega arith)
Tiles_cover {ones} ip (tile low high d ds n o b t) hi l h =
    elim (Bool-cases (ltb (value ip) (low + 2 ^ (32 - ones)))) [
      | inl y ↦ (
        d,
        inl refl,
        (contains_iff d ip n hi).1 (omega (arith, b), ground (arith, tile_end ones low d o b)),
      )
      | inr q ↦ let (e, m, k) = Tiles_cover ip t hi (ground arith) h in (e, inr m, k)
    ]
