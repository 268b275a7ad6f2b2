-- ===== src/Divs/Recommend/Steps.antt =====
-- What one drop leaves: some of the blocks, in order, and none with the address or the pool.
use nifcloud_nas_csi_driver.Base.{
  ℕ, ◌+◌, ◌≤◌, ◌≡◌, subst, ◌⊎◌, inl, inr, Bool, false, none, some, List, [], ◌∷◌, arith, Bool-cases,
  Option-cases, In,
}
use nifcloud_nas_csi_driver.Base.Text.{Str}
use nifcloud_nas_csi_driver.Base.Outcome.{Outcome, ok, err, plain}
use nifcloud_nas_csi_driver.Net.Ip.{Ip, IsIp, value}
use nifcloud_nas_csi_driver.Net.Notation.{parse_ip, parse_ip-IsIp}
use nifcloud_nas_csi_driver.Net.Mask.{IpNet, IsNet, contains, size, base}
use nifcloud_nas_csi_driver.Net.Mask.Range.{contains_iff}
use nifcloud_nas_csi_driver.Divs.{CidrDivs, drop_with_ip, drop_with_ip_range, is_dev_in_range}
use nifcloud_nas_csi_driver.Divs.Slices.{rest_of}
use nifcloud_nas_csi_driver.Divs.Order.{Above, is_dev_in_range_iff}
use nifcloud_nas_csi_driver.Divs.Drops.{
  drop_with_ip-rest_of, drop_with_ip_range-rest_of, rest_of-Above, In-rest_of,
}
use nifcloud_nas_csi_driver.Divs.Recommend.{IpAddressPool}

-- What a drop from d leaves in e, when it is to avoid P: some of the blocks, in order.
pub record Drops (P : IpNet → Type 0) (low : ℕ) (d e : CidrDivs) : Type 0 where
  pub ordered : Above low e.divs
  pub kept : (n : IpNet) → In n e.divs → In n d.divs × P n

-- An address is avoided by the blocks that do not contain it, if its text parses.
abbrev pub Misses : Str → IpNet → Type 0
Misses text n = (ip : Ip) → parse_ip text ≡ some ip → contains n ip ≡ false

-- A pool is avoided by the blocks that have no address of it.
abbrev pub MissesPool : IpAddressPool → IpNet → Type 0
MissesPool p n =
    (from to ip : Ip)
    → parse_ip p.start_ip_address ≡ some from
    → parse_ip p.stop_ip_address ≡ some to
    → IsIp ip
    → value from ≤ value ip
    → value ip ≤ value to
    → contains n ip ≡ false

-- The ends of a pool are in order.
abbrev pub IsPool : IpAddressPool → Type 0
IsPool p =
    (from to : Ip)
    → parse_ip p.start_ip_address ≡ some from
    → parse_ip p.stop_ip_address ≡ some to
    → value from ≤ value to

pub Above-IsNet : (low : ℕ) (ds : List IpNet) (n : IpNet) → Above low ds → In n ds → IsNet n
Above-IsNet low [] n a m = absurd m
Above-IsNet low (d ∷ ds) n (b, h, a) (inl e) = subst IsNet e h
Above-IsNet low (d ∷ ds) n (b, h, a) (inr m) = Above-IsNet (base d + size d) ds n a m

filtered :
    (p : IpNet → Bool) (P : IpNet → Type 0) (low : ℕ) (d : CidrDivs)
    → Above low d.divs
    → ((n : IpNet) → p n ≡ false → IsNet n → P n)
    → Drops P low d (record d { divs = rest_of p d.divs })
filtered p P low d a f = record {
  ordered = rest_of-Above p low d.divs a;
  kept = λ n m. let (k, q) = In-rest_of p n d.divs m in (k, f n q (Above-IsNet low d.divs n a k));
}

-- A step that succeeds with a known result.
returned :
    (P : IpNet → Type 0) (low : ℕ) (d e f : CidrDivs) (o : Outcome CidrDivs)
    → o ≡ ok e
    → o ≡ ok f
    → Drops P low d f
    → Drops P low d e
returned P low d e f o he hf s = let same : f ≡ e = cc in subst (Drops P low d) same s

drop_with_ip_fails :
    (d : CidrDivs) (text : Str) → parse_ip text ≡ none → drop_with_ip d text ≡ err plain
unfolding drop_with_ip
drop_with_ip_fails d text p = rw p

drop_with_ip_range_fails :
    (d : CidrDivs) (t1 t2 : Str)
    → (parse_ip t1 ≡ none) ⊎ (parse_ip t2 ≡ none)
    → drop_with_ip_range d t1 t2 ≡ err plain
unfolding drop_with_ip_range
drop_with_ip_range_fails d t1 t2 h = ground arith

pub drop_with_ip-Drops :
    (low : ℕ) (d e : CidrDivs) (text : Str)
    → Above low d.divs
    → drop_with_ip d text ≡ ok e
    → Drops (Misses text) low d e
drop_with_ip-Drops low d e text a h = elim (Option-cases (parse_ip text)) [
  | inl p ↦ cc (drop_with_ip_fails d text p)
  | inr (ip, p) ↦
      returned (Misses text) low d e _ (drop_with_ip d text) h
        (drop_with_ip-rest_of d text ip low p a)
        (filtered (λ n. contains n ip) (Misses text) low d a
          (λ n q _ ip' p'. let same : ip ≡ ip' = cc in rw (← same) q))
]

module _ (pool : IpAddressPool) where
  misses_pool :
      (from to : Ip) (n : IpNet)
      → parse_ip pool.start_ip_address ≡ some from
      → parse_ip pool.stop_ip_address ≡ some to
      → value from ≤ value to
      → is_dev_in_range from to n ≡ false
      → IsNet n
      → MissesPool pool n
  misses_pool from to n p1 p2 l q hn from' to' ip p1' p2' hi l1 l2 =
      elim (Bool-cases (contains n ip)) [
        | inr out ↦ out
        | inl inside ↦
            let e1 : from' ≡ from = cc in
            let e2 : to' ≡ to = cc in
            let k1 : value from ≤ value ip = rw e1 at l1 in
            let k2 : value ip ≤ value to = rw e2 at l2 in
            let (low, high) = (contains_iff n ip hn hi).0 inside in
            cc (
              (is_dev_in_range_iff from to (parse_ip-IsIp _ from p1) (parse_ip-IsIp _ to p2) n hn
                  l).1
                (omega arith, omega arith))
      ]

  pub drop_with_ip_range-Drops :
      (low : ℕ) (d e : CidrDivs)
      → IsPool pool
      → Above low d.divs
      → drop_with_ip_range d pool.start_ip_address pool.stop_ip_address ≡ ok e
      → Drops (MissesPool pool) low d e
  drop_with_ip_range-Drops low d e hp a h = elim (Option-cases (parse_ip pool.start_ip_address)) [
    | inl p ↦ cc (drop_with_ip_range_fails d pool.start_ip_address pool.stop_ip_address (inl p))
    | inr (from, p1) ↦ elim (Option-cases (parse_ip pool.stop_ip_address)) [
      | inl p ↦ cc (drop_with_ip_range_fails d pool.start_ip_address pool.stop_ip_address (inr p))
      | inr (to, p2) ↦
          returned (MissesPool pool) low d e _
            (drop_with_ip_range d pool.start_ip_address pool.stop_ip_address) h
            (drop_with_ip_range-rest_of d pool.start_ip_address pool.stop_ip_address from to low p1
              p2 (hp from to p1 p2) a)
            (filtered (is_dev_in_range from to) (MissesPool pool) low d a
              (λ n q hn. misses_pool from to n p1 p2 (hp from to p1 p2) q hn))
    ]
  ]

-- Drops one after the other.
pub in_turn :
    (P Q : IpNet → Type 0) (low : ℕ) (d e f : CidrDivs)
    → Drops P low d e
    → Drops Q low e f
    → Drops (λ n. P n × Q n) low d f
in_turn P Q low d e f s t = record {
  ordered = t.ordered;
  kept = λ n m. let (k, q) = t.kept n m in let (j, p) = s.kept n k in (j, (p, q));
}
