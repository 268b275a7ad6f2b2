-- ===== src/Divs/Drops.antt =====
-- What the drops leave: exactly the blocks without the addresses to avoid.
use nifcloud_nas_csi_driver.Base.{
  ℕ, ◌+◌, ◌≤◌, ◌≡◌, ◌⊎◌, inl, inr, Bool, false, some, List, [], ◌∷◌, arith, Bool-cases, In,
}
use nifcloud_nas_csi_driver.Base.Text.{Str}
use nifcloud_nas_csi_driver.Base.Outcome.{ok}
use nifcloud_nas_csi_driver.Net.Ip.{Ip, value}
use nifcloud_nas_csi_driver.Net.Notation.{parse_ip, parse_ip-IsIp}
use nifcloud_nas_csi_driver.Net.Mask.{IpNet, contains, size, base}
use nifcloud_nas_csi_driver.Divs.{CidrDivs, drop_with_ip, drop_with_ip_range, is_dev_in_range}
use nifcloud_nas_csi_driver.Divs.Slices.{
  rest_of, without_range-range_loop, without_index-index_from,
}
use nifcloud_nas_csi_driver.Divs.Order.{Above, Above-le, contains-OnceAtMost, range-OneRun}

-- On blocks in order, dropWithIP with a text of an address leaves exactly the blocks that do not
-- contain the address, in their order.
pub drop_with_ip-rest_of :
    (d : CidrDivs) (text : Str) (ip : Ip) (low : ℕ)
    → parse_ip text ≡ some ip
    → Above low d.divs
    → drop_with_ip d text ≡ ok (record d { divs = rest_of (λ n. contains n ip) d.divs })
unfolding drop_with_ip
drop_with_ip-rest_of d text ip low p a = rw (
  p,
  without_index-index_from (λ n. contains n ip) d.divs
      (contains-OnceAtMost ip low d.divs (parse_ip-IsIp text ip p) a),
)

-- On blocks in order, dropWithIPRange with the texts of two addresses, the first not above the
-- second, leaves exactly the blocks that the test of the range does not hold of, in their order.
pub drop_with_ip_range-rest_of :
    (d : CidrDivs) (text1 text2 : Str) (from to : Ip) (low : ℕ)
    → parse_ip text1 ≡ some from
    → parse_ip text2 ≡ some to
    → value from ≤ value to
    → Above low d.divs
    → drop_with_ip_range d text1 text2
      ≡ ok (record d { divs = rest_of (is_dev_in_range from to) d.divs })
unfolding drop_with_ip_range
drop_with_ip_range-rest_of d text1 text2 from to low p1 p2 l a = rw (
  p1,
  p2,
  without_range-range_loop (is_dev_in_range from to) d.divs (
      range-OneRun from to (parse_ip-IsIp text1 from p1) (parse_ip-IsIp text2 to p2) l low d.divs
        a),
)

-- A filter of blocks in order is in order.
pub rest_of-Above :
    (p : IpNet → Bool) (low : ℕ) (ds : List IpNet) → Above low ds → Above low (rest_of p ds)
unfolding rest_of
rest_of-Above p low [] a = tt
rest_of-Above p low (d ∷ ds) (b, n, a) = elim (Bool-cases (p d)) [
  | inl y ↦ rw y (
      Above-le (base d + size d) low (rest_of p ds) (omega arith)
        (rest_of-Above p (base d + size d) ds a))
  | inr q ↦ rw q (b, n, rest_of-Above p (base d + size d) ds a)
]

pub In-rest_of :
    (p : IpNet → Bool) (d : IpNet) (ds : List IpNet) → In d (rest_of p ds) → In d ds × (p d ≡ false)
unfolding rest_of
In-rest_of p d [] m = absurd m
In-rest_of p d (e ∷ ds) m = elim (Bool-cases (p e)) [
  | inl y ↦ behind (In-rest_of p d ds (rw y at m))
  | inr q ↦ at (In-rest_of p d ds) q (rw q at m)
]
  where
    behind : In d ds × (p d ≡ false) → In d (e ∷ ds) × (p d ≡ false)
    behind (k, f) = (inr k, f)

    at :
        (In d (rest_of p ds) → In d ds × (p d ≡ false))
        → p e ≡ false
        → (e ≡ d) ⊎ In d (rest_of p ds)
        → In d (e ∷ ds) × (p d ≡ false)
    at ih q (inl same) = (inl same, rw (← same) q)
    at ih q (inr k) = behind (ih k)
