-- ===== src/Divs/Recommend/Choice.antt =====
-- The recommended block lies in the private LAN and has none of the addresses in use.
use nifcloud_nas_csi_driver.Base.{
  ℕ, zero, suc, ◌+◌, ◌-◌, ◌/◌, ◌^◌, ◌≤◌, ◌≡◌, refl, sym, ap, ap₂, subst, ◌≢◌, inl, inr, Option,
  none, some, List, [], ◌∷◌, arith, length, get_elem?, In,
}
use nifcloud_nas_csi_driver.Base.Text.{Str}
use nifcloud_nas_csi_driver.Base.Outcome.{Outcome, ok, err, ◌>>=◌, bind_ok}
use nifcloud_nas_csi_driver.Base.Int.{ℤ, pos, negsuc}
use nifcloud_nas_csi_driver.Net.Notation.{Cidr, parse_cidr, parse_cidr-IsCidr}
use nifcloud_nas_csi_driver.Net.Mask.{IpNet, IsNet, size, base}
use nifcloud_nas_csi_driver.Net.Mask.Bytes.{mask_ip-IsIp}
use nifcloud_nas_csi_driver.Divs.{CidrDivs, divide_net, new_cidr_divs}
use nifcloud_nas_csi_driver.Divs.Order.{Above}
use nifcloud_nas_csi_driver.Divs.Tiles.{Tiles, done, tile, divide_net-Tiles, Tiles-Above}
use nifcloud_nas_csi_driver.Divs.Recommend.{
  Lan, RdbInstance, IpAddressPool, choose_offset, drop_rdbs, drop_pools, drop_statics, gather,
  net_text, choose, text_or_empty, lan_net, trim, recommend_cidr,
}
use nifcloud_nas_csi_driver.Divs.Recommend.Steps.{Drops, IsPool}
use nifcloud_nas_csi_driver.Divs.Recommend.Avoids.{
  MissesStatics, MissesPools, MissesRdbs, Any, statics-Drops, pools-Drops, rdbs-Drops, trim-Drops,
}

-- A block that lies in a network.
pub record IsPart (c n : IpNet) : Type 0 where
  pub net : IsNet n
  pub first : base c ≤ base n
  pub last : base n + size n ≤ base c + size c

Tiles-le : {ones low high : ℕ} {ds : List IpNet} → Tiles ones low ds high → low ≤ high
Tiles-le (done low) = omega arith
Tiles-le (tile low high d ds n o b t) = omega (arith, Tiles-le t)

Tiles-IsPart :
    {ones low high : ℕ} {ds : List IpNet} (n : IpNet)
    → Tiles ones low ds high
    → In n ds
    → IsNet n × (low ≤ base n) × (base n + size n ≤ high)
Tiles-IsPart n (done low) m = absurd m
Tiles-IsPart {ones} n (tile low high d ds h o b t) (inl e) =
    subst (λ x. IsNet x × (low ≤ base x) × (base x + size x ≤ high)) e
      (
        h,
        omega (arith, b),
        subst (λ k. k ≤ high) (sym (ap₂ (λ (x y : ℕ). x + 2 ^ (32 - y)) b o)) (Tiles-le t),
      )
Tiles-IsPart n (tile low high d ds h o b t) (inr m) =
    let (k, l, r) = Tiles-IsPart n t m in (k, omega arith, r)

new_cidr_divs-IsPart :
    (c : IpNet) (offset : ℤ) (d : CidrDivs)
    → IsNet c
    → new_cidr_divs c offset ≡ ok d
    → Above (base c) d.divs × ((n : IpNet) → In n d.divs → IsPart c n)
unfolding new_cidr_divs
new_cidr_divs-IsPart c offset d hc h =
    let (ds, e, k) = bind_ok (divide_net c offset) _ h in
    let same : ds ≡ d.divs = ap (divs_of ds) k in
    subst (λ l. Above (base c) l × ((n : IpNet) → In n l → IsPart c n)) same (parts offset ds e)
  where
    divs_of : List IpNet → Outcome CidrDivs → List IpNet
    divs_of l (ok x) = x.divs
    divs_of l (err x) = l

    parts :
        (o : ℤ) (ds : List IpNet)
        → divide_net c o ≡ ok ds
        → Above (base c) ds × ((n : IpNet) → In n ds → IsPart c n)
    parts (negsuc k) ds e = cc
    parts (pos k) ds e =
        let (len, t) = divide_net-Tiles c k ds hc e in
        (
          Tiles-Above t,
          λ n m. let (h, l, r) = Tiles-IsPart n t m in record { net = h; first = l; last = r },
        )

get_elem?-In : (n : IpNet) (ds : List IpNet) (i : ℕ) → get_elem? ds i ≡ some n → In n ds
get_elem?-In n [] i h = cc
get_elem?-In n (d ∷ ds) zero h = inl cc
get_elem?-In n (d ∷ ds) (suc i) h = inr (get_elem?-In n ds i h)

chosen :
    (o : Option IpNet) (text : Str)
    → text_or_empty o ≡ text
    → text ≢ []
    → (n : IpNet) × (o ≡ some n) × (text ≡ net_text n)
chosen none text e h = absurd (h (sym e))
chosen (some n) text e h = (n, refl, sym e)

module _ (network_id : Str) (lan : Lan) (c : Cidr) (dbs : List RdbInstance)
    (pools : List IpAddressPool) (ips : List Str)
    (dhcp : Str → Outcome (List IpAddressPool × List Str))
    (parsed : parse_cidr lan.cidr_block ≡ some c)
    (found : gather dhcp lan.routers [] [] ≡ ok (pools, ips))
    (ordered : (p : IpAddressPool) → In p pools → IsPool p) where
  lan_IsNet : IsNet (lan_net c)
  lan_IsNet =
      let h = parse_cidr-IsCidr lan.cidr_block c parsed in
      record { address = mask_ip-IsIp c.ip c.ones h.address; bits = h.bits }

  -- If a block is recommended, it is a block of the private LAN, and contains no address of a
  -- database on the network, no address between the ends of a DHCP pool and no static address. The
  -- cloud's answers are given, and the ends of each pool are in order.
  pub recommend_cidr-Misses :
      (text : Str)
      → recommend_cidr network_id (ok lan) (ok dbs) dhcp ≡ ok text
      → text ≢ []
      → (n : IpNet) × (text ≡ net_text n)
        × IsPart (lan_net c) n
        × MissesRdbs network_id dbs n
        × MissesPools pools n
        × MissesStatics ips n
  unfolding recommend_cidr choose
  recommend_cidr-Misses text h ne =
      let (all, h1, k1) =
        bind_ok (new_cidr_divs (lan_net c) (choose_offset c.ones)) after_new (start h) in
      let (inner, h2, k2) = bind_ok (trim (choose_offset c.ones) all) after_trim k1 in
      let (kept, h3, k3) = bind_ok (drop_rdbs network_id dbs inner) after_rdbs k2 in
      let (rest, h4, k4) = bind_ok (drop_pools pools kept) after_pools (known kept k3) in
      let (left, h5, k5) = bind_ok (drop_statics ips rest) after_statics k4 in
      let low : ℕ = base (lan_net c) in
      let (a, part) = new_cidr_divs-IsPart (lan_net c) (choose_offset c.ones) all lan_IsNet h1 in
      let d2 : Drops Any low all inner = trim-Drops low (choose_offset c.ones) all inner a h2 in
      let d3 : Drops (MissesRdbs network_id dbs) low inner kept =
        rdbs-Drops low network_id dbs inner kept d2.ordered h3 in
      let d4 : Drops (MissesPools pools) low kept rest =
        pools-Drops low pools kept rest ordered d3.ordered h4 in
      let d5 : Drops (MissesStatics ips) low rest left =
        statics-Drops low ips rest left d4.ordered h5 in
      let (n, e, name) =
        chosen (get_elem? left.divs (length left.divs / 2)) text (last left k5) ne in
      let (m5, p5) = d5.kept n (get_elem?-In n left.divs (length left.divs / 2) e) in
      let (m4, p4) = d4.kept n m5 in
      let (m3, p3) = d3.kept n m4 in (n, name, part n (d2.kept n m3).0, p3, p4, p5)
    where
      after_statics : CidrDivs → Outcome Str
      after_statics left = ok (choose left)

      after_pools : CidrDivs → Outcome Str
      after_pools rest = drop_statics ips rest >>= after_statics

      after_rdbs : CidrDivs → Outcome Str
      after_rdbs kept = gather dhcp lan.routers [] [] >>= λ f.
          drop_pools f.0 kept >>= λ rest. drop_statics f.1 rest >>= after_statics

      after_trim : CidrDivs → Outcome Str
      after_trim inner = drop_rdbs network_id dbs inner >>= after_rdbs

      after_new : CidrDivs → Outcome Str
      after_new all = trim (choose_offset c.ones) all >>= after_trim

      start :
          recommend_cidr network_id (ok lan) (ok dbs) dhcp ≡ ok text
          → (new_cidr_divs (lan_net c) (choose_offset c.ones) >>= after_new) ≡ ok text
      start e = rw parsed at e

      known :
          (kept : CidrDivs)
          → after_rdbs kept ≡ ok text
          → (drop_pools pools kept >>= after_pools) ≡ ok text
      known kept e = rw found at e

      last :
          (left : CidrDivs)
          → after_statics left ≡ ok text
          → text_or_empty (get_elem? left.divs (length left.divs / 2)) ≡ text
      last left e = cc
