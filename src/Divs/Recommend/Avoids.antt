-- ===== src/Divs/Recommend/Avoids.antt =====
-- What the loops of drops leave.
use nifcloud_nas_csi_driver.Base.{
  ℕ, zero, suc, ◌+◌, ◌-◌, ◌≡◌, refl, subst, inl, inr, List, [], ◌∷◌, arith, ltb, if◌then◌else◌,
  Bool-cases, length, take, drop, In,
}
use nifcloud_nas_csi_driver.Base.Text.{Str, str_eq, str_eq_iff}
use nifcloud_nas_csi_driver.Base.Outcome.{ok, bind_ok}
use nifcloud_nas_csi_driver.Base.Int.{ℤ, pos, leb_ℤ}
use nifcloud_nas_csi_driver.Net.Mask.{IpNet, size, base}
use nifcloud_nas_csi_driver.Divs.{CidrDivs, drop_head_and_tail, drop_with_ip, drop_with_ip_range}
use nifcloud_nas_csi_driver.Divs.Order.{Above, Above-le}
use nifcloud_nas_csi_driver.Divs.Recommend.{
  RdbInstance, IpAddressPool, drop_rdbs, drop_pools, drop_statics, trim,
}
use nifcloud_nas_csi_driver.Divs.Recommend.Steps.{
  Drops, Misses, MissesPool, IsPool, drop_with_ip-Drops, drop_with_ip_range-Drops, in_turn,
}

abbrev pub MissesStatics : List Str → IpNet → Type 0
MissesStatics ips n = (t : Str) → In t ips → Misses t n

abbrev pub MissesPools : List IpAddressPool → IpNet → Type 0
MissesPools pools n = (p : IpAddressPool) → In p pools → MissesPool p n

abbrev pub MissesRdbs : Str → List RdbInstance → IpNet → Type 0
MissesRdbs network_id dbs n =
    (db : RdbInstance) → In db dbs → db.network_id ≡ network_id → Misses db.master_private_address n

weaken :
    (P Q : IpNet → Type 0) (low : ℕ) (d e : CidrDivs)
    → ((n : IpNet) → P n → Q n)
    → Drops P low d e
    → Drops Q low d e
weaken P Q low d e f s = record {
  ordered = s.ordered;
  kept = λ n m. let (k, p) = s.kept n m in (k, f n p);
}

nothing :
    (P : IpNet → Type 0) (low : ℕ) (d e : CidrDivs)
    → ((n : IpNet) → P n)
    → Above low d.divs
    → ok d ≡ ok e
    → Drops P low d e
nothing P low d e f a h =
    let same : d ≡ e = cc in
    subst (Drops P low d) same (record { ordered = a; kept = λ n m. (m, f n) })

pub statics-Drops :
    (low : ℕ) (ips : List Str) (d e : CidrDivs)
    → Above low d.divs
    → drop_statics ips d ≡ ok e
    → Drops (MissesStatics ips) low d e
unfolding drop_statics
statics-Drops low [] d e a h = nothing (MissesStatics []) low d e (λ n t m. absurd m) a h
statics-Drops low (ip ∷ ips) d e a h =
    let (f, h1, h2) = bind_ok (drop_with_ip d ip) (drop_statics ips) h in
    let s : Drops (Misses ip) low d f = drop_with_ip-Drops low d f ip a h1 in
    weaken (λ n. Misses ip n × MissesStatics ips n) (MissesStatics (ip ∷ ips)) low d e
      (λ n p. both n p.0 p.1)
      (in_turn (Misses ip) (MissesStatics ips) low d f e s (statics-Drops low ips f e s.ordered h2))
  where
    both : (n : IpNet) → Misses ip n → MissesStatics ips n → MissesStatics (ip ∷ ips) n
    both n p q t (inl e) = subst (λ x. Misses x n) e p
    both n p q t (inr m) = q t m

pub pools-Drops :
    (low : ℕ) (pools : List IpAddressPool) (d e : CidrDivs)
    → ((p : IpAddressPool) → In p pools → IsPool p)
    → Above low d.divs
    → drop_pools pools d ≡ ok e
    → Drops (MissesPools pools) low d e
unfolding drop_pools
pools-Drops low [] d e hp a h = nothing (MissesPools []) low d e (λ n t m. absurd m) a h
pools-Drops low (pool ∷ pools) d e hp a h =
    let (f, h1, h2) =
      bind_ok (drop_with_ip_range d pool.start_ip_address pool.stop_ip_address) (drop_pools pools)
        h in
    let s : Drops (MissesPool pool) low d f =
      drop_with_ip_range-Drops pool low d f (hp pool (inl refl)) a h1 in
    weaken (λ n. MissesPool pool n × MissesPools pools n) (MissesPools (pool ∷ pools)) low d e
      (λ n p. both n p.0 p.1)
      (in_turn (MissesPool pool) (MissesPools pools) low d f e s
        (pools-Drops low pools f e (λ p m. hp p (inr m)) s.ordered h2))
  where
    both : (n : IpNet) → MissesPool pool n → MissesPools pools n → MissesPools (pool ∷ pools) n
    both n p q t (inl e) = subst (λ x. MissesPool x n) e p
    both n p q t (inr m) = q t m

abbrev OnNetwork : Str → RdbInstance → IpNet → Type 0
OnNetwork network_id db n = db.network_id ≡ network_id → Misses db.master_private_address n

rdb-Drops :
    (low : ℕ) (network_id : Str) (db : RdbInstance) (d e : CidrDivs)
    → Above low d.divs
    → (if str_eq db.network_id network_id then drop_with_ip d db.master_private_address else ok d)
      ≡ ok e
    → Drops (OnNetwork network_id db) low d e
rdb-Drops low network_id db d e a h = elim (Bool-cases (str_eq db.network_id network_id)) [
  | inl y ↦
      weaken (Misses db.master_private_address) (OnNetwork network_id db) low d e (λ n m _. m)
        (drop_with_ip-Drops low d e db.master_private_address a (rw y at h))
  | inr q ↦
      nothing (OnNetwork network_id db) low d e
        (λ n same. cc ((str_eq_iff db.network_id network_id).1 same)) a (rw q at h)
]

pub rdbs-Drops :
    (low : ℕ) (network_id : Str) (dbs : List RdbInstance) (d e : CidrDivs)
    → Above low d.divs
    → drop_rdbs network_id dbs d ≡ ok e
    → Drops (MissesRdbs network_id dbs) low d e
unfolding drop_rdbs
rdbs-Drops low network_id [] d e a h =
    nothing (MissesRdbs network_id []) low d e (λ n t m. absurd m) a h
rdbs-Drops low network_id (db ∷ dbs) d e a h =
    let (f, h1, h2) =
      bind_ok
        (if str_eq db.network_id network_id then drop_with_ip d db.master_private_address else ok d)
        (drop_rdbs network_id dbs) h in
    let s : Drops (OnNetwork network_id db) low d f = rdb-Drops low network_id db d f a h1 in
    weaken (λ n. OnNetwork network_id db n × MissesRdbs network_id dbs n)
      (MissesRdbs network_id (db ∷ dbs)) low d e (λ n p. both n p.0 p.1)
      (in_turn (OnNetwork network_id db) (MissesRdbs network_id dbs) low d f e s
        (rdbs-Drops low network_id dbs f e s.ordered h2))
  where
    both :
        (n : IpNet)
        → OnNetwork network_id db n
        → MissesRdbs network_id dbs n
        → MissesRdbs network_id (db ∷ dbs) n
    both n p q t (inl e) = subst (λ x. OnNetwork network_id x n) e p
    both n p q t (inr m) = q t m

-- Dropping the head and the tail leaves some of the blocks, in order.
drop_one-Above : (low : ℕ) (ds : List IpNet) → Above low ds → Above low (drop 1 ds)
drop_one-Above low [] a = tt
drop_one-Above low (d ∷ ds) (b, n, a) = Above-le (base d + size d) low ds (omega arith) a

take-Above : (k low : ℕ) (ds : List IpNet) → Above low ds → Above low (take k ds)
take-Above zero low ds a = tt
take-Above (suc k) low [] a = tt
take-Above (suc k) low (d ∷ ds) (b, n, a) = (b, n, take-Above k (base d + size d) ds a)

In-take : (k : ℕ) (n : IpNet) (ds : List IpNet) → In n (take k ds) → In n ds
In-take zero n ds m = absurd m
In-take (suc k) n [] m = absurd m
In-take (suc k) n (d ∷ ds) (inl e) = inl e
In-take (suc k) n (d ∷ ds) (inr m) = inr (In-take k n ds m)

In-drop_one : (n : IpNet) (ds : List IpNet) → In n (drop 1 ds) → In n ds
In-drop_one n [] m = absurd m
In-drop_one n (d ∷ ds) m = inr m

abbrev pub Any : IpNet → Type 0
Any n = Unit

pub trim-Drops :
    (low : ℕ) (offset : ℤ) (d e : CidrDivs)
    → Above low d.divs
    → trim offset d ≡ ok e
    → Drops Any low d e
unfolding trim drop_head_and_tail
trim-Drops low offset d e a h = elim (Bool-cases (leb_ℤ (pos 3) offset)) [
  | inr n ↦ nothing Any low d e (λ _. tt) a (rw n at h)
  | inl y ↦ elim (Bool-cases (ltb (length d.divs) 3)) [
    | inl few ↦ cc (rw (y, few) at h)
    | inr many ↦
        let same : record d { divs = take (length d.divs - 2) (drop 1 d.divs) } ≡ e =
          cc (rw (y, many) at h) in
        subst (Drops Any low d) same (record {
          ordered =
              take-Above (length d.divs - 2) low (drop 1 d.divs) (drop_one-Above low d.divs a);
          kept =
              λ n m. (In-drop_one n d.divs (In-take (length d.divs - 2) n (drop 1 d.divs) m), tt);
        })
  ]
]
