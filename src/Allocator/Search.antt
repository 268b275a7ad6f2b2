-- ===== src/Allocator/Search.antt =====
-- The search for an unreserved address finds one if there is one.
use nifcloud_nas_csi_driver.Base.{
  ℕ, zero, suc, ◌+◌, ◌≤◌, ◌<◌, ◌≡◌, refl, sym, ◌↔◌, ◌⊎◌, inl, inr, true, false, Option, none, some,
  List, [], ◌∷◌, arith, leb, ◌==◌, Bool-cases,
}
use nifcloud_nas_csi_driver.Base.Text.{Str}
use nifcloud_nas_csi_driver.Base.Outcome.{Outcome}
use nifcloud_nas_csi_driver.Net.Ip.{
  Ip, IsIp, value, value_bound, value-injective, ip_eq_iff, increment_ip, IsIncrement, next, past,
  increment_ip-IsIncrement,
}
use nifcloud_nas_csi_driver.Net.Notation.{parse_ip, parse_ip-IsIp}
use nifcloud_nas_csi_driver.Net.Mask.{IpNet, IsNet, contains, size, base}
use nifcloud_nas_csi_driver.Net.Mask.Range.{contains_iff}
use nifcloud_nas_csi_driver.Allocator.{used, search, equals_parsed, proceed}

-- An address is reserved if some entry of the list is a text of it.
abbrev pub IsReserved : List Str → Ip → Type 0
IsReserved [] ip = ⊥
IsReserved (r ∷ rs) ip =
    ((q : Ip) × (parse_ip r ≡ some q) × (value q ≡ value ip)) ⊎ IsReserved rs ip

equals_parsed_iff :
    (ip : Ip) (r : Str)
    → IsIp ip
    → (equals_parsed ip (parse_ip r) ≡ true)
      ↔ ((q : Ip) × (parse_ip r ≡ some q) × (value q ≡ value ip))
equals_parsed_iff ip r h = (down (parse_ip r) refl, up)
  where
    down :
        (o : Option Ip)
        → parse_ip r ≡ o
        → equals_parsed ip o ≡ true
        → (q : Ip) × (parse_ip r ≡ some q) × (value q ≡ value ip)
    down none e t = cc
    down (some q) e t = (q, e, sym ((ip_eq_iff ip q h (parse_ip-IsIp r q e)).0 t))

    up :
        (q : Ip) × (parse_ip r ≡ some q) × (value q ≡ value ip)
        → equals_parsed ip (parse_ip r) ≡ true
    up (q, e, s) = rw e ((ip_eq_iff ip q h (parse_ip-IsIp r q e)).1 (sym s))

pub used-IsReserved : (rs : List Str) (ip : Ip) → IsIp ip → used rs ip ≡ true → IsReserved rs ip
unfolding used
used-IsReserved [] ip h t = cc
used-IsReserved (r ∷ rs) ip h t = elim (Bool-cases (equals_parsed ip (parse_ip r))) [
  | inl here ↦ inl ((equals_parsed_iff ip r h).0 here)
  | inr later ↦ inr (used-IsReserved rs ip h (ground arith))
]

pub IsReserved-used : (rs : List Str) (ip : Ip) → IsIp ip → IsReserved rs ip → used rs ip ≡ true
unfolding used
IsReserved-used [] ip h t = absurd t
IsReserved-used (r ∷ rs) ip h (inl e) = rw ((equals_parsed_iff ip r h).1 e)
IsReserved-used (r ∷ rs) ip h (inr t) = ground (arith, IsReserved-used rs ip h t)

-- What the search is to do from an address on.
module _ (net : IpNet) (reserved : List Str) where
  pub record IsFree (start : Ip) (r : Ip) : Type 0 where
    pub address : IsIp r
    pub inside : contains net r ≡ true
    pub free : used reserved r ≡ false
    pub first :
        (q : Ip) → IsIp q → value start ≤ value q → value q < value r → used reserved q ≡ true

  pub data Searched (start : Ip) : Option Ip → Type 0 where
    found : (r : Ip) → IsFree start r → Searched start (some r)
    full :
        ((q : Ip) → IsIp q → contains net q ≡ true → value start ≤ value q → used reserved q ≡ true)
        → Searched start none

  module _ (h : IsNet net) where
    -- Past the end of the block nothing is left to search.
    beyond :
        (ip q : Ip)
        → IsIp q
        → contains net q ≡ true
        → base net + size net ≤ value ip
        → value ip ≤ value q
        → ⊥
    beyond ip q hq c e l = omega (arith, (contains_iff net q h hq).0 c)

    used_at :
        (ip q : Ip)
        → IsIp ip
        → IsIp q
        → value q ≡ value ip
        → used reserved ip ≡ true
        → used reserved q ≡ true
    used_at ip q hi hq e u = rw (value-injective q ip hq hi e) u

    -- What holds from the next address holds from this one, if this one is used.
    module _ (ip r : Ip) (hi : IsIp ip) (e : value r ≡ value ip + 1)
        (u : used reserved ip ≡ true) where
      at_or_after :
          (q : Ip)
          → IsIp q
          → value ip ≤ value q
          → (value r ≤ value q → used reserved q ≡ true)
          → used reserved q ≡ true
      at_or_after q hq l k = elim (Bool-cases (value q == value ip)) [
        | inl same ↦ used_at ip q hi hq (ground arith) u
        | inr other ↦ k (ground arith)
      ]

      step-Searched : (o : Option Ip) → Searched r o → Searched ip o
      step-Searched o (found s f) = found s (record {
        address = f.address;
        inside = f.inside;
        free = f.free;
        first = λ q hq l b. at_or_after q hq l (λ k. f.first q hq k b);
      })
      step-Searched o (full all) = full (λ q hq c l. at_or_after q hq l (λ k. all q hq c k))

    proceed-Searched :
        (ip : Ip) (o : Outcome Ip) (rest : Ip → Option Ip)
        → IsIp ip
        → used reserved ip ≡ true
        → IsIncrement ip 1 o
        → ((r : Ip) → IsIp r → value r ≡ value ip + 1 → Searched r (rest r))
        → Searched ip (proceed o rest)
    proceed-Searched ip o rest hi u (next r hr e) k = step-Searched ip r hi e u (rest r) (k r hr e)
    proceed-Searched ip o rest hi u (past e) k =
        full (λ q hq c l. used_at ip q hi hq (omega (arith, value_bound q hq)) u)

    pub search-Searched :
        (fuel : ℕ) (ip : Ip)
        → IsIp ip
        → base net ≤ value ip
        → base net + size net < value ip + fuel
        → Searched ip (search fuel net reserved ip)
    unfolding search
    search-Searched zero ip hi b f = full (λ q hq c l. absurd (beyond ip q hq c (omega arith) l))
    search-Searched (suc fuel) ip hi b f = elim (Bool-cases (contains net ip)) [
      | inr out ↦ rw out (full (λ q hq c l. absurd (beyond ip q hq c (past_end ip hi b out) l)))
      | inl inside ↦ elim (Bool-cases (used reserved ip)) [
        | inr free ↦
            rw (inside, free)
              (found ip (record {
                address = hi;
                inside = inside;
                free = free;
                first = λ q hq l b. absurd (omega arith);
              }))
        | inl u ↦
            rw (inside, u)
              (proceed-Searched ip (increment_ip ip 1) (search fuel net reserved) hi u
                (increment_ip-IsIncrement ip 1 hi (omega arith))
                (λ r hr e. search-Searched fuel r hr (omega arith) (omega arith)))
      ]
    ]
      where
        past_end :
            (i : Ip)
            → IsIp i
            → base net ≤ value i
            → contains net i ≡ false
            → base net + size net ≤ value i
        past_end i hi b out = elim (Bool-cases (leb (base net + size net) (value i))) [
          | inl y ↦ ground arith
          | inr n ↦ cc ((contains_iff net i h hi).1 (b, ground arith))
        ]
