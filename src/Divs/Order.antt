-- ===== src/Divs/Order.antt =====
-- Blocks in order of address, none overlapping the next: there an address lies in one block at most,
-- and the blocks that a range of addresses meets stand together.
use nifcloud_nas_csi_driver.Base.{
  ℕ, ◌+◌, ◌≤◌, ◌<◌, ◌≡◌, refl, ◌↔◌, inl, inr, Bool, true, false, ◌&&◌, ◌||◌, List, [], ◌∷◌, arith,
  ltb, leb, if◌then◌else◌, Bool-cases,
}
use nifcloud_nas_csi_driver.Base.Int.{pos, ltb_ℤ}
use nifcloud_nas_csi_driver.Net.Ip.{Ip, IsIp, value}
use nifcloud_nas_csi_driver.Net.Mask.{IpNet, IsNet, start_ip, end_ip, contains, size, base}
use nifcloud_nas_csi_driver.Net.Mask.Bytes.{mask_ip-IsIp}
use nifcloud_nas_csi_driver.Net.Mask.Rounds.{value-mask_ip}
use nifcloud_nas_csi_driver.Net.Mask.Range.{contains_iff, end_ip-IsIp, value-end_ip}
use nifcloud_nas_csi_driver.Divs.{compare_ip, is_dev_in_range}
use nifcloud_nas_csi_driver.Divs.Slices.{Quiet, Running, OneRun, OnceAtMost}

-- Each block begins at or behind the end of the one before it.
abbrev pub Above : ℕ → List IpNet → Type 0
Above low [] = Unit
Above low (d ∷ ds) = (low ≤ base d) × IsNet d × Above (base d + size d) ds

pub Above-le : (low lower : ℕ) (ds : List IpNet) → lower ≤ low → Above low ds → Above lower ds
Above-le low lower [] h a = tt
Above-le low lower (d ∷ ds) h (b, n, a) = (omega arith, n, a)

-- compareIP is 1 for a lower first address and nothing else.
pub compare_ip_iff :
    (a b : Ip) → IsIp a → IsIp b → (ltb_ℤ (pos 0) (compare_ip a b) ≡ true) ↔ (value a < value b)
unfolding compare_ip
compare_ip_iff a b ha hb = (λ h. ground arith, λ h. ground arith)

not_true : (b : Bool) → (b ≡ true → ⊥) → b ≡ false
not_true true h = absurd (h refl)
not_true false h = refl

value-start_ip : (d : IpNet) → IsNet d → value (start_ip d) ≡ base d
value-start_ip d h = value-mask_ip d.ip h.address d.ones h.bits

abbrev pub Within : ℕ → ℕ → ℕ → Type 0
Within b s v = (b ≤ v) × (v < b + s)

-- The test of the range, on its four parts.
range_test :
    (a b c e : Bool) (lo s f t st en : ℕ)
    → (a ≡ true) ↔ Within lo s f
    → (b ≡ true) ↔ Within lo s t
    → (c ≡ true) ↔ (f < st)
    → (e ≡ true) ↔ (en < t)
    → st ≡ lo
    → en + 1 ≡ st + s
    → f ≤ t
    → ((if a || b then true else c && e) ≡ true) ↔ ((lo ≤ t) × (f < lo + s))
range_test true b c e lo s f t st en ia ib ic ie h1 h2 l =
    (λ _. omega (arith, ia.0 refl), λ _. refl)
range_test false true c e lo s f t st en ia ib ic ie h1 h2 l =
    (λ _. omega (arith, ib.0 refl), λ _. refl)
range_test false false true true lo s f t st en ia ib ic ie h1 h2 l =
    (λ _. omega (arith, ic.0 refl, ie.0 refl), λ _. refl)
range_test false false true false lo s f t st en ia ib ic ie h1 h2 l = (
  λ h. cc,
  λ h. elim (Bool-cases (ltb en t)) [
    | inl y ↦ cc (ie.1 (ground arith))
    | inr q ↦ cc (ib.1 (omega (arith, h), ground arith))
  ],
)
range_test false false false e lo s f t st en ia ib ic ie h1 h2 l = (
  λ h. cc,
  λ h. elim (Bool-cases (ltb f st)) [
    | inl y ↦ cc (ic.1 (ground arith))
    | inr q ↦ cc (ia.1 (ground arith, h.1))
  ],
)

module _ (from to : Ip) (hf : IsIp from) (ht : IsIp to) where
  -- A block is in a range exactly if it meets it.
  pub is_dev_in_range_iff :
      (d : IpNet)
      → IsNet d
      → value from ≤ value to
      → (is_dev_in_range from to d ≡ true) ↔ ((base d ≤ value to) × (value from < base d + size d))
  unfolding is_dev_in_range
  is_dev_in_range_iff d h l =
      range_test (contains d from) (contains d to) (ltb_ℤ (pos 0) (compare_ip from (start_ip d)))
        (ltb_ℤ (pos 0) (compare_ip (end_ip d) to)) (base d) (size d) (value from) (value to)
        (value (start_ip d)) (value (end_ip d)) (contains_iff d from h hf) (contains_iff d to h ht)
        (compare_ip_iff from (start_ip d) hf (mask_ip-IsIp d.ip d.ones h.address))
        (compare_ip_iff (end_ip d) to (end_ip-IsIp d) ht) (value-start_ip d h) (value-end_ip d h) l

-- An address that lies below a block lies in none from there on.
Quiet-below :
    (ip : Ip) (low : ℕ) (ds : List IpNet)
    → IsIp ip
    → Above low ds
    → value ip < low
    → Quiet (λ d. contains d ip) ds
Quiet-below ip low [] hi a l = tt
Quiet-below ip low (d ∷ ds) hi (b, n, a) l = (
  not_true (contains d ip) (λ e. absurd (omega (arith, (contains_iff d ip n hi).0 e))),
  Quiet-below ip (base d + size d) ds hi a (omega arith),
)

pub contains-OnceAtMost :
    (ip : Ip) (low : ℕ) (ds : List IpNet)
    → IsIp ip
    → Above low ds
    → OnceAtMost (λ d. contains d ip) ds
contains-OnceAtMost ip low [] hi a = tt
contains-OnceAtMost ip low (d ∷ ds) hi (b, n, a) = elim (Bool-cases (contains d ip)) [
  | inl y ↦ inl (y, Quiet-below ip (base d + size d) ds hi a ((contains_iff d ip n hi).0 y).1)
  | inr no_ ↦ inr (no_, contains-OnceAtMost ip (base d + size d) ds hi a)
]

module _ (from to : Ip) (hf : IsIp from) (ht : IsIp to) (l : value from ≤ value to) where
  range_past :
      (low : ℕ) (ds : List IpNet)
      → Above low ds
      → value to < low
      → Quiet (is_dev_in_range from to) ds
  range_past low [] a h = tt
  range_past low (d ∷ ds) (b, n, a) h = (
    not_true (is_dev_in_range from to d)
        (λ e. absurd (omega (arith, (is_dev_in_range_iff from to hf ht d n l).0 e))),
    range_past (base d + size d) ds a (omega (arith)),
  )

  ends_above :
      (low : ℕ) (d : IpNet)
      → IsNet d
      → low ≤ base d
      → value from < low
      → is_dev_in_range from to d ≡ false
      → value to < base d + size d
  ends_above low d n b h q = elim (Bool-cases (leb (base d) (value to))) [
    | inl y ↦ cc ((is_dev_in_range_iff from to hf ht d n l).1 (ground arith, omega arith))
    | inr z ↦ ground arith
  ]

  range_Running :
      (low : ℕ) (ds : List IpNet)
      → Above low ds
      → value from < low
      → Running (is_dev_in_range from to) ds
  range_Running low [] a h = tt
  range_Running low (d ∷ ds) (b, n, a) h = elim (Bool-cases (is_dev_in_range from to d)) [
    | inl y ↦ inl (
      y,
      range_Running (base d + size d) ds a
          (omega (arith, (is_dev_in_range_iff from to hf ht d n l).0 y)),
    )
    | inr q ↦ inr (q, range_past (base d + size d) ds a (ends_above low d n b h q))
  ]

  pub range-OneRun :
      (low : ℕ) (ds : List IpNet) → Above low ds → OneRun (is_dev_in_range from to) ds
  range-OneRun low [] a = tt
  range-OneRun low (d ∷ ds) (b, n, a) = elim (Bool-cases (is_dev_in_range from to d)) [
    | inl y ↦
        inl (
          y,
          range_Running (base d + size d) ds a ((is_dev_in_range_iff from to hf ht d n l).0 y).1,
        )
    | inr q ↦ inr (q, range-OneRun (base d + size d) ds a)
  ]
