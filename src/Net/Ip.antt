-- ===== src/Net/Ip.antt =====
-- Addresses of four bytes (net.IP after To4), and the two increments of the driver: incrementIP
-- of pkg/driver/utils.go and incIP of pkg/driver/configurator.go.
use nifcloud_nas_csi_driver.Base.{
  ℕ, ◌+◌, ◌-◌, ◌*◌, ◌%◌, ◌≤◌, ◌<◌, ◌≡◌, ◌↔◌, inl, inr, Bool, true, not, ◌&&◌, arith, ltb, leb, ◌==◌,
  if◌then◌else◌, Bool-cases,
}
use nifcloud_nas_csi_driver.Base.Outcome.{Outcome, ok, err, plain}

pub record Ip : Type 0 where
  pub b0 : ℕ
  pub b1 : ℕ
  pub b2 : ℕ
  pub b3 : ℕ

-- Each component is a byte.
pub record IsIp (ip : Ip) : Type 0 where
  pub byte0 : ip.b0 < 256
  pub byte1 : ip.b1 < 256
  pub byte2 : ip.b2 < 256
  pub byte3 : ip.b3 < 256

-- The address as a number.
abbrev pub value : Ip → ℕ
value ip = ip.b0 * 16777216 + ip.b1 * 65536 + ip.b2 * 256 + ip.b3

pub value_bound : (ip : Ip) → IsIp ip → value ip < 4294967296
value_bound ip h = omega arith

pub value-injective : (a b : Ip) → IsIp a → IsIp b → value a ≡ value b → a ≡ b
value-injective a b ha hb e =
    let e0 : a.b0 ≡ b.b0 = omega arith in
    let e1 : a.b1 ≡ b.b1 = omega arith in
    let e2 : a.b2 ≡ b.b2 = omega arith in
    let e3 : a.b3 ≡ b.b3 = omega arith in λ i. record { b0 = e0 i; b1 = e1 i; b2 = e2 i; b3 = e3 i }

-- net.IP.Equal on four-byte addresses.
unfoldable pub ip_eq : Ip → Ip → Bool
ip_eq a b = a.b0 == b.b0 && (a.b1 == b.b1 && (a.b2 == b.b2 && a.b3 == b.b3))

pub ip_eq_iff : (a b : Ip) → IsIp a → IsIp b → (ip_eq a b ≡ true) ↔ (value a ≡ value b)
unfolding ip_eq
ip_eq_iff a b ha hb = (λ h. ground arith, λ h. ground arith)

-- uint8 arithmetic.
abbrev pub add8 : ℕ → ℕ → ℕ
add8 a b = (a + b) % 256

abbrev pub sub8 : ℕ → ℕ → ℕ
sub8 a b = (a + 256 - b) % 256

-- The carry loop, from byte 2 down to byte 0.
carry : Ip → Outcome Ip
carry ip =
    if not (ip.b2 == 255)
    then ok (record ip { b2 = add8 ip.b2 1 })
    else if not (ip.b1 == 255)
    then ok (record ip { b2 = 0; b1 = add8 ip.b1 1 })
    else if not (ip.b0 == 255)
    then ok (record ip { b2 = 0; b1 = 0; b0 = add8 ip.b0 1 })
    else err plain

unfoldable pub increment_ip : Ip → ℕ → Outcome Ip
unfolding carry
increment_ip ip step =
    if leb ip.b3 (sub8 255 step)
    then ok (record ip { b3 = add8 ip.b3 step })
    else carry (record ip { b3 = sub8 (add8 (sub8 ip.b3 255) step) 1 })

-- What an increment is to do: the number grows by the step, and past the last address is an error.
pub data IsIncrement (ip : Ip) (step : ℕ) : Outcome Ip → Type 0 where
  next : (r : Ip) → IsIp r → value r ≡ value ip + step → IsIncrement ip step (ok r)
  past : 4294967296 ≤ value ip + step → IsIncrement ip step (err plain)

carry-IsIncrement :
    (ip : Ip) (low step : ℕ)
    → IsIp ip
    → low < 256
    → step < 256
    → low + 256 ≡ ip.b3 + step
    → IsIncrement ip step (carry (record ip { b3 = low }))
unfolding carry
carry-IsIncrement ip low step h hl hs e = elim (Bool-cases (ip.b2 == 255)) [
  | inr n2 ↦ rw n2 (
      next (record ip { b3 = low; b2 = add8 ip.b2 1 })
        (record { byte0 = h.byte0; byte1 = h.byte1; byte2 = omega arith; byte3 = hl })
        (ground arith))
  | inl y2 ↦ elim (Bool-cases (ip.b1 == 255)) [
    | inr n1 ↦
        rw (y2, n1)
          (next (record ip { b3 = low; b2 = 0; b1 = add8 ip.b1 1 })
            (record { byte0 = h.byte0; byte1 = omega arith; byte2 = omega arith; byte3 = hl })
            (ground arith))
    | inl y1 ↦ elim (Bool-cases (ip.b0 == 255)) [
      | inr n0 ↦
          rw (y2, y1, n0)
            (next (record ip { b3 = low; b2 = 0; b1 = 0; b0 = add8 ip.b0 1 })
              (record { byte0 = omega arith; byte1 = omega arith; byte2 = omega arith; byte3 = hl })
              (ground arith))
      | inl y0 ↦ rw (y2, y1, y0) (past (ground arith))
    ]
  ]
]

-- For any step of a byte, the increment has the next number that far, or the error past the last.
pub increment_ip-IsIncrement :
    (ip : Ip) (step : ℕ) → IsIp ip → step < 256 → IsIncrement ip step (increment_ip ip step)
unfolding increment_ip
increment_ip-IsIncrement ip step h hs = elim (Bool-cases (leb ip.b3 (sub8 255 step))) [
  | inl low ↦ rw low (
      next (record ip { b3 = add8 ip.b3 step })
        (record { byte0 = h.byte0; byte1 = h.byte1; byte2 = h.byte2; byte3 = omega arith })
        (ground arith))
  | inr high ↦ rw high (
      carry-IsIncrement ip (sub8 (add8 (sub8 ip.b3 255) step) 1) step h (omega arith) hs
        (ground arith))
]

-- incIP: each byte wraps, and the loop stops at the first that does not become 0.
unfoldable pub inc_ip : Ip → Ip
inc_ip ip =
    let i3 = record ip { b3 = add8 ip.b3 1 } in
    let i2 = record i3 { b2 = add8 ip.b2 1 } in
    let i1 = record i2 { b1 = add8 ip.b1 1 } in
    let i0 = record i1 { b0 = add8 ip.b0 1 } in
    if ltb 0 i3.b3 then i3 else if ltb 0 i2.b2 then i2 else if ltb 0 i1.b1 then i1 else i0

pub inc_ip-IsIp : (ip : Ip) → IsIp ip → IsIp (inc_ip ip)
unfolding inc_ip
inc_ip-IsIp ip h = ground arith

-- The next number, and from the last address the first.
pub value-inc_ip : (ip : Ip) → IsIp ip → value (inc_ip ip) ≡ (value ip + 1) % 4294967296
unfolding inc_ip
value-inc_ip ip h = ground arith
