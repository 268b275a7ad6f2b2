-- ===== src/Base/Table.antt =====
-- Checking a claim about a byte by evaluating it at every value.
use Prim.Native.Nat.{ℕ, zero, suc, ◌<◌}
use mathlib.Core.Path.{◌≡◌}
use mathlib.Core.Logic.{inl, inr}
use mathlib.Core.Bool.{Bool, true, ◌&&◌}
use native.Mathlib.Omega.{arith}
use nifcloud_nas_csi_driver.Base.Tests.{ltb, Bool-cases}

module _ (test : ℕ → Bool) where
  -- The test at each number below a bound, from the lowest on.
  unfoldable pub every_below : ℕ → Bool
  every_below zero = true
  every_below (suc bound) = every_below bound && test bound

  pub every_below-at : (x bound : ℕ) → every_below bound ≡ true → x < bound → test x ≡ true
  unfolding every_below
  every_below-at x zero held less = absurd (omega arith)
  every_below-at x (suc bound) held less = elim (Bool-cases (ltb x bound)) [
    | inl lower ↦ every_below-at x bound (ground arith) (ground arith)
    | inr last ↦ let same : x ≡ bound = ground arith in rw same (ground arith)
  ]
