-- ===== src/Divs/Recommend/Offset.antt =====
-- The loop of pkg/driver/configurator.go that lowers the offset of the division ends.
use nifcloud_nas_csi_driver.Base.{
  ℕ, zero, suc, ◌+◌, ◌-◌, ◌≤◌, ◌≡◌, refl, ap, ◌∙◌, Bool, true, false, not, arith,
}
use nifcloud_nas_csi_driver.Base.Table.{every_below, every_below-at}
use nifcloud_nas_csi_driver.Base.Int.{ℤ, pos, ◌-ℤ◌, ltb_ℤ}
use nifcloud_nas_csi_driver.Divs.Recommend.{offset_loop, choose_offset}

-- The loop's condition.
abbrev pub goes_on : ℕ → ℤ → Bool
goes_on free offset = ltb_ℤ (pos free -ℤ offset) (pos 5)

stays : (k free : ℕ) (o : ℤ) → goes_on free o ≡ false → offset_loop k free o ≡ o
unfolding offset_loop
stays zero free o h = refl
stays (suc k) free o h = rw h (stays k free o h)

loop_add :
    (n k free : ℕ) (o : ℤ) → offset_loop (n + k) free o ≡ offset_loop k free (offset_loop n free o)
unfolding offset_loop
loop_add zero k free o = let same : 0 + k ≡ k = omega arith in ap (λ r. offset_loop r free o) same
loop_add (suc n) k free o =
    let same : suc n + k ≡ suc (n + k) = omega arith in
    ap (λ r. offset_loop r free o) same ∙ loop_add n k free _

ends_table : every_below (λ mask. not (goes_on (32 - mask) (choose_offset mask))) 33 ≡ true
unfolding every_below choose_offset offset_loop ◌-ℤ◌
ends_table = refl

-- For every mask of an IPv4 network the loop has ended after the ten rounds of the model: its
-- condition is false there, and more rounds change nothing.
pub choose_offset-ends :
    (mask k : ℕ)
    → mask ≤ 32
    → (goes_on (32 - mask) (choose_offset mask) ≡ false)
      × (offset_loop (10 + k) (32 - mask) (pos 4) ≡ choose_offset mask)
unfolding choose_offset
choose_offset-ends mask k h =
    (ends, loop_add 10 k (32 - mask) (pos 4) ∙ stays k (32 - mask) (choose_offset mask) ends)
  where
    off : (b : Bool) → not b ≡ true → b ≡ false
    off true e = absurd (cc e)
    off false e = refl

    ends : goes_on (32 - mask) (choose_offset mask) ≡ false
    ends = off _ (
        every_below-at (λ m. not (goes_on (32 - m) (choose_offset m))) mask 33 ends_table
          (omega arith))
