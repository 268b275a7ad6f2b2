-- ===== src/Capacity/Bounds.antt =====
-- The size that is provisioned, against the size that is asked for.
use nifcloud_nas_csi_driver.Base.{
  ℕ, zero, suc, ◌+◌, ◌*◌, ◌/◌, ◌≤◌, ◌<◌, ◌≡◌, refl, ◌⊎◌, inl, inr, Bool, true, false, some, arith,
  ◌==◌, if◌then◌else◌, Bool-cases,
}
use nifcloud_nas_csi_driver.Base.Int.{ℤ, pos, negsuc, ◌≤ℤ◌, ◌<ℤ◌, leb_ℤ}
use nifcloud_nas_csi_driver.Capacity.{
  round_bytes_to_gb, gb_to_bytes, is_type_1, unit, tier_loop, get_allocated_storage, CapacityRange,
  get_request_capacity,
}

-- Below 2^33 GiB the product does not overflow.
pub gb_to_bytes_small : (n : ℕ) → n < 8589934592 → gb_to_bytes (pos n) ≡ pos (n * 1073741824)
unfolding gb_to_bytes
gb_to_bytes_small n h = ground arith

-- From there on it does: 2^33 GiB are -2^63 bytes.
gb_to_bytes_overflow : gb_to_bytes (pos 8589934592) ≡ negsuc 9223372036854775807
unfolding gb_to_bytes
gb_to_bytes_overflow = refl

-- Rounding a size up to whole GiB gives the least number of GiB that covers it.
pub round_bytes_to_gb-least :
    (n : ℕ)
    → n + 1073741824 ≤ 9223372036854775808
    → (g : ℕ) × (round_bytes_to_gb (pos n) ≡ pos g)
      × (n ≤ g * 1073741824)
      × (g * 1073741824 < n + 1073741824)
unfolding round_bytes_to_gb
round_bytes_to_gb-least n h =
    ((n + 1073741823) / 1073741824, ground arith, omega arith, omega arith)

-- What the loop ends with: the first tier that covers the size, or the ninth.
pub record IsTier (cap_bytes : ℤ) (u : ℕ) (i : ℕ) (r : ℤ) : Type 0 where
  pub tier : ℕ
  pub above : i ≤ tier
  pub at_most : tier ≤ 9
  pub storage : r ≡ pos (tier * u)
  pub covers : (cap_bytes ≤ℤ pos (tier * u * 1073741824)) ⊎ (tier ≡ 9)
  pub least : (k : ℕ) → i ≤ k → k < tier → pos (k * u * 1073741824) <ℤ cap_bytes

unit_bound : (t : ℤ) → (unit t ≤ 1000) × (0 < unit t)
unit_bound t = ground arith

module _ (cap t : ℤ) where
  either :
      (i : ℕ) (b : Bool) {x y : ℤ}
      → (b ≡ true → IsTier cap (unit t) i x)
      → (b ≡ false → IsTier cap (unit t) i y)
      → IsTier cap (unit t) i (if b then x else y)
  either i true f g = f refl
  either i false f g = g refl

  -- What a test of the loop says, with the size of the tier written out.
  size_of : (i : ℕ) → i ≤ 9 → gb_to_bytes (pos (i * unit t)) ≡ pos (i * unit t * 1073741824)
  size_of i h = gb_to_bytes_small (i * unit t) (small (is_type_1 t))
    where
      small : (b : Bool) → i * (if b then 1000 else 100) < 8589934592
      small true = omega arith
      small false = omega arith

  passes :
      (i : ℕ)
      → i ≤ 9
      → leb_ℤ cap (gb_to_bytes (pos (i * unit t))) ≡ true
      → cap ≤ℤ pos (i * unit t * 1073741824)
  passes i h y = ground (arith, rw (size_of i h) at y)

  fails :
      (i : ℕ)
      → i ≤ 9
      → leb_ℤ cap (gb_to_bytes (pos (i * unit t))) ≡ false
      → pos (i * unit t * 1073741824) <ℤ cap
  fails i h y = ground (arith, rw (size_of i h) at y)

  here :
      (i : ℕ)
      → i ≤ 9
      → leb_ℤ cap (gb_to_bytes (pos (i * unit t))) ≡ true
      → IsTier cap (unit t) i (pos (i * unit t))
  here i h y = record {
    tier = i;
    above = omega arith;
    at_most = h;
    storage = refl;
    covers = inl (passes i h y);
    least = λ k a b. absurd (omega arith);
  }

  later :
      (i : ℕ) {r : ℤ}
      → i ≤ 9
      → leb_ℤ cap (gb_to_bytes (pos (i * unit t))) ≡ false
      → IsTier cap (unit t) (i + 1) r
      → IsTier cap (unit t) i r
  later i h n s = record {
    tier = s.tier;
    above = omega (arith, s.above);
    at_most = s.at_most;
    storage = s.storage;
    covers = s.covers;
    least = λ k a b. elim (Bool-cases (k == i)) [
      | inl same ↦ let e : k ≡ i = ground arith in rw e (fails i h n)
      | inr other ↦ s.least k (ground arith) b
    ];
  }

  tier_loop-IsTier :
      (rounds i : ℕ) (allocated : ℤ)
      → i + rounds ≡ 9
      → IsTier cap (unit t) i (tier_loop (suc rounds) i cap t allocated)
  unfolding tier_loop
  tier_loop-IsTier zero i allocated e =
      either i (leb_ℤ cap (gb_to_bytes (pos (i * unit t)))) (here i (omega arith)) (λ n. record {
        tier = i;
        above = omega arith;
        at_most = omega arith;
        storage = refl;
        covers = inr (omega arith);
        least = λ k a b. absurd (omega arith);
      })
  tier_loop-IsTier (suc rounds) i allocated e =
      either i (leb_ℤ cap (gb_to_bytes (pos (i * unit t)))) (here i (omega arith)) (λ n.
        later i (omega arith) n (tier_loop-IsTier rounds (i + 1) (pos (i * unit t)) (omega arith)))

-- The storage is a number of tiers from one to nine, in the unit of the instance type: the least
-- number whose size covers the requested bytes, and nine where no number up to nine does.
pub get_allocated_storage-IsTier :
    (cap_bytes instance_type : ℤ)
    → IsTier cap_bytes (unit instance_type) 1 (get_allocated_storage cap_bytes instance_type)
unfolding get_allocated_storage
get_allocated_storage-IsTier cap t = tier_loop-IsTier cap t 8 1 (pos (unit t)) refl

within :
    (r l min : ℤ)
    → pos 0 ≤ℤ r
    → pos 0 ≤ℤ l
    → (l ≡ pos 0) ⊎ (r ≤ℤ l)
    → (r ≤ℤ get_request_capacity (some (record { required_bytes = r; limit_bytes = l })) min)
      × ((l ≡ pos 0)
          ⊎ (get_request_capacity (some (record { required_bytes = r; limit_bytes = l })) min ≤ℤ l))
      × ((min ≤ℤ get_request_capacity (some (record { required_bytes = r; limit_bytes = l })) min)
          ⊎ (get_request_capacity (some (record { required_bytes = r; limit_bytes = l })) min ≡ l))
unfolding get_request_capacity
within (pos r) (pos l) (pos m) hr hl h = ground arith
within (pos r) (pos l) (negsuc m) hr hl h = ground arith
within (pos r) (negsuc l) min hr hl h = absurd (omega arith)
within (negsuc r) l min hr hl h = absurd (omega arith)

-- For a range that the CSI specification allows, the requested size covers the required bytes,
-- stays within a limit that is set, and is at least the minimum unless the limit is its value.
pub get_request_capacity_bounds :
    (r : CapacityRange) (min : ℤ)
    → pos 0 ≤ℤ r.required_bytes
    → pos 0 ≤ℤ r.limit_bytes
    → (r.limit_bytes ≡ pos 0) ⊎ (r.required_bytes ≤ℤ r.limit_bytes)
    → (r.required_bytes ≤ℤ get_request_capacity (some r) min)
      × ((r.limit_bytes ≡ pos 0) ⊎ (get_request_capacity (some r) min ≤ℤ r.limit_bytes))
      × ((min ≤ℤ get_request_capacity (some r) min)
          ⊎ (get_request_capacity (some r) min ≡ r.limit_bytes))
get_request_capacity_bounds r min hr hl h = within r.required_bytes r.limit_bytes min hr hl h
