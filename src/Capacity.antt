-- ===== src/Capacity.antt =====
-- Sizes of volumes: pkg/util/util.go, and getRequestCapacity and getAllocatedStorage of
-- pkg/driver/controller.go. A size is an int64 number of bytes or of GiB.
use nifcloud_nas_csi_driver.Base.{
  ℕ, zero, suc, ◌+◌, ◌-◌, ◌*◌, ◌/◌, ◌%◌, ◌^◌, ◌≤◌, ◌<◌, ◌≡◌, refl, sym, ap, ap₂, ◌∙◌, subst, ◌≢◌,
  ◌↔◌, ◌⊎◌, inl, inr, Bool, true, false, not, ◌&&◌, ◌||◌, Option, none, some, List, [], ◌∷◌, ◌++◌,
  map, append-nil, append_assoc, arith, ltb, leb, ◌==◌, if◌then◌else◌, ==_iff, Bool-cases,
  Option-cases, length, take, drop, get_elem?, All, In, In-append_left, In-append_right, bit_and,
}
use nifcloud_nas_csi_driver.Base.Keys.{
  add_key, delete_key, Distinct, In-add_key_self, In-add_key, In-delete_key, delete_key-In,
  delete_key-Distinct,
}
use nifcloud_nas_csi_driver.Base.Assoc.{find, put, remove, find-put, find-remove, map_laws}
use nifcloud_nas_csi_driver.Base.Text.{
  Str, codes, str_eq, str_eq_iff, str_eq_refl, mem?, mem?-In, In-mem?, split, cut, Lacks,
  split-lacking, split-append, cut-append, atoi, byte_text, contains as str_contains, has_prefix,
  digits_from,
}
use nifcloud_nas_csi_driver.Base.Outcome.{
  Code, Error, Outcome, ok, err, plain, status, cloud, not_exist, object_exists, invalid_argument,
  not_found, already_exists, aborted, internal, unimplemented, ◌>>=◌, ◌>>◌,
}
use nifcloud_nas_csi_driver.Base.Int.{
  ℤ, pos, negsuc, pos_part, neg_part, sub_ℕ, two63, two64, ◌+ℤ◌, ◌-ℤ◌, ◌*ℤ◌, ◌≤ℤ◌, ◌<ℤ◌, ltb_ℤ,
  leb_ℤ, wrap, IsInt64, wrap_of_IsInt64, wrap-IsInt64,
}
pub mod Bounds

abbrev pub gb : ℕ
gb = 1073741824

-- Go's division of signed integers truncates towards zero.
abbrev quot : ℤ → ℕ → ℤ
quot (pos n) d = pos (n / d)
quot (negsuc n) d = sub_ℕ 0 ((n + 1) / d)

unfoldable pub round_bytes_to_gb : ℤ → ℤ
unfolding ◌+ℤ◌ ◌-ℤ◌ wrap
round_bytes_to_gb bytes = quot (wrap (wrap (bytes +ℤ pos gb) -ℤ pos 1)) gb

unfoldable pub gb_to_bytes : ℤ → ℤ
unfolding ◌*ℤ◌ wrap
gb_to_bytes gbs = wrap (gbs *ℤ pos gb)

unfoldable pub min_ℤ : ℤ → ℤ → ℤ
min_ℤ a b = if ltb_ℤ a b then a else b

unfoldable pub max_ℤ : ℤ → ℤ → ℤ
max_ℤ a b = if ltb_ℤ b a then a else b

-- The storage of tier i, in GiB: instances of type 1 come in thousands, the others in hundreds.
abbrev pub is_type_1 : ℤ → Bool
is_type_1 (pos n) = n == 1
is_type_1 (negsuc n) = false

abbrev pub unit : ℤ → ℕ
unit instance_type = if is_type_1 instance_type then 1000 else 100

-- The loop `for i := 1; i < 10; i++`, over the rounds that are left.
unfoldable pub tier_loop : ℕ → ℕ → ℤ → ℤ → ℤ → ℤ
tier_loop zero i cap_bytes instance_type allocated = allocated
tier_loop (suc rounds) i cap_bytes instance_type allocated =
    let here : ℤ = pos (i * unit instance_type) in
    let rest = tier_loop rounds (i + 1) cap_bytes instance_type here in
    if leb_ℤ cap_bytes (gb_to_bytes here) then here else rest

unfoldable pub get_allocated_storage : ℤ → ℤ → ℤ
unfolding tier_loop
get_allocated_storage cap_bytes instance_type =
    tier_loop 9 1 cap_bytes instance_type (pos (unit instance_type))

-- csi.CapacityRange.
pub record CapacityRange : Type 0 where
  pub required_bytes : ℤ
  pub limit_bytes : ℤ

abbrev is_zero : ℤ → Bool
is_zero (pos n) = n == 0
is_zero (negsuc n) = false

abbrev within_range : ℤ → ℤ → ℤ → ℤ
within_range r_cap l_cap min =
    if ltb_ℤ (pos 0) l_cap
    then (if is_zero r_cap then l_cap else min_ℤ (max_ℤ r_cap min) l_cap)
    else max_ℤ r_cap min

unfoldable pub get_request_capacity : Option CapacityRange → ℤ → ℤ
unfolding min_ℤ max_ℤ
get_request_capacity none min = min
get_request_capacity (some r) min = within_range r.required_bytes r.limit_bytes min

abbrev pub min_volume_size : ℤ
min_volume_size = pos (100 * gb)

unfoldable pub get_request_capacity_no_minimum : Option CapacityRange → ℤ
unfolding get_request_capacity
get_request_capacity_no_minimum r = get_request_capacity r (pos 0)
