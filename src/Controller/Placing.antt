-- ===== src/Controller/Placing.antt =====
-- Where a shared volume is put.
use nifcloud_nas_csi_driver.Base.{
  List, All, ◌<◌, ◌≤◌, ◌∙◌, ap, ℕ, zero, suc, ◌+◌, ◌*◌, ◌≡◌, refl, subst, inl, inr, true, Option,
  none, some, ◌++◌, arith, Bool-cases,
}
use nifcloud_nas_csi_driver.Base.Text.{Str}
use nifcloud_nas_csi_driver.Base.Outcome.{Outcome, ok, err}
use nifcloud_nas_csi_driver.Base.Int.{ℤ, pos, two63}
use nifcloud_nas_csi_driver.Capacity.Bounds.{gb_to_bytes_small}
use nifcloud_nas_csi_driver.Controller.Room.{
  IsAmount, total, NamedBy, reserved_from_start, has_space_fits, name_in_pvs-NamedBy,
}
use nifcloud_nas_csi_driver.Cloud.{NasInstance}
use nifcloud_nas_csi_driver.Controller.{
  parse_int, get_nas_instance_capacity_bytes, capacity_of, same_ℤ,
}
use nifcloud_nas_csi_driver.Controller.Shared.{
  SharedAnswers, Place, shared_nas, place_loop, on_new, into, on_instance, on_existing, on_reserved,
  has_space, three_digits, PersistentVolume, reserved_from, get_nas_instance_reserved_cap,
  get_shared_name_from_existing_nas, get_shared_name_from_existing_pv,
}

module _ (a : SharedAnswers) (cap_bytes : ℤ) (prefix : Str) where
  -- What the branch that puts a volume on an instance has computed.
  abbrev Chosen : Str → Type 0
  Chosen name =
      (n : NasInstance) × (capacity : ℤ) × (reserved : ℤ) × (i : ℕ) × (a.get_nas_instance name
        ≡ ok n)
      × (get_nas_instance_capacity_bytes n ≡ some capacity)
      × (get_nas_instance_reserved_cap (prefix ++ three_digits i) (a.persistent_volumes (2 * i))
          ≡ ok reserved)
      × (get_shared_name_from_existing_pv (prefix ++ three_digits i)
            (a.persistent_volumes (2 * i + 1))
          ≡ ok name)
      × (has_space cap_bytes capacity reserved ≡ true)

  abbrev Sound : Option (Outcome Place) → Type 0
  Sound r = (name : Str) → r ≡ some (ok (shared_nas name)) → Chosen name

  module _ (i : ℕ) (reserved : ℤ)
      (listed : get_nas_instance_reserved_cap
          (prefix ++ three_digits i)
          (a.persistent_volumes (2 * i))
        ≡ ok reserved)
      (rest : Option (Outcome Place)) (ih : Sound rest) where
    module _ (found : Str)
        (in_pvs : get_shared_name_from_existing_pv
            (prefix ++ three_digits i)
            (a.persistent_volumes (2 * i + 1))
          ≡ ok found) where
      into_lem :
          (n : NasInstance)
          → a.get_nas_instance found ≡ ok n
          → (capacity : Option ℤ) → get_nas_instance_capacity_bytes n ≡ capacity
          → Sound (into cap_bytes reserved found rest capacity)
      into_lem n e none c name h = absurd (cc h)
      into_lem n e (some capacity) c name h =
          elim (Bool-cases (has_space cap_bytes capacity reserved)) [
            | inl fits ↦
                subst Chosen (same found name (rw fits at h))
                  (n, capacity, reserved, i, e, c, listed, in_pvs, fits)
            | inr full ↦ ih name (rw full at h)
          ]
        where
          same : (x y : Str) → some (ok (shared_nas x)) ≡ some (ok (shared_nas y)) → x ≡ y
          same x y eq = cc

      on_instance_lem :
          (r : Outcome NasInstance)
          → a.get_nas_instance found ≡ r
          → Sound (on_instance cap_bytes reserved found rest r)
      on_instance_lem (err e) eq name h = absurd (cc h)
      on_instance_lem (ok n) eq name h =
          into_lem n eq (get_nas_instance_capacity_bytes n) refl name h

    on_existing_lem :
        (r : Outcome Str)
        → get_shared_name_from_existing_pv
            (prefix ++ three_digits i)
            (a.persistent_volumes (2 * i + 1))
          ≡ r
        → Sound (on_existing a cap_bytes reserved rest r)
    on_existing_lem (err e) eq name h = absurd (cc h)
    on_existing_lem (ok found) eq name h =
        on_instance_lem found eq (a.get_nas_instance found) refl name h

  on_new_lem : (key : Str) (r : Outcome (Option Str)) → Sound (some (on_new a key r))
  on_new_lem key (err e) name h = absurd (cc h)
  on_new_lem key (ok (some x)) name h = absurd (cc h)
  on_new_lem key (ok none) name h = absurd (cc h)

  on_reserved_lem :
      (i : ℕ) (rest : Option (Outcome Place))
      → Sound rest
      → (r : Outcome ℤ)
      → get_nas_instance_reserved_cap (prefix ++ three_digits i) (a.persistent_volumes (2 * i)) ≡ r
      → Sound (on_reserved a cap_bytes (prefix ++ three_digits i) i rest r)
  on_reserved_lem i rest ih (err e) eq name h = absurd (cc h)
  on_reserved_lem i rest ih (ok reserved) eq name h = elim (Bool-cases (same_ℤ reserved (pos 0))) [
    | inl unused ↦
        on_new_lem (prefix ++ three_digits i)
          (get_shared_name_from_existing_nas (prefix ++ three_digits i) a.list_nas_instances) name
          (rw unused at h)
    | inr reserves ↦
        on_existing_lem i reserved eq rest ih
          (get_shared_name_from_existing_pv (prefix ++ three_digits i)
            (a.persistent_volumes (2 * i + 1)))
          refl name (rw reserves at h)
  ]

  place_loop_lem : (rounds i : ℕ) → Sound (place_loop a cap_bytes prefix rounds i)
  unfolding place_loop
  place_loop_lem zero i name h = absurd (cc h)
  place_loop_lem (suc rounds) i name h =
      on_reserved_lem i (place_loop a cap_bytes prefix rounds (i + 1))
        (place_loop_lem rounds (i + 1))
        (get_nas_instance_reserved_cap (prefix ++ three_digits i) (a.persistent_volumes (2 * i)))
        refl name h

-- The listings of volumes ask for storage that is not negative and sums to an int64.
abbrev pub AreAmounts : SharedAnswers → Type 0
AreAmounts a =
    (k : ℕ) (key : Str) (pvs : List PersistentVolume)
    → a.persistent_volumes k ≡ ok pvs
    → All (λ pv. IsAmount pv.storage) pvs × (total key pvs < two63)

-- The storage of an instance is a number of GiB whose bytes are an int64.
abbrev pub AreSized : SharedAnswers → Type 0
AreSized a =
    (name : Str) (n : NasInstance) (text : Str)
    → a.get_nas_instance name ≡ ok n
    → n.allocated_storage ≡ some text
    → (g : ℕ) × (parse_int text ≡ (pos g, true)) × (g < 8589934592)

-- An instance with room: it is the one that the handle of a volume listed for a key names, and what
-- is asked and what the volumes listed for that key ask for sum to no more than its storage.
abbrev pub HasRoom : SharedAnswers → ℕ → Str → Str → Type 0
HasRoom a asked prefix name =
    (n : NasInstance) × (text : Str) × (g i : ℕ) × (pvs others : List PersistentVolume)
    × (a.get_nas_instance name ≡ ok n)
    × (n.allocated_storage ≡ some text)
    × (parse_int text ≡ (pos g, true))
    × (a.persistent_volumes (2 * i) ≡ ok pvs)
    × (a.persistent_volumes (2 * i + 1) ≡ ok others)
    × NamedBy (prefix ++ three_digits i) others name
    × (asked + total (prefix ++ three_digits i) pvs ≤ g * 1073741824)

reserved_cap_inv :
    (key : Str) (x : Outcome (List PersistentVolume)) (reserved : ℤ)
    → get_nas_instance_reserved_cap key x ≡ ok reserved
    → (pvs : List PersistentVolume) × (x ≡ ok pvs) × (reserved ≡ reserved_from key (pos 0) pvs)
unfolding get_nas_instance_reserved_cap
reserved_cap_inv key (ok pvs) reserved h = (pvs, refl, cc h)
reserved_cap_inv key (err e) reserved h = absurd (cc h)

existing_pv_inv :
    (key name : Str) (x : Outcome (List PersistentVolume))
    → get_shared_name_from_existing_pv key x ≡ ok name
    → (pvs : List PersistentVolume) × (x ≡ ok pvs) × NamedBy key pvs name
unfolding get_shared_name_from_existing_pv
existing_pv_inv key name (ok pvs) h = (pvs, refl, name_in_pvs-NamedBy key pvs name h)
existing_pv_inv key name (err e) h = absurd (cc h)

storage_inv :
    (n : NasInstance) (capacity : ℤ) (s : Option Str)
    → n.allocated_storage ≡ s
    → get_nas_instance_capacity_bytes n ≡ some capacity
    → (text : Str) × (s ≡ some text) × (capacity ≡ capacity_of (parse_int text))
unfolding get_nas_instance_capacity_bytes
storage_inv n capacity none e h = absurd (cc (rw e at h))
storage_inv n capacity (some text) e h = (text, refl, cc (rw e at h))

-- Where the volumes listed ask for storage that is not negative and sums to an int64, and the storage
-- of each instance is a number of GiB whose bytes are an int64, a shared volume is put beside others
-- only on an instance that is there, that the handle of a volume listed for a key names, and whose
-- storage is at least the sum, as plain numbers, of the bytes asked and of what every volume whose
-- handle has that key in it asks for.
pub place_loop-HasRoom :
    (a : SharedAnswers) (asked : ℕ) (prefix : Str) (name : Str)
    → AreAmounts a
    → AreSized a
    → place_loop a (pos asked) prefix 10 1 ≡ some (ok (shared_nas name))
    → HasRoom a asked prefix name
place_loop-HasRoom a asked prefix name amounts sized h =
    let (n, capacity, reserved, i, hn, hc, hr, hp, fits) =
      place_loop_lem a (pos asked) prefix 10 1 name h in
    let key = prefix ++ three_digits i in
    let (pvs, listed, er) = reserved_cap_inv key (a.persistent_volumes (2 * i)) reserved hr in
    let (others, listed', named) = existing_pv_inv key name (a.persistent_volumes (2 * i + 1)) hp in
    let (text, stored, ec) = storage_inv n capacity n.allocated_storage refl hc in
    let (g, parsed, small) = sized name n text hn stored in
    let (plain, bounded) = amounts (2 * i) key pvs listed in
    let sum : reserved ≡ pos (total key pvs) = er ∙ reserved_from_start key pvs plain bounded in
    let size : capacity ≡ pos (g * 1073741824) =
      ec ∙ (ap capacity_of parsed ∙ gb_to_bytes_small g small) in
    (
      n,
      text,
      g,
      i,
      pvs,
      others,
      hn,
      stored,
      parsed,
      listed,
      listed',
      named,
      has_space_fits asked (g * 1073741824) (total key pvs) (omega (arith, small)) bounded
          (rw (sum, size) at fits),
    )
