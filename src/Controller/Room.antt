-- ===== src/Controller/Room.antt =====
-- What the volumes listed for an instance reserve on it, and when a request fits beside them: in
-- plain sums, without the wrap-around of int64.
use nifcloud_nas_csi_driver.Base.{
  ℕ, ◌+◌, ◌≤◌, ◌<◌, ◌≡◌, refl, ap, ◌∙◌, inl, inr, true, Option, none, some, List, [], ◌∷◌, arith,
  if◌then◌else◌, Bool-cases, All, In,
}
use nifcloud_nas_csi_driver.Base.Text.{Str, split, contains as str_contains}
use nifcloud_nas_csi_driver.Base.Outcome.{ok}
use nifcloud_nas_csi_driver.Base.Int.{ℤ, pos, negsuc, ◌+ℤ◌, ◌-ℤ◌, wrap, two63}
use nifcloud_nas_csi_driver.Controller.Shared.{
  PersistentVolume, in_nas, storage_of, reserved_from, has_space, middle, name_in_pvs,
}

abbrev amount : Option ℤ → ℕ
amount none = 0
amount (some (pos bytes)) = bytes
amount (some (negsuc n)) = 0

-- A storage request that is not negative.
unfoldable pub IsAmount : Option ℤ → Type 0
IsAmount none = Unit
IsAmount (some (pos bytes)) = Unit
IsAmount (some (negsuc n)) = ⊥

-- The sum of the storage that the volumes with a name in their handle ask for.
unfoldable pub total : Str → List PersistentVolume → ℕ
unfolding str_contains
total name [] = 0
total name (pv ∷ pvs) =
    if in_nas name pv then amount pv.storage + total name pvs else total name pvs

amount_lem : (s : Option ℤ) → IsAmount s → storage_of s ≡ pos (amount s)
unfolding IsAmount
amount_lem none h = refl
amount_lem (some (pos bytes)) h = refl
amount_lem (some (negsuc n)) h = absurd h

wrap-pos : (m n : ℕ) → m + n < two63 → wrap (pos m +ℤ pos n) ≡ pos (m + n)
unfolding ◌+ℤ◌ wrap
wrap-pos m n h = ground arith

reserved_from-total :
    (name : Str) (pvs : List PersistentVolume) (m : ℕ)
    → All (λ pv. IsAmount pv.storage) pvs
    → m + total name pvs < two63
    → reserved_from name (pos m) pvs ≡ pos (m + total name pvs)
unfolding reserved_from total
reserved_from-total name [] m hs h = grind arith
reserved_from-total name (pv ∷ pvs) m (hv, hs) h = elim (Bool-cases (in_nas name pv)) [
  | inr out ↦ rw out (reserved_from-total name pvs m hs (rw out at h))
  | inl here ↦
      let k : m + (amount pv.storage + total name pvs) < two63 = rw here at h in
      rw (here, amount_lem pv.storage hv, wrap-pos m (amount pv.storage) (omega arith))
        (reserved_from-total name pvs (m + amount pv.storage) hs (omega arith)
          ∙ ap pos (omega arith))
]

pub reserved_from_start :
    (name : Str) (pvs : List PersistentVolume)
    → All (λ pv. IsAmount pv.storage) pvs
    → total name pvs < two63
    → reserved_from name (pos 0) pvs ≡ pos (total name pvs)
reserved_from_start name pvs hs h =
    reserved_from-total name pvs 0 hs (omega (arith, h)) ∙ ap pos (omega arith)

pub has_space_fits :
    (cap capacity reserved : ℕ)
    → capacity < two63
    → reserved < two63
    → has_space (pos cap) (pos capacity) (pos reserved) ≡ true
    → cap + reserved ≤ capacity
unfolding ◌-ℤ◌ wrap
has_space_fits cap capacity reserved hc hr h = ground arith

-- A name is the middle of three parts of the handle of a volume of the list, and the handle has the
-- key in it.
abbrev pub NamedBy : Str → List PersistentVolume → Str → Type 0
NamedBy key pvs name =
    (pv : PersistentVolume) × (handle region own : Str) × In pv pvs
    × (pv.volume_handle ≡ some handle)
    × (str_contains handle key ≡ true)
    × (split b'/' handle ≡ region ∷ name ∷ own ∷ [])

middle_ok :
    (parts : List Str) (name : Str)
    → middle parts ≡ ok name
    → (region own : Str) × (parts ≡ region ∷ name ∷ own ∷ [])
middle_ok [] name h = absurd (cc h)
middle_ok (x ∷ []) name h = absurd (cc h)
middle_ok (x ∷ y ∷ []) name h = absurd (cc h)
middle_ok (x ∷ y ∷ z ∷ []) name h = (x, z, cc h)
middle_ok (x ∷ y ∷ z ∷ w ∷ r) name h = absurd (cc h)

NamedBy-later :
    (key name : Str) (pv : PersistentVolume) (pvs : List PersistentVolume)
    → NamedBy key pvs name
    → NamedBy key (pv ∷ pvs) name
NamedBy-later key name pv pvs (p, handle, region, own, m, e, here, parts) =
    (p, handle, region, own, inr m, e, here, parts)

pub name_in_pvs-NamedBy :
    (key : Str) (pvs : List PersistentVolume) (name : Str)
    → name_in_pvs key pvs ≡ ok name
    → NamedBy key pvs name
unfolding name_in_pvs
name_in_pvs-NamedBy key [] name h = absurd (cc h)
name_in_pvs-NamedBy key (pv ∷ pvs) name h =
    by_handle pv.volume_handle refl (name_in_pvs-NamedBy key pvs name) h
  where
    by_handle :
        (x : Option Str)
        → pv.volume_handle ≡ x
        → (name_in_pvs key pvs ≡ ok name → NamedBy key pvs name)
        → (elim x [
          | none ↦ name_in_pvs key pvs
          | some handle ↦
              if str_contains handle key then middle (split b'/' handle) else name_in_pvs key pvs
        ])
          ≡ ok name
        → NamedBy key (pv ∷ pvs) name
    by_handle none e ih k = NamedBy-later key name pv pvs (ih k)
    by_handle (some handle) e ih k = elim (Bool-cases (str_contains handle key)) [
      | inr out ↦ NamedBy-later key name pv pvs (ih (rw out at k))
      | inl here ↦
          let (region, own, parts) = middle_ok (split b'/' handle) name (rw here at k) in
          (pv, handle, region, own, inl refl, e, here, parts)
    ]
