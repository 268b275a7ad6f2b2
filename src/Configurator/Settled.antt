-- ===== src/Configurator/Settled.antt =====
-- What setStorageClasses of pkg/driver/configurator.go leaves for getStorageClasses to read.
use nifcloud_nas_csi_driver.Base.{
  ℕ, ◌≡◌, refl, ap, ◌∙◌, ◌≢◌, ◌⊎◌, inl, inr, Bool, true, false, not, ◌&&◌, ◌||◌, some, List, [],
  ◌∷◌, Bool-cases, In,
}
use nifcloud_nas_csi_driver.Base.Text.{Str, str_eq, str_eq_iff, str_eq_refl}
use nifcloud_nas_csi_driver.Base.Outcome.{ok}
use nifcloud_nas_csi_driver.Configurator.Classes.{
  ClassObject, ClassApi, parameter, ClassPlace, read_class, read_classes, or_unset,
  get_storage_classes, Settings, passes, set_storage_classes,
}
use nifcloud_nas_csi_driver.Configurator.Recreated.{IsLawful, set_storage_classes_lem}

-- Reading classes of which all that are the driver's are set with a zone and a network.
module _ (c : Settings) (a b : ℕ) (zone network_id : Str) (hz : c.zone ≡ a ∷ zone)
    (hn : c.network_id ≡ b ∷ network_id) where
  abbrev Settled : ClassPlace
  Settled = record { must_update = false; zone = a ∷ zone; network_id = b ∷ network_id }

  abbrev Unread : ClassPlace
  Unread = record { must_update = false; zone = []; network_id = [] }

  set_class_lem :
      (cl : ClassObject)
      → str_eq cl.provisioner c.driver_name ≡ true
      → passes c cl ≡ true
      → (read_class cl Unread ≡ Settled) × (read_class cl Settled ≡ Settled)
  set_class_lem cl mine h = (
    rw (same.0, same.1) refl,
    rw (same.0, same.1, str_eq_refl (a ∷ zone), str_eq_refl (b ∷ network_id)) refl,
  )
    where
      both : (x y : Bool) → (not true || (x && y)) ≡ true → (x ≡ true) × (y ≡ true)
      both true true e = (refl, refl)
      both true false e = absurd (cc e)
      both false y e = absurd (cc e)

      same : (parameter "zone" cl ≡ a ∷ zone) × (parameter "networkId" cl ≡ b ∷ network_id)
      same =
          let (z, n) =
            both (str_eq (parameter "zone" cl) c.zone)
              (str_eq (parameter "networkId" cl) c.network_id) (rw mine at h) in
          ((str_eq_iff _ _).0 z ∙ hz, (str_eq_iff _ _).0 n ∙ hn)

  read_classes_lem :
      (cls : List ClassObject)
      → ((cl : ClassObject) → In cl cls → passes c cl ≡ true)
      → read_classes c.driver_name cls Settled ≡ Settled
  unfolding read_classes
  read_classes_lem [] all = refl
  read_classes_lem (cl ∷ cls) all = elim (Bool-cases (str_eq cl.provisioner c.driver_name)) [
    | inl mine ↦
        rw (mine, (set_class_lem cl mine (all cl (inl refl))).1)
          (read_classes_lem cls (λ d m. all d (inr m)))
    | inr other ↦ rw other (read_classes_lem cls (λ d m. all d (inr m)))
  ]

  read_unread_lem :
      (cls : List ClassObject) (mine : ClassObject)
      → ((cl : ClassObject) → In cl cls → passes c cl ≡ true)
      → In mine cls
      → str_eq mine.provisioner c.driver_name ≡ true
      → read_classes c.driver_name cls Unread ≡ Settled
  unfolding read_classes
  read_unread_lem [] mine all m hm = absurd m
  read_unread_lem (cl ∷ cls) mine all m hm =
      elim (Bool-cases (str_eq cl.provisioner c.driver_name)) [
        | inl own ↦
            rw (own, (set_class_lem cl own (all cl (inl refl))).0)
              (read_classes_lem cls (λ d i. all d (inr i)))
        | inr other ↦ rw other (read_unread_lem cls mine (λ d i. all d (inr i)) (later other m) hm)
      ]
    where
      later : str_eq cl.provisioner c.driver_name ≡ false → In mine (cl ∷ cls) → In mine cls
      later other (inl e) = absurd (cc (other, hm, ap (λ x. str_eq x.provisioner c.driver_name) e))
      later other (inr i) = i

-- After a setStorageClasses that succeeds for a zone and a network, getStorageClasses finds nothing
-- to update and reads that zone and that network, where the driver has a class at all.
pub set_storage_classes-settles :
    (api : ClassApi) (lawful : IsLawful api) (c : Settings) (s t : api.State)
    (cls : List ClassObject) (mine : ClassObject)
    → (c.zone ≢ [])
    → (c.network_id ≢ [])
    → set_storage_classes api c s ≡ some (ok tt, t)
    → api.list t ≡ ok cls
    → In mine cls
    → mine.provisioner ≡ c.driver_name
    → get_storage_classes c.driver_name (api.list t)
      ≡ ok (record { must_update = false; zone = c.zone; network_id = c.network_id })
unfolding get_storage_classes
set_storage_classes-settles api lawful c s t cls mine hz hn h hl m own =
    rw hl (by_place c.zone c.network_id refl refl hz hn)
  where
    all : (cl : ClassObject) → In cl cls → passes c cl ≡ true
    all cl i =
        settled (set_storage_classes_lem api lawful c s t h cl ((lawful.lists t cls hl cl).0 i))
      where
        settled : (passes c cl ≡ true) ⊎ In cl [] → passes c cl ≡ true
        settled (inl p) = p
        settled (inr i') = absurd i'

    by_place :
        (zone network_id : Str)
        → c.zone ≡ zone
        → c.network_id ≡ network_id
        → (zone ≢ [])
        → (network_id ≢ [])
        → ok (
            or_unset (
              read_classes c.driver_name cls
                (record { must_update = false; zone = []; network_id = [] })))
          ≡ ok (record { must_update = false; zone = zone; network_id = network_id })
    by_place [] n ez en hz' hn' = absurd (hz' refl)
    by_place (a ∷ z) [] ez en hz' hn' = absurd (hn' refl)
    by_place (a ∷ z) (b ∷ n) ez en hz' hn' =
        rw (read_unread_lem c a b z n ez en cls mine all m ((str_eq_iff _ _).1 own)) refl
