-- ===== src/Driver/Requests.antt =====
-- Which requests the driver of pkg/driver/driver.go lets through.
use nifcloud_nas_csi_driver.Base.{
  ◌≡◌, refl, subst, ◌≢◌, ◌↔◌, ◌⊎◌, inl, inr, true, false, Option, none, some, List, [], ◌∷◌, arith,
  Bool-cases, All,
}
use nifcloud_nas_csi_driver.Base.Text.{Str}
use nifcloud_nas_csi_driver.Base.Outcome.{Done, ok, bind_ok}
use nifcloud_nas_csi_driver.Driver.{
  AccessMode, VolumeCapability, AccessType, block, mount, DriverConfig, Driver,
  new_nifcloud_nas_driver, supports_mode, validate_volume_capability, validate_each,
  validate_volume_capabilities, has_rpc, validate_controller_service_request, create_delete_volume,
  create_delete_snapshot, list_snapshots,
}

-- A capability that can be served: a mode of the driver, and a mount.
abbrev pub Served : List AccessMode → Option VolumeCapability → Type 0
Served vcap none = ⊥
Served vcap (some c) =
    ((m : AccessMode) × (c.access_mode ≡ some m) × (supports_mode vcap m ≡ true))
    × ((flags : List Str) × (c.access_type ≡ some (mount flags)))

parts_iff :
    (vcap : List AccessMode) (m : Option AccessMode) (t : Option AccessType)
    → (validate_volume_capability vcap (some (record { access_mode = m; access_type = t })) ≡ ok tt)
      ↔ Served vcap (some (record { access_mode = m; access_type = t }))
unfolding validate_volume_capability
parts_iff vcap none t = ground arith
parts_iff vcap (some m) none = ground arith
parts_iff vcap (some m) (some block) = ground arith
parts_iff vcap (some m) (some (mount flags)) = elim (Bool-cases (supports_mode vcap m)) [
  | inl good ↦ rw good ((λ h. ((m, refl, good), (flags, refl))), λ h. refl)
  | inr bad ↦ rw bad ((λ h. absurd (cc h)), λ h. absurd (refused bad h))
]
  where
    some-injective : {A : Type 0} (x y : A) → some x ≡ some y → x ≡ y
    some-injective x y e = cc

    refused :
        supports_mode vcap m ≡ false
        → ((x : AccessMode) × (some m ≡ some x) × (supports_mode vcap x ≡ true))
          × ((fs : List Str) × (some (mount flags) ≡ some (mount fs)))
        → ⊥
    refused bad ((x, e, good), k) =
        absurd (cc (good, subst (λ y. supports_mode vcap y ≡ false) (some-injective m x e) bad))

Served-iff :
    (vcap : List AccessMode) (c : Option VolumeCapability)
    → (validate_volume_capability vcap c ≡ ok tt) ↔ Served vcap c
unfolding validate_volume_capability
Served-iff vcap none = ground arith
Served-iff vcap (some c) = parts_iff vcap c.access_mode c.access_type

each_iff :
    (vcap : List AccessMode) (cs : List (Option VolumeCapability))
    → (validate_each vcap cs ≡ ok tt) ↔ All (Served vcap) cs
unfolding validate_each
each_iff vcap [] = ground arith
each_iff vcap (c ∷ cs) = (
  λ h.
      both (each_iff vcap cs).0
        (bind_ok (validate_volume_capability vcap c) (λ x. validate_each vcap cs) h),
  λ (hc, hs). rw ((Served-iff vcap c).1 hc) ((each_iff vcap cs).1 hs),
)
  where
    both :
        (validate_each vcap cs ≡ ok tt → All (Served vcap) cs)
        → ((a : Done) × (validate_volume_capability vcap c ≡ ok a)
            × (validate_each vcap cs ≡ ok tt))
        → Served vcap c × All (Served vcap) cs
    both ih (a, e, es) = ((Served-iff vcap c).0 e, ih es)

-- validateVolumeCapabilities accepts a list exactly if it is not empty and every capability in it can
-- be served.
pub validate_volume_capabilities_iff :
    (vcap : List AccessMode) (cs : List (Option VolumeCapability))
    → (validate_volume_capabilities vcap cs ≡ ok tt) ↔ ((cs ≢ []) × All (Served vcap) cs)
unfolding validate_volume_capabilities
validate_volume_capabilities_iff vcap [] = ground arith
validate_volume_capabilities_iff vcap (c ∷ cs) = ground (arith, each_iff vcap (c ∷ cs))

-- A driver that NewNifcloudNasDriver makes runs a server, has a node id if it runs the node server,
-- and answers requests to create volumes, to create snapshots and to list them exactly if it runs the
-- controller.
pub new_nifcloud_nas_driver-requests :
    (c : DriverConfig) (d : Driver)
    → new_nifcloud_nas_driver c ≡ ok d
    → ((c.run_controller ≡ true) ⊎ (c.run_node ≡ true))
      × (d.has_node_server ≡ c.run_node)
      × ((c.run_node ≡ false) ⊎ (c.node_id ≢ []))
      × ((validate_controller_service_request d create_delete_volume ≡ ok tt)
          ↔ (c.run_controller ≡ true))
      × ((validate_controller_service_request d create_delete_snapshot ≡ ok tt)
          ↔ (c.run_controller ≡ true))
      × ((validate_controller_service_request d list_snapshots ≡ ok tt) ↔ (c.run_controller ≡ true))
unfolding new_nifcloud_nas_driver validate_controller_service_request has_rpc
new_nifcloud_nas_driver-requests c d h = grind arith
