-- ===== src/Controller/VolumeIds.antt =====
-- The ids of shared volumes of pkg/driver/controller.go, as DeleteVolume reads them again.
use nifcloud_nas_csi_driver.Base.{◌≡◌, refl, subst, true, some, [], ◌∷◌, ◌++◌, append_assoc}
use nifcloud_nas_csi_driver.Base.Text.{Str, split, Lacks, split-lacking, split-append}
use nifcloud_nas_csi_driver.Base.Outcome.{ok}
use nifcloud_nas_csi_driver.Cloud.{
  NasInstance, generate_volume_id_from_nas_instance, name_of_volume_id, name_of_volume_id-generate,
}
use nifcloud_nas_csi_driver.Controller.{
  CreateVolumeRequest, Volume, is_shared, nas_instance_to_csi_volume,
}
use nifcloud_nas_csi_driver.Controller.Delete.{parse_volume_id}

abbrev IdAndPath : (id path : Str) (vol : Volume) → Type 0
IdAndPath id path vol = (vol.volume_id ≡ id) × (vol.path ≡ path)

some_Volume :
    (id path : Str) (v w : Volume) → IdAndPath id path v → some v ≡ some w → IdAndPath id path w
some_Volume id path v w (e, f) h =
    let same : v ≡ w = cc h in
    subst (λ (x : Volume). (x.volume_id ≡ id) × (x.path ≡ path)) same (e, f)

module _ (region : Str) (n : NasInstance) (req : CreateVolumeRequest) where
  shared_volume :
      (vol : Volume)
      → is_shared req ≡ true
      → nas_instance_to_csi_volume region n req ≡ some vol
      → IdAndPath (generate_volume_id_from_nas_instance region n ++ b'/' ∷ req.name) req.name vol
  unfolding nas_instance_to_csi_volume
  shared_volume vol shared h = some_Volume _ _ _ vol (refl, refl) (rw shared at h)

  split_shared :
      Lacks b'/' region
      → Lacks b'/' n.identifier
      → Lacks b'/' req.name
      → split b'/' (generate_volume_id_from_nas_instance region n ++ b'/' ∷ req.name)
        ≡ region ∷ n.identifier ∷ req.name ∷ []
  unfolding generate_volume_id_from_nas_instance
  split_shared r i p = rw (append_assoc region (b'/' ∷ n.identifier) (b'/' ∷ req.name)) (
      rw (split-append b'/' region (n.identifier ++ b'/' ∷ req.name) r)
        (rw (split-append b'/' n.identifier req.name i) (rw (split-lacking b'/' req.name p) refl)))

  parse_shared :
      (id path : Str)
      → split b'/' id ≡ region ∷ n.identifier ∷ path ∷ []
      → parse_volume_id id ≡ (generate_volume_id_from_nas_instance region n, some path)
  unfolding parse_volume_id generate_volume_id_from_nas_instance
  parse_shared id path h = rw h refl

-- DeleteVolume reads the id of a shared volume as the instance's volume id and the volume's path, and
-- the first as the instance's name, where the region and the names have no slash.
pub parse_volume_id-nas_instance_to_csi_volume :
    (region : Str) (n : NasInstance) (req : CreateVolumeRequest) (vol : Volume)
    → Lacks b'/' region
    → Lacks b'/' n.identifier
    → Lacks b'/' req.name
    → is_shared req ≡ true
    → nas_instance_to_csi_volume region n req ≡ some vol
    → (parse_volume_id vol.volume_id
        ≡ (generate_volume_id_from_nas_instance region n, some vol.path))
      × (name_of_volume_id (parse_volume_id vol.volume_id).0 ≡ ok n.identifier)
unfolding parse_volume_id nas_instance_to_csi_volume
parse_volume_id-nas_instance_to_csi_volume region n req vol r i p shared h =
    let (e, f) = shared_volume region n req vol shared h in
    let parsed : parse_volume_id vol.volume_id
        ≡ (generate_volume_id_from_nas_instance region n, some vol.path) =
      rw (e, f)
        (parse_shared region n req
          (generate_volume_id_from_nas_instance region n ++ b'/' ∷ req.name) req.name
          (split_shared region n req r i p)) in
    (parsed, rw parsed (name_of_volume_id-generate region n r i))
