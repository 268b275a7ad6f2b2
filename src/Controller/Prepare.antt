-- ===== src/Controller/Prepare.antt =====
-- CreateVolume of pkg/driver/controller.go before it asks the cloud: what the request is for.
use nifcloud_nas_csi_driver.Base.{Option, none, some, [], ◌∷◌, if◌then◌else◌}
use nifcloud_nas_csi_driver.Base.Text.{Str, codes, str_eq}
use nifcloud_nas_csi_driver.Base.Outcome.{Outcome, ok, err, status, invalid_argument}
use nifcloud_nas_csi_driver.Base.Int.{ℤ}
use nifcloud_nas_csi_driver.Syncer.{Config, get_security_group_name}
use nifcloud_nas_csi_driver.Controller.{
  CreateNasInstanceInput, generate_nas_instance_input, ContentSource, snapshot, other_source,
  CreateVolumeRequest,
}
use nifcloud_nas_csi_driver.Controller.Annotations.{get_annotations_from_pvc}
use nifcloud_nas_csi_driver.Controller.Finish.{CreateAnswers}

-- What the request asks for, before the cloud is asked.
pub record Prepared : Type 0 where
  pub input : CreateNasInstanceInput
  pub snapshot_id : Str
  pub cidr : Str
  pub permission : Str

abbrev pub snapshot_of : Option ContentSource → Outcome Str
snapshot_of none = ok []
snapshot_of (some (snapshot (some id))) = ok id
snapshot_of (some (snapshot none)) = err (status invalid_argument)
snapshot_of (some other_source) = err (status invalid_argument)

abbrev pub unless_common : Option Str → Option Str
unless_common none = none
unless_common (some network) =
    if str_eq network (codes "net-COMMON_PRIVATE") then none else some network

abbrev pub with_annotations : CreateNasInstanceInput → Str → Outcome (Str × Str) → Outcome Prepared
with_annotations input id (err e) = err (status invalid_argument)
with_annotations input id (ok (cidr, permission)) =
    ok (record { input = input; snapshot_id = id; cidr = cidr; permission = permission })

abbrev pub with_snapshot :
    CreateNasInstanceInput → Outcome (Str × Str) → Outcome Str → Outcome Prepared
with_snapshot input annotations (err e) = err e
with_snapshot input annotations (ok id) = with_annotations input id annotations

abbrev pub with_group :
    CreateVolumeRequest
    → CreateNasInstanceInput
    → Outcome (Str × Str)
    → Outcome Str
    → Outcome Prepared
with_group req input annotations (err e) = err (status invalid_argument)
with_group req input annotations (ok group) =
    with_snapshot (record input { security_groups = group ∷ [] }) annotations
      (snapshot_of req.content_source)

abbrev pub with_nas_input :
    CreateVolumeRequest
    → Outcome (Str × Str)
    → Outcome Str
    → Outcome CreateNasInstanceInput
    → Outcome Prepared
with_nas_input req annotations group (err e) = err (status invalid_argument)
with_nas_input req annotations group (ok input) =
    with_group req (record input { network_id = unless_common input.network_id }) annotations group

unfoldable pub prepare_request :
    Config → CreateAnswers → CreateVolumeRequest → Str → ℤ → Outcome Prepared
unfolding generate_nas_instance_input get_security_group_name get_annotations_from_pvc
prepare_request config a req name cap_bytes =
    with_nas_input req (get_annotations_from_pvc config.driver_name a.pvcs req.name)
      (get_security_group_name config a.kube_system_uid)
      (generate_nas_instance_input name cap_bytes req.parameters)
