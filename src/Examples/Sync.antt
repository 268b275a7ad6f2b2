-- ===== src/Examples/Sync.antt =====
-- Runs of the security group's syncer at concrete inputs.
use nifcloud_nas_csi_driver.Base.{◌≡◌, refl, false, [], ◌∷◌}
use nifcloud_nas_csi_driver.Base.Text.{codes, str_eq}
use nifcloud_nas_csi_driver.Base.Outcome.{ok, err, plain}
use nifcloud_nas_csi_driver.Syncer.{Config, Answers, NasSecurityGroup, new_nsg_syncer}
use nifcloud_nas_csi_driver.Syncer.Sync.{edit_stage, sync_nas_security_groups}
use nifcloud_nas_csi_driver.Syncer.Stage.{IsEdit, Synced, edit_stage-IsEdit, edit_stage-Synced}
use nifcloud_nas_csi_driver.Syncer.Restore.{NoMoves, sync_nas_security_groups-NoMoves}

abbrev config : Config
config = record { driver_name = codes "d"; cluster_uid = codes "u" }

-- One node, whose address is the group's only range or is not in the group.
abbrev answers : Answers
answers = record {
  now = 3600;
  csi_nodes = ok (record { annotations = (codes "d/privateIp", codes "10.0.0.5") ∷ [] } ∷ []);
  kube_system_uid = ok (codes "u");
  storage_classes =
      ok (record { provisioner = codes "d"; parameters = (codes "zone", codes "z") ∷ [] } ∷ []);
  get_security_group = λ name. ok (record { ip_ranges = [] });
  create_security_group = λ input. ok (record { ip_ranges = [] });
  persistent_volumes = ok [];
  get_instance = λ id. err plain;
  change_security_group = λ id group. ok tt;
  authorize_cidr_ip = λ name range. ok tt;
  revoke_cidr_ip = λ name range. ok tt;
  map_order = λ keys. keys;
}

abbrev group : NasSecurityGroup
group = record {
  ip_ranges = record { cidr_ip = codes "10.0.0.5/32"; range_status = codes "authorized" } ∷ [];
}

stage_example :
    IsEdit config answers
      (codes "cluster-u")
      (codes "10.0.0.6" ∷ [])
      group.ip_ranges
      []
      (edit_stage config answers
        (codes "cluster-u")
        (codes "10.0.0.6" ∷ [])
        group
        (new_nsg_syncer false)
        []).2
stage_example =
    edit_stage-IsEdit config answers (codes "cluster-u") (codes "10.0.0.6" ∷ []) group
      (new_nsg_syncer false) []

no_task :
    (edit_stage config answers
      (codes "cluster-u")
      (codes "10.0.0.5" ∷ [])
      group
      (new_nsg_syncer false)
      []).1.has_task
    ≡ false
unfolding edit_stage str_eq
no_task = refl

synced_example :
    Synced config answers (codes "cluster-u") (codes "10.0.0.5" ∷ []) group.ip_ranges []
synced_example =
    edit_stage-Synced config answers (codes "cluster-u") (codes "10.0.0.5" ∷ []) group
      (new_nsg_syncer false) [] no_task

not_restoring : (new_nsg_syncer false).restore_cluster_id ≡ false
unfolding new_nsg_syncer
not_restoring = refl

moves_example :
    ((sync_nas_security_groups config answers (new_nsg_syncer false)).1.restore_cluster_id ≡ false)
    × NoMoves (sync_nas_security_groups config answers (new_nsg_syncer false)).2
moves_example = sync_nas_security_groups-NoMoves config answers (new_nsg_syncer false) not_restoring
