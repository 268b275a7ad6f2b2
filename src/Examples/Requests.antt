-- ===== src/Examples/Requests.antt =====
-- Requests to the driver and its jobs at concrete inputs.
use nifcloud_nas_csi_driver.Base.{◌≡◌, refl, ◌≢◌, ◌↔◌, true, false, some, [], ◌∷◌, ◌++◌, arith, All}
use nifcloud_nas_csi_driver.Base.Text.{codes}
use nifcloud_nas_csi_driver.Base.Outcome.{ok, err, object_exists}
use nifcloud_nas_csi_driver.Driver.{
  AccessMode, VolumeCapability, mount, DriverConfig, Driver, modes, multi_node_multi_writer,
  new_nifcloud_nas_driver, create_delete_volume, create_delete_snapshot, list_snapshots,
  validate_volume_capabilities,
}
use nifcloud_nas_csi_driver.Driver.Requests.{Served, validate_volume_capabilities_iff}
use nifcloud_nas_csi_driver.Jobs.{Job, JobAnswers, remove_source_path_job, nfs_job}
use nifcloud_nas_csi_driver.Jobs.Runs.{IsElement, remove_source_path_job-args}

abbrev capability : VolumeCapability
capability = record { access_mode = some multi_node_multi_writer; access_type = some (mount []) }

capability_example :
    (validate_volume_capabilities modes (some capability ∷ []) ≡ ok tt)
    ↔ ((some capability ∷ [] ≢ []) × All (Served modes) (some capability ∷ []))
capability_example = validate_volume_capabilities_iff modes (some capability ∷ [])

abbrev config : DriverConfig
config = record {
  name = codes "nas";
  version = codes "1";
  node_id = codes "n";
  run_controller = true;
  run_node = false;
}

abbrev driver : Driver
driver = record {
  vcap =
      multi_node_multi_writer ∷ AccessMode.multi_node_single_writer
      ∷ AccessMode.multi_node_reader_only ∷ AccessMode.single_node_reader_only
      ∷ AccessMode.single_node_writer ∷ [];
  cscap = create_delete_volume ∷ create_delete_snapshot ∷ list_snapshots ∷ [];
  nscap = [];
  has_node_server = false;
  has_controller_server = true;
}

made_driver : new_nifcloud_nas_driver config ≡ ok driver
unfolding new_nifcloud_nas_driver
made_driver = refl

element : IsElement (codes "pvc-1")
unfolding IsElement
element = ((ground arith), (λ e. cc), (λ e. cc), λ e. cc)

remove_example :
    ((remove_source_path_job (codes "10.0.0.1") (codes "nas1") (codes "pvc-1")).args
      ≡ codes "rm" ∷ codes "-rf" ∷ (codes "/mnt/" ++ codes "pvc-1") ∷ [])
    × ((remove_source_path_job (codes "10.0.0.1") (codes "nas1") (codes "pvc-1")).server
        ≡ codes "10.0.0.1")
    × ((remove_source_path_job (codes "10.0.0.1") (codes "nas1") (codes "pvc-1")).path ≡ codes "/")
remove_example =
    remove_source_path_job-args (codes "10.0.0.1") (codes "nas1") (codes "pvc-1") element

-- The job is there already, is created again, runs and is complete.
abbrev answers : JobAnswers
answers = record {
  create = λ j. err object_exists;
  create_again = λ j. ok tt;
  conditions = ok [] ∷ ok (codes "Complete" ∷ []) ∷ [];
}

abbrev job : Job
job = nfs_job (codes "10.0.0.1") (codes "/") (codes "nas1") (codes "default")
