-- ===== src/Controller/Delete.antt =====
-- DeleteVolume and ValidateVolumeCapabilities of pkg/driver/controller.go.
use nifcloud_nas_csi_driver.Base.{Bool, Option, none, some, List, [], ◌∷◌, ◌++◌, if◌then◌else◌}
use nifcloud_nas_csi_driver.Base.Text.{Str, split}
use nifcloud_nas_csi_driver.Base.Outcome.{
  Outcome, Done, ok, err, status, invalid_argument, internal, not_found,
}
use nifcloud_nas_csi_driver.Queue.{OperateResourceQueue, queue, unset_queue}
use nifcloud_nas_csi_driver.Cloud.{NasInstance, get_nas_instance_from_volume_id}
use nifcloud_nas_csi_driver.Driver.{AccessMode, VolumeCapability, validate_volume_capabilities}
use nifcloud_nas_csi_driver.Jobs.{JobAnswers, JobCall, remove_source_path}
use nifcloud_nas_csi_driver.Controller.{get_nas_instance_private_ip}
use nifcloud_nas_csi_driver.Controller.Shared.{PersistentVolume, no_other_pvs_in_shared_nas}

pub data DeleteCall : Type 0 where
  job_call : JobCall → DeleteCall
  delete_nas : Str → DeleteCall

pub record DeleteAnswers : Type 0 where
  pub get_nas_instance : Str → Outcome NasInstance
  pub persistent_volumes : Outcome (List PersistentVolume)
  pub delete_nas_instance : Str → Outcome Done
  pub jobs : JobAnswers

-- The volume id, and of a shared volume the path: an id of three parts names it.
abbrev pub parts : Str → List Str → Str × Option Str
parts id (region ∷ name ∷ path ∷ []) = (region ++ b'/' ∷ name, some path)
parts id _ = (id, none)

unfoldable pub parse_volume_id : Str → Str × Option Str
unfolding split
parse_volume_id id = parts id (split b'/' id)

-- A run's answer, the queue of deletions and the calls; `none` where it waits for ever.
abbrev pub Deletion : Type 0
Deletion = Option (Outcome Done × OperateResourceQueue × List DeleteCall)

abbrev pub internal_error : {A : Type 0} → Outcome A → Outcome A
internal_error (ok x) = ok x
internal_error (err e) = err (status internal)

abbrev pub job_calls : List JobCall → List DeleteCall
job_calls [] = []
job_calls (c ∷ cs) = job_call c ∷ job_calls cs

abbrev pub delete_instance :
    DeleteAnswers
    → Str
    → OperateResourceQueue
    → List DeleteCall
    → Outcome Done × OperateResourceQueue × List DeleteCall
delete_instance a name q calls =
    (internal_error (a.delete_nas_instance name), q, calls ++ delete_nas name ∷ [])

-- The instance is deleted if no other volume is on it.
abbrev pub if_last :
    DeleteAnswers
    → Str
    → OperateResourceQueue
    → List DeleteCall
    → Outcome Bool
    → Outcome Done × OperateResourceQueue × List DeleteCall
if_last a name q calls (err e) = (err (status internal), q, calls)
if_last a name q calls (ok must_deleted) =
    if must_deleted then delete_instance a name q calls else (ok tt, q, calls)

abbrev pub removed :
    DeleteAnswers
    → NasInstance
    → Str
    → OperateResourceQueue
    → Outcome Done × List JobCall
    → Outcome Done × OperateResourceQueue × List DeleteCall
removed a n path q (err e, made) = (err (status internal), q, job_calls made)
removed a n path q (ok u, made) =
    if_last a n.identifier q (job_calls made)
      (no_other_pvs_in_shared_nas path n.identifier a.persistent_volumes)

abbrev pub queued :
    DeleteAnswers → NasInstance → Str → Option (Outcome Done × OperateResourceQueue) → Deletion
queued a n path none = none
queued a n path (some (err e, q)) = some (err (status internal), q, [])
queued a n path (some (ok u, q)) = some (
    removed a n path q
      (remove_source_path a.jobs (get_nas_instance_private_ip n) n.identifier path))

-- The deferred UnsetQueue of a run that ends with an error.
abbrev pub with_queue : Outcome Done → List DeleteCall → Option OperateResourceQueue → Deletion
with_queue r calls none = none
with_queue r calls (some q) = some (r, q, calls)

abbrev pub unqueued : Str → Deletion → Deletion
unqueued path none = none
unqueued path (some (ok u, q, calls)) = some (ok u, q, calls)
unqueued path (some (err e, q, calls)) = with_queue (err e) calls (unset_queue q path)

unfoldable pub delete_on :
    DeleteAnswers → OperateResourceQueue → NasInstance → Option Str → Deletion
unfolding queue unset_queue remove_source_path no_other_pvs_in_shared_nas
    get_nas_instance_private_ip
delete_on a q n none = some (delete_instance a n.identifier q [])
delete_on a q n (some path) = unqueued path (queued a n path (queue q path))

-- A volume that is not found is deleted.
abbrev pub on_answer :
    DeleteAnswers → OperateResourceQueue → Option Str → Outcome NasInstance → Deletion
on_answer a q path (err e) = some (ok tt, q, [])
on_answer a q path (ok n) = delete_on a q n path

abbrev pub on_parts : DeleteAnswers → OperateResourceQueue → Str × Option Str → Deletion
on_parts a q (id, path) = on_answer a q path (get_nas_instance_from_volume_id a.get_nas_instance id)

unfoldable pub delete_volume : DeleteAnswers → OperateResourceQueue → Str → Deletion
unfolding parse_volume_id get_nas_instance_from_volume_id delete_on
delete_volume a q [] = some (err (status invalid_argument), q, [])
delete_volume a q (c ∷ id) = on_parts a q (parse_volume_id (c ∷ id))

abbrev on_found :
    List AccessMode → List (Option VolumeCapability) → Outcome NasInstance → Outcome Done
on_found vcap caps (err e) = err (status not_found)
on_found vcap caps (ok n) = elim (validate_volume_capabilities vcap caps) [
  | ok u ↦ ok tt
  | err e ↦ err (status invalid_argument)
]

unfoldable pub controller_validate_volume_capabilities :
    List AccessMode
    → (Str → Outcome NasInstance)
    → Str
    → List (Option VolumeCapability)
    → Outcome Done
unfolding get_nas_instance_from_volume_id validate_volume_capabilities
controller_validate_volume_capabilities vcap get_nas_instance [] caps =
    err (status invalid_argument)
controller_validate_volume_capabilities vcap get_nas_instance (c ∷ id) [] =
    err (status invalid_argument)
controller_validate_volume_capabilities vcap get_nas_instance (c ∷ id) (cap ∷ caps) =
    on_found vcap (cap ∷ caps) (get_nas_instance_from_volume_id get_nas_instance (c ∷ id))
