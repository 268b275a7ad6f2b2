-- ===== src/Controller/Finish.antt =====
-- CreateVolume of pkg/driver/controller.go from the instance on: the waits, NoRootSquash, the source
-- path, the volume and its snapshot.
use nifcloud_nas_csi_driver.Base.Text.{is_empty}
use nifcloud_nas_csi_driver.Base.{ℕ, ◌||◌, Option, none, some, List, [], ◌∷◌, ◌++◌, if◌then◌else◌}
use nifcloud_nas_csi_driver.Base.Text.{Str, codes, str_eq}
use nifcloud_nas_csi_driver.Base.Outcome.{Code, Outcome, Done, ok, err, plain, status, internal}
use nifcloud_nas_csi_driver.Cloud.{NasInstance}
use nifcloud_nas_csi_driver.Driver.{AccessMode}
use nifcloud_nas_csi_driver.Jobs.{JobAnswers, JobCall, make_source_path, change_mode_source_path}
use nifcloud_nas_csi_driver.Controller.{
  CreateNasInstanceInput, CreateVolumeRequest, Volume, is_shared, nas_instance_to_csi_volume,
  get_nas_instance_private_ip,
}
use nifcloud_nas_csi_driver.Controller.Annotations.{Pvc, wait_for_nas_instance_available}
use nifcloud_nas_csi_driver.Controller.Shared.{SharedAnswers}

-- The calls that change something outside.
pub data Call : Type 0 where
  create_nas : CreateNasInstanceInput → Call
  modify_nas : Str → Call
  job_call : JobCall → Call

-- What is answered during one run. GetNasInstance is asked up to three times: whether the instance
-- is there (0), behind the first wait (1) and behind the second (2), and the waits ask it until it
-- is available or the backoff gives up. Restoring a snapshot is another component.
pub record CreateAnswers : Type 0 where
  pub region : Str
  pub vcap : List AccessMode
  pub shared : SharedAnswers
  pub kube_system_uid : Outcome Str
  pub pvcs : Outcome (List Pvc)
  pub get_nas_instance : ℕ → Str → Outcome NasInstance
  pub polls : ℕ → Str → List (Outcome NasInstance)
  pub list_nas_instances : Outcome (List NasInstance)
  pub create_nas_instance : CreateNasInstanceInput → Outcome NasInstance
  pub modify_nas_instance : Str → Outcome NasInstance
  pub jobs : JobAnswers
  pub restore_snapshot : Str → Volume → Outcome Done

-- A part of a run that makes calls: `none` where Go panics or waits for ever.
abbrev pub Act : Type 0 → Type 0
Act A = List Call → Option (Outcome A × List Call)

abbrev pub run_next :
    {A B : Type 0} → (A → Act B) → Option (Outcome A × List Call) → Option (Outcome B × List Call)
run_next f none = none
run_next f (some (err e, calls)) = some (err e, calls)
run_next f (some (ok x, calls)) = f x calls

infixl 5 ◌>>=◌ ◌>>◌
abbrev pub ◌>>=◌ : {A B : Type 0} → Act A → (A → Act B) → Act B
(m >>= f) calls = run_next f (m calls)

abbrev pub ◌>>◌ : {A B : Type 0} → Act A → Act B → Act B
m >> k = m >>= λ _. k

-- A result whose error gets the gRPC code, and one with a call before it.
abbrev pub coded : {A : Type 0} → Code → Outcome A → Outcome A
coded code (ok x) = ok x
coded code (err e) = err (status code)

abbrev pub give : {A : Type 0} → Code → Outcome A → Act A
give code r calls = some (coded code r, calls)

abbrev pub call : {A : Type 0} → Call → Outcome A → Act A
call c r calls = some (coded internal r, calls ++ c ∷ [])

abbrev pub job_calls : List JobCall → List Call
job_calls [] = []
job_calls (c ∷ cs) = job_call c ∷ job_calls cs

abbrev pub job : Outcome Done × List JobCall → Act Done
job (r, made) calls = some (coded internal r, calls ++ job_calls made)

abbrev pub done : Act Done
done = give internal (ok tt)

-- A wait, and the instance behind it.
unfoldable pub await : CreateAnswers → ℕ → Str → Act NasInstance
unfolding wait_for_nas_instance_available
await a moment name = do
  _ ← give internal (wait_for_nas_instance_available (a.polls moment name))
  give internal (a.get_nas_instance moment name)

unfoldable pub make_available : CreateAnswers → Str → NasInstance → Act NasInstance
unfolding await
make_available a name n =
    if str_eq n.instance_status (codes "available")
    then give internal (ok n)
    else if str_eq n.instance_status (codes "creating")
        || str_eq n.instance_status (codes "modifying")
    then await a 1 name
    else give internal (err plain)

unfoldable pub set_no_root_squash : CreateAnswers → Str → NasInstance → Act NasInstance
unfolding await
set_no_root_squash a name n =
    if str_eq n.no_root_squash (codes "false")
    then (do _ ← call (modify_nas name) (a.modify_nas_instance name); await a 2 name)
    else give internal (ok n)

unfoldable pub prepare_source_path :
    CreateAnswers → CreateVolumeRequest → Str → NasInstance → Act Done
unfolding is_shared make_source_path change_mode_source_path get_nas_instance_private_ip
prepare_source_path a req permission n =
    if is_shared req
    then job
        (make_source_path a.jobs (get_nas_instance_private_ip n) n.identifier req.name permission)
    else if is_empty permission
    then done
    else job
        (change_mode_source_path a.jobs (get_nas_instance_private_ip n) n.identifier [] permission)

abbrev pub or_panic : Option Volume → Act Volume
or_panic none calls = none
or_panic (some vol) calls = some (ok vol, calls)

abbrev pub restored : CreateAnswers → Str → Volume → Act Volume
restored a snapshot_id vol = if is_empty snapshot_id then give internal (ok vol) else (do
  _ ← give internal (a.restore_snapshot snapshot_id vol)
  give internal (ok (record vol { from_snapshot = some snapshot_id })))

-- From the instance to the volume.
unfoldable pub finish_volume :
    CreateAnswers → CreateVolumeRequest → Str → Str → Str → NasInstance → Act Volume
unfolding make_available set_no_root_squash prepare_source_path nas_instance_to_csi_volume
finish_volume a req name snapshot_id permission n0 = do
  n1 ← make_available a name n0
  n ← set_no_root_squash a name n1
  _ ← prepare_source_path a req permission n
  vol ← or_panic (nas_instance_to_csi_volume a.region n req)
  restored a snapshot_id vol

unfoldable pub create_and_finish :
    CreateAnswers → CreateVolumeRequest → Str → Str → Str → CreateNasInstanceInput → Act Volume
unfolding finish_volume
create_and_finish a req name snapshot_id permission input = do
  n ← call (create_nas input) (a.create_nas_instance input)
  finish_volume a req name snapshot_id permission n
