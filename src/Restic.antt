-- ===== src/Restic.antt =====
-- The restic repository of pkg/driver/restic.go: its secrets, its Kubernetes jobs and what a job
-- prints. The decoding of JSON and of times and the Kubernetes API are arguments.
use nifcloud_nas_csi_driver.Base.{
  ℕ, zero, suc, ◌+◌, ◌-◌, ◌*◌, ◌/◌, ◌%◌, ◌^◌, ◌≤◌, ◌<◌, ◌≡◌, refl, sym, ap, ap₂, ◌∙◌, subst, ◌≢◌,
  ◌↔◌, ◌⊎◌, inl, inr, Bool, true, false, not, ◌&&◌, ◌||◌, Option, none, some, List, [], ◌∷◌, ◌++◌,
  map, append-nil, append_assoc, arith, ltb, leb, ◌==◌, if◌then◌else◌, ==_iff, Bool-cases,
  Option-cases, length, take, drop, get_elem?, All, In, In-append_left, In-append_right, In-snoc,
  bit_and,
}
use nifcloud_nas_csi_driver.Base.Keys.{
  add_key, delete_key, Distinct, In-add_key_self, In-add_key, In-delete_key, delete_key-In,
  delete_key-Distinct, add_key_new,
}
use nifcloud_nas_csi_driver.Base.Assoc.{find, put, remove, find-put, find-remove, map_laws}
use nifcloud_nas_csi_driver.Base.Text.{
  Str, codes, is_empty, or_empty, str_eq, str_eq_iff, str_eq_refl, mem?, mem?-In, In-mem?, split,
  cut, Lacks, split-lacking, split-append, cut-append, atoi, byte_text, contains as str_contains,
  has_prefix, digits_from,
}
use nifcloud_nas_csi_driver.Base.Table.{every_below, every_below-at}
use nifcloud_nas_csi_driver.Base.Outcome.{
  Code, Error, Outcome, Done, ok, err, plain, status, cloud, not_exist, object_exists,
  invalid_argument, not_found, already_exists, aborted, internal, unimplemented, ◌>>=◌, ◌>>◌,
  bind_ok,
}
use nifcloud_nas_csi_driver.Base.{String}
use nifcloud_nas_csi_driver.Base.Int.{ℤ, pos, negsuc}
use nifcloud_nas_csi_driver.Jobs.{clean, or_root, join_mnt}
pub mod Run
pub mod Calls
pub mod Cleanup
pub mod Repository

-- A restic snapshot, and what the driver reads of a backup's summary.
pub record ResticSnapshot : Type 0 where
  pub short_id : Str
  pub id : Str
  pub time : Str
  pub paths : List Str
  pub hostname : Str
  pub username : Str
  pub tree : Str
  pub parent : Str

pub record ResticBackupSummary : Type 0 where
  pub total_bytes_processed : ℤ
  pub snapshot_id : Str

-- The name behind the last slash, as filepath.Split cuts it.
abbrev pub file_of : List Str → Str
file_of [] = []
file_of (p ∷ []) = p
file_of (p ∷ q ∷ ps) = file_of (q ∷ ps)

unfoldable pub file_name : Str → Str
unfolding split
file_name path = file_of (split b'/' path)

abbrev first_file : List Str → Str
first_file [] = []
first_file (path ∷ paths) = file_name path

unfoldable pub get_source_volume_id : ResticSnapshot → Str
unfolding file_name
get_source_volume_id snap = first_file snap.paths

-- csi.Snapshot, with the time as the protobuf package gives it.
pub record CsiSnapshot (T : Type 0) : Type 0 where
  pub snapshot_id : Str
  pub source_volume_id : Str
  pub creation_time : T
  pub ready_to_use : Bool
  pub size_bytes : ℤ

abbrev pub timed_snapshot :
    {T : Type 0} → ResticSnapshot → ℤ → Str → Option T → Outcome (CsiSnapshot T)
timed_snapshot snap size volume_id none = err plain
timed_snapshot snap size [] (some ts) = err plain
timed_snapshot snap size (c ∷ volume_id) (some ts) = ok (record {
  snapshot_id = snap.short_id;
  source_volume_id = c ∷ volume_id;
  creation_time = ts;
  ready_to_use = true;
  size_bytes = size;
})

-- A size of 0 is left out of the message, which then reads as 0.
unfoldable pub new_csi_snapshot :
    {T : Type 0} → (Str → Option T) → ResticSnapshot → ℤ → Outcome (CsiSnapshot T)
unfolding get_source_volume_id
new_csi_snapshot timestamp snap size =
    timed_snapshot snap size (get_source_volume_id snap) (timestamp snap.time)

pub record Restic : Type 0 where
  pub pw : Str
  pub accesskey : Str
  pub secretkey : Str
  pub repository : Str
  pub image : Str

-- The keys of the secrets, or of the environment where the secrets have none.
abbrev pub or_env : Str → Str → Outcome Str
or_env [] [] = err plain
or_env [] (c ∷ env) = ok (c ∷ env)
or_env (c ∷ key) env = ok (c ∷ key)

abbrev pub with_keys : List (Str × Str) → Outcome Str → Outcome Str → Outcome Restic
with_keys secrets (err e) secretkey = err e
with_keys secrets (ok accesskey) (err e) = err e
with_keys secrets (ok accesskey) (ok secretkey) =
    if is_empty (or_empty (find (codes "resticRepository") secrets))
      || is_empty (or_empty (find (codes "resticPassword") secrets))
    then err plain
    else ok (record {
      pw = or_empty (find (codes "resticPassword") secrets);
      accesskey = accesskey;
      secretkey = secretkey;
      repository = or_empty (find (codes "resticRepository") secrets);
      image = codes "restic/restic:0.12.0";
    })

-- No secrets at all are Go's nil map.
unfoldable pub new_restic : (Str → Str) → Option (List (Str × Str)) → Outcome Restic
unfolding find
new_restic getenv none = err plain
new_restic getenv (some secrets) =
    with_keys secrets
      (or_env (or_empty (find (codes "accesskey") secrets)) (getenv (codes "AWS_ACCESS_KEY_ID")))
      (or_env (or_empty (find (codes "secretkey") secrets))
        (getenv (codes "AWS_SECRET_ACCESS_KEY")))

-- corev1.Secret, and batchv1.Job with the parts that the driver fills.
pub record ResticSecret : Type 0 where
  pub name : Str
  pub namespace : Str
  pub contents : List (Str × Str)

pub data VolumeSource : Type 0 where
  claim : Str → VolumeSource
  nfs : Str → Str → VolumeSource

pub record EnvVar : Type 0 where
  pub name : Str
  pub secret : Str
  pub key : Str

pub record VolumeMount : Type 0 where
  pub name : Str
  pub mount_path : Str
  pub read_only : Bool

pub record ResticJob : Type 0 where
  pub name : Str
  pub namespace : Str
  pub image : Str
  pub env : List EnvVar
  pub args : List Str
  pub volumes : List (Str × VolumeSource)
  pub mounts : List VolumeMount
  pub hostname : Str
  pub restart_policy : Str
  pub backoff_limit : ℕ

abbrev restic_secret_name : Str
restic_secret_name = codes "restic-secrets"

unfoldable pub restic_secret : Restic → Str → ResticSecret
restic_secret r namespace = record {
  name = restic_secret_name;
  namespace = namespace;
  contents =
      (codes "resticPassword", r.pw)
      ∷ (codes "accesskey", r.accesskey)
      ∷ (codes "secretkey", r.secretkey)
      ∷ (codes "resticRepository", r.repository)
      ∷ [];
}

abbrev from_secret : String → String → EnvVar
from_secret name key = record { name = codes name; secret = restic_secret_name; key = codes key }

unfoldable pub restic_job : Restic → Str → Str → ResticJob
restic_job r name namespace = record {
  name = name;
  namespace = namespace;
  image = r.image;
  env =
      from_secret "AWS_ACCESS_KEY_ID" "accesskey"
      ∷ from_secret "AWS_SECRET_ACCESS_KEY" "secretkey"
      ∷ from_secret "RESTIC_PASSWORD" "resticPassword"
      ∷ from_secret "RESTIC_REPOSITORY" "resticRepository"
      ∷ [];
  args = [];
  volumes = [];
  mounts = [];
  hostname = [];
  restart_policy = codes "Never";
  backoff_limit = 0;
}

abbrev with_args : ResticJob → List Str → ResticJob
with_args job args = record job { args = job.args ++ args }

abbrev with_volume : ResticJob → Str → VolumeSource → Str → Bool → ResticJob
with_volume job name source mount_path read_only = record job {
  volumes = job.volumes ++ (name, source) ∷ [];
  mounts =
      job.mounts ++ (record { name = name; mount_path = mount_path; read_only = read_only }) ∷ [];
}

unfoldable pub list_job : Restic → ResticJob
unfolding restic_job
list_job r =
    with_args (restic_job r (codes "restic-job-list-snapshots") (codes "default"))
      (codes "snapshots" ∷ codes "--json" ∷ [])

unfoldable pub backup_job : Restic → Str → Str → Str → Str → ResticJob
unfolding restic_job
backup_job r volume_id pvc namespace cluster_uid =
    let job =
      with_args (restic_job r (codes "restic-job-backup-" ++ volume_id) namespace)
        (codes "backup" ∷ codes "--json" ∷ codes "--tag" ∷ cluster_uid ∷ (b'/' ∷ volume_id) ∷ []) in
    record (with_volume job (codes "pvc") (claim pvc) (b'/' ∷ volume_id) true) {
      hostname = codes "restic-backup-job";
    }

-- resticJobDelete names its job after the snapshot.
unfoldable pub delete_snapshot_job : Restic → Str → ResticJob
unfolding restic_job
delete_snapshot_job r snapshot_id =
    with_args (restic_job r (codes "restic-job-delete-" ++ snapshot_id) (codes "default"))
      (codes "forget" ∷ codes "--prune" ∷ snapshot_id ∷ [])

unfoldable pub init_job : Restic → ResticJob
unfolding restic_job
init_job r =
    with_args (restic_job r (codes "restic-job-init") (codes "default")) (codes "init" ∷ [])

unfoldable pub restore_job : Restic → Str → Str → Str → Str → ResticJob
unfolding restic_job join_mnt
restore_job r snapshot_id ip path source =
    with_volume
      (with_args (restic_job r (codes "restic-job-restore-" ++ snapshot_id) (codes "default"))
        (codes "restore" ∷ codes "-t" ∷ codes "/mnt" ∷ snapshot_id ∷ []))
      (codes "restore-target") (nfs ip path) (join_mnt source) false
