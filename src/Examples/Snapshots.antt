-- ===== src/Examples/Snapshots.antt =====
-- Snapshots and restic jobs at concrete answers.
use nifcloud_nas_csi_driver.Base.{
  ℕ, ◌≡◌, refl, sym, subst, ◌≢◌, inl, inr, true, ◌||◌, none, some, List, [], ◌∷◌, ◌++◌, map, ◌==◌,
  if◌then◌else◌, In, All,
}
use nifcloud_nas_csi_driver.Base.Text.{Str, codes, str_eq, contains as str_contains}
use nifcloud_nas_csi_driver.Base.Outcome.{Outcome, ok}
use nifcloud_nas_csi_driver.Base.Int.{ℤ, pos}
use nifcloud_nas_csi_driver.Syncer.{Config}
use nifcloud_nas_csi_driver.Controller.{Volume}
use nifcloud_nas_csi_driver.Restic.{
  ResticSnapshot, CsiSnapshot, Restic, ResticJob, ResticSecret, restic_secret, list_job,
  new_csi_snapshot, file_name,
}
use nifcloud_nas_csi_driver.Restic.Run.{
  done, RunAnswers, RunCall, delete_job, delete_secret, output, do_restic_job,
}
use nifcloud_nas_csi_driver.Restic.Cleanup.{
  Made, NotFake, Completed, Logged, do_restic_job-deletes, do_restic_job-output,
}
use nifcloud_nas_csi_driver.Restic.Repository.{check_bucket, check_bucket-url}
use nifcloud_nas_csi_driver.Snapshots.{
  SnapshotContent, Outside, CreateSnapshotRequest, ListSnapshotsRequest, get_pvc_from_volume_id,
  run_job, create_snapshot,
}
use nifcloud_nas_csi_driver.Snapshots.Create.{BackedUp, create_snapshot-BackedUp}
use nifcloud_nas_csi_driver.Snapshots.Listing.{list_snapshots, matching, list_snapshots-matching}
use nifcloud_nas_csi_driver.Snapshots.Restore.{restore_snapshot, restore_snapshot-panics}

-- A cluster whose jobs complete, each with one pod that prints a line.
abbrev answers : Str → Str → RunAnswers
answers name line = record {
  create_secret = λ s. done tt;
  create_job = λ j. done tt;
  create_job_again = λ j. done tt;
  conditions = done [] ∷ done (codes "Complete" ∷ []) ∷ [];
  list_pods = done ((record { name = codes "p"; owners = name ∷ [] }) ∷ []);
  get_logs = λ p. done (line ∷ []);
  fake_logs = [];
}

abbrev restic : Restic
restic = record {
  pw = codes "w";
  accesskey = codes "a";
  secretkey = codes "k";
  repository = codes "s3:https://h/b";
  image = codes "restic/restic:0.12.0";
}

abbrev job : ResticJob
job = list_job restic

abbrev secret : ResticSecret
secret = restic_secret restic (codes "default")

abbrev answers_of_list : RunAnswers
answers_of_list = answers (codes "restic-job-list-snapshots") (codes "[1]")

deletes_example :
    (before : List RunCall) × ((do_restic_job answers_of_list job secret []).1
      ≡ before ++ delete_job job.namespace job.name ∷ delete_secret job.namespace secret.name ∷ [])
deletes_example = do_restic_job-deletes answers_of_list job secret [] (λ text e. cc e) (inl refl)

output_run : (do_restic_job answers_of_list job secret []).0 ≡ output (codes "[1]")
unfolding do_restic_job str_eq list_job
output_run = refl

no_fakes : (lines : List Str) → done (codes "[1]" ∷ []) ≡ done lines → All NotFake lines
unfolding str_contains
no_fakes [] e = absurd (cc e)
no_fakes (x ∷ []) e = (rw (same x e) refl, tt)
  where
    same : (x : Str) → done (codes "[1]" ∷ []) ≡ done (x ∷ []) → x ≡ codes "[1]"
    same x e = cc
no_fakes (x ∷ y ∷ lines) e = absurd (cc e)

output_example :
    Made answers_of_list job
    × Completed answers_of_list.conditions
    × Logged answers_of_list job (codes "[1]")
output_example =
    do_restic_job-output answers_of_list job secret [] (codes "[1]") (λ pod lines. no_fakes lines)
      output_run

no_unnamed :
    (region url : Str) (buckets : List Str)
    → ◌≡◌ {A = Outcome (List Str)} (ok (codes "b" ∷ [])) (ok buckets)
    → ¬ In [] buckets
no_unnamed region url buckets h m = empty_name (subst (λ l. In [] l) (buckets_of h) m)
  where
    buckets_of :
        ◌≡◌ {A = Outcome (List Str)} (ok (codes "b" ∷ [])) (ok buckets) → buckets ≡ codes "b" ∷ []
    buckets_of e = sym (cc e)

    empty_name : In [] (codes "b" ∷ []) → ⊥
    empty_name (inl e) = absurd (cc e)
    empty_name (inr i) = absurd i

bucket_example : check_bucket (λ region url. ok (codes "b" ∷ [])) restic ≢ ok tt
bucket_example =
    check_bucket-url (λ region url. ok (codes "b" ∷ [])) restic (codes "h/b") refl no_unnamed tt

abbrev snapshot : ResticSnapshot
snapshot = record {
  short_id = codes "s1";
  id = codes "s1234";
  time = codes "t";
  paths = codes "/pvc-u" ∷ [];
  hostname = codes "restic-backup-job";
  username = [];
  tree = [];
  parent = [];
}

abbrev secrets : List (Str × Str)
secrets =
    (codes "accesskey", codes "a")
    ∷ (codes "secretkey", codes "k")
    ∷ (codes "resticRepository", codes "s3:h/b")
    ∷ (codes "resticPassword", codes "w")
    ∷ []

abbrev content : SnapshotContent
content = record { snapshot_handle = some (codes "s1"); class_name = some (codes "c") }

abbrev runs : Str → ℕ → RunAnswers
runs name n =
    if n == 1 || n == 2
    then answers name (codes "{}")
    else answers (codes "restic-job-list-snapshots") (codes "[1]")

abbrev outside : List SnapshotContent → Str → Outside Str
outside contents name = record {
  getenv = λ key. [];
  timestamp = λ t. some t;
  decode_summary =
      λ text. some (record { total_bytes_processed = pos 7; snapshot_id = codes "s1" });
  decode_list = λ text. some (snapshot ∷ []);
  run = runs name;
  list_pvcs = ok ((record { uid = codes "u"; name = codes "claim"; namespace = codes "ns" }) ∷ []);
  list_buckets = λ region url. ok (codes "b" ∷ []);
  kube_system_uid = ok (codes "k");
  list_contents = ok contents;
  get_class = λ name. ok (
      (codes "csi.storage.k8s.io/snapshotter-secret-name", codes "s")
      ∷ (codes "csi.storage.k8s.io/snapshotter-secret-namespace", codes "n")
      ∷ []);
  get_secret = λ namespace name. ok secrets;
}

abbrev config : Config
config = record { driver_name = codes "d"; cluster_uid = codes "u" }

abbrev taken : ℤ → CsiSnapshot Str
taken size = record {
  snapshot_id = codes "s1";
  source_volume_id = codes "pvc-u";
  creation_time = codes "t";
  ready_to_use = true;
  size_bytes = size;
}

abbrev for_backup : Outside Str
for_backup = outside (content ∷ []) (codes "restic-job-backup-pvc-u")

abbrev create_request : CreateSnapshotRequest
create_request = record {
  name = codes "snap";
  source_volume_id = codes "r/n/pvc-u";
  secrets = some secrets;
}

abbrev create_calls : List RunCall
create_calls = (create_snapshot for_backup config create_request []).1

create_run :
    create_snapshot for_backup config create_request [] ≡ (ok (taken (pos 7)), create_calls)
unfolding create_snapshot str_eq
create_run = refl

create_example :
    (pvc : Str) × (namespace : Str) × (get_pvc_from_volume_id for_backup.list_pvcs
        (file_name create_request.source_volume_id)
      ≡ ok (pvc, namespace))
    × BackedUp for_backup config create_request.secrets
        (file_name create_request.source_volume_id)
        pvc
        namespace
        (taken (pos 7))
        create_calls
create_example =
    create_snapshot-BackedUp for_backup config create_request [] create_calls (taken (pos 7))
      create_run

abbrev list_request : ListSnapshotsRequest
list_request = record { snapshot_id = []; source_volume_id = codes "pvc-u"; secrets = some secrets }

abbrev list_calls : List RunCall
list_calls = (list_snapshots for_backup list_request []).1

list_run : list_snapshots for_backup list_request [] ≡ (ok (taken (pos 0) ∷ []), list_calls)
unfolding list_snapshots str_eq
list_run = refl

list_example :
    (r : Restic) × (out : Str) × (list : List ResticSnapshot) × ((run_job for_backup 0 r
        (list_job r)
        []).0
      ≡ output out)
    × (for_backup.decode_list out ≡ some list)
    × (map (λ s. new_csi_snapshot for_backup.timestamp s (pos 0)) (matching (codes "pvc-u") list)
        ≡ map ok (taken (pos 0) ∷ []))
list_example =
    list_snapshots-matching for_backup list_request [] (taken (pos 0) ∷ []) list_calls refl list_run

abbrev for_restore : Outside Str
for_restore = outside (content ∷ []) (codes "restic-job-restore-s1")

abbrev volume : Volume
volume = record {
  volume_id = codes "v";
  capacity_bytes = pos 1;
  ip = codes "10.0.0.1";
  path = codes "q";
  from_snapshot = none;
}

abbrev restore_calls : List RunCall
restore_calls = elim (restore_snapshot for_restore (codes "s1") volume []) [
  | none ↦ []
  | some r ↦ r.1
]

abbrev pending : SnapshotContent
pending = record { snapshot_handle = none; class_name = some (codes "c") }

panic_example : restore_snapshot (outside (pending ∷ content ∷ []) []) (codes "s1") volume [] ≡ none
panic_example =
    restore_snapshot-panics (outside (pending ∷ content ∷ []) []) (codes "s1") volume [] []
      (content ∷ []) pending refl tt refl
