-- ===== src/Snapshots.antt =====
-- The snapshots of pkg/driver/snapshot.go: the claim a volume is bound to, the secrets of a
-- snapshot's class, and the calls CreateSnapshot, DeleteSnapshot, ListSnapshots and
-- restoreSnapshot.
use nifcloud_nas_csi_driver.Base.{
  ℕ, zero, suc, ◌+◌, ◌-◌, ◌*◌, ◌/◌, ◌%◌, ◌^◌, ◌≤◌, ◌<◌, ◌≡◌, refl, sym, ap, ap₂, ◌∙◌, subst, ◌≢◌,
  ◌↔◌, ◌⊎◌, inl, inr, Bool, true, false, not, ◌&&◌, ◌||◌, Option, none, some, List, [], ◌∷◌, ◌++◌,
  map, append-nil, append_assoc, arith, ltb, leb, ◌==◌, if◌then◌else◌, ==_iff, Bool-cases,
  Option-cases, length, take, drop, get_elem?, All, In, In-append_left, In-append_right, In-snoc,
  bit_and,
}
use nifcloud_nas_csi_driver.Base.Keys.{
  add_key, delete_key, Distinct, In-add_key_self, In-add_key, In-delete_key, delete_key-In,
  delete_key-Distinct, add_key_new,
}
use nifcloud_nas_csi_driver.Base.Assoc.{find, put, remove, find-put, find-remove, map_laws}
use nifcloud_nas_csi_driver.Base.Text.{
  Str, codes, is_empty, or_empty, str_eq, str_eq_iff, str_eq_refl, mem?, mem?-In, In-mem?, split,
  cut, Lacks, split-lacking, split-append, cut-append, atoi, byte_text, contains as str_contains,
  has_prefix, digits_from,
}
use nifcloud_nas_csi_driver.Base.Table.{every_below, every_below-at}
use nifcloud_nas_csi_driver.Base.Outcome.{
  Code, Error, Outcome, Done, ok, err, plain, status, cloud, not_exist, object_exists,
  invalid_argument, not_found, already_exists, aborted, internal, unimplemented, ◌>>=◌, ◌>>◌,
  bind_ok,
}
use nifcloud_nas_csi_driver.Base.Int.{ℤ, pos, negsuc}
use nifcloud_nas_csi_driver.Jobs.{clean, or_root}
use nifcloud_nas_csi_driver.Syncer.{Config, get_cluster_uid}
use nifcloud_nas_csi_driver.Restic.{
  ResticSnapshot, ResticBackupSummary, CsiSnapshot, Restic, ResticJob, file_name,
  get_source_volume_id, new_csi_snapshot, new_restic, restic_secret, list_job, backup_job,
  delete_snapshot_job, init_job, restore_job,
}
use nifcloud_nas_csi_driver.Restic.Run.{
  RunAnswers, RunCall, RunResult, output, failed, do_restic_job,
}
use nifcloud_nas_csi_driver.Restic.Repository.{check_bucket}
pub mod Create
pub mod Listing
pub mod Restore

pub record Pvc : Type 0 where
  pub uid : Str
  pub name : Str
  pub namespace : Str

-- snapshotv1.VolumeSnapshotContent: a nil status, handle or class name is `none`.
pub record SnapshotContent : Type 0 where
  pub snapshot_handle : Option Str
  pub class_name : Option Str

-- What the handlers are answered by the Kubernetes API, the storage, the environment and the
-- decoders of JSON and of times. The runs of jobs are numbered in the order of the source.
pub record Outside (T : Type 0) : Type 1 where
  pub getenv : Str → Str
  pub timestamp : Str → Option T
  pub decode_summary : Str → Option ResticBackupSummary
  pub decode_list : Str → Option (List ResticSnapshot)
  pub run : ℕ → RunAnswers
  pub list_pvcs : Outcome (List Pvc)
  pub list_buckets : Str → Str → Outcome (List Str)
  pub kube_system_uid : Outcome Str
  pub list_contents : Outcome (List SnapshotContent)
  pub get_class : Str → Outcome (List (Str × Str))
  pub get_secret : Str → Str → Outcome (List (Str × Str))

unfoldable pub find_pvc : Str → List Pvc → Outcome (Str × Str)
find_pvc uid [] = err plain
find_pvc uid (p ∷ ps) = if str_eq p.uid uid then ok (p.name, p.namespace) else find_pvc uid ps

abbrev pvc_of_parts : Outcome (List Pvc) → Str × Option Str → Outcome (Str × Str)
pvc_of_parts pvcs (prefix, none) = err plain
pvc_of_parts pvcs (prefix, some uid) = pvcs >>= find_pvc uid

unfoldable pub get_pvc_from_volume_id : Outcome (List Pvc) → Str → Outcome (Str × Str)
unfolding find_pvc cut
get_pvc_from_volume_id pvcs volume_id = pvc_of_parts pvcs (cut b'-' volume_id)

unfoldable pub json_line : List Str → Str
unfolding has_prefix
json_line [] = []
json_line (line ∷ lines) =
    let rest = json_line lines in
    if has_prefix line (codes "[") || has_prefix line (codes "{") then line else rest

unfoldable pub sanitize_json : Str → Str
unfolding json_line split
sanitize_json input = json_line (split 10 input)

unfoldable pub find_snapshot : Str → List ResticSnapshot → Option ResticSnapshot
find_snapshot id [] = none
find_snapshot id (s ∷ ss) =
    let rest = find_snapshot id ss in if str_eq s.short_id id then some s else rest

pub record CreateSnapshotRequest : Type 0 where
  pub name : Str
  pub source_volume_id : Str
  pub secrets : Option (List (Str × Str))

pub record ListSnapshotsRequest : Type 0 where
  pub snapshot_id : Str
  pub source_volume_id : Str
  pub secrets : Option (List (Str × Str))

-- A handler's result, with the calls of the Kubernetes API that its jobs make.
abbrev pub Handled : Type 0 → Type 0
Handled A = Outcome A × List RunCall

-- status.Error(codes.Internal, ...) of a failure.
abbrev pub or_internal {ℓ} : {A : Type ℓ} → Outcome A → Outcome A
or_internal (ok a) = ok a
or_internal (err e) = err (status internal)

abbrev pub decoded {ℓ} : {A : Type ℓ} → Option A → Outcome A
decoded none = err (status internal)
decoded (some a) = ok a

module _ {T : Type 0} (o : Outside T) where
  -- One job of the handler, and what it does with the output.
  unfoldable pub run_job : ℕ → Restic → ResticJob → List RunCall → RunResult × List RunCall
  unfolding do_restic_job restic_secret
  run_job n r job calls = do_restic_job (o.run n) job (restic_secret r job.namespace) calls

  abbrev pub on_output :
      {A : Type 0} → (Str → List RunCall → Handled A) → RunResult × List RunCall → Handled A
  on_output next (output out, calls) = next out calls
  on_output next (failed text, calls) = (err (status internal), calls)

  abbrev pub translated : ℤ → Option ResticSnapshot → Outcome (CsiSnapshot T)
  translated size none = err (status internal)
  translated size (some s) = or_internal (new_csi_snapshot o.timestamp s size)

  abbrev pub chosen : ResticBackupSummary → Str → List RunCall → Handled (CsiSnapshot T)
  chosen summary out calls = (
    decoded (o.decode_list (sanitize_json out)) >>= λ list.
        translated summary.total_bytes_processed (find_snapshot summary.snapshot_id list),
    calls,
  )

  abbrev pub listed : Restic → List RunCall → Outcome ResticBackupSummary → Handled (CsiSnapshot T)
  listed r calls (err e) = (err e, calls)
  listed r calls (ok summary) = on_output (chosen summary) (run_job 3 r (list_job r) calls)

  abbrev pub summarized : Restic → Str → List RunCall → Handled (CsiSnapshot T)
  summarized r out calls = listed r calls (decoded (o.decode_summary (sanitize_json out)))

  abbrev pub backed_up :
      Restic → Str → Str × Str → List RunCall → Outcome Str → Handled (CsiSnapshot T)
  backed_up r pv_id (pvc, namespace) calls (err e) = (err (status internal), calls)
  backed_up r pv_id (pvc, namespace) calls (ok uid) =
      on_output (summarized r)
        (run_job 2 r (backup_job r pv_id pvc namespace (codes "cluster-" ++ uid)) calls)

  abbrev pub initialized :
      (List RunCall → Handled (CsiSnapshot T))
      → Restic
      → List RunCall
      → Outcome Done
      → Handled (CsiSnapshot T)
  initialized next r calls (err e) = (err (status internal), calls)
  initialized next r calls (ok u) =
      on_output (λ out calls'. next calls') (run_job 1 r (init_job r) calls)

  -- The repository of the cluster's first snapshot is not there yet, and is made.
  abbrev pub checked :
      (List RunCall → Handled (CsiSnapshot T))
      → Restic
      → RunResult × List RunCall
      → Handled (CsiSnapshot T)
  checked next r (output out, calls) = next calls
  checked next r (failed text, calls) =
      if str_contains text (codes "specified key does not exist")
      then initialized next r calls (check_bucket o.list_buckets r)
      else (err (status internal), calls)

  abbrev pub with_restic :
      Config → Str → Str × Str → List RunCall → Outcome Restic → Handled (CsiSnapshot T)
  with_restic config pv_id pvc calls (err e) = (err (status internal), calls)
  with_restic config pv_id pvc calls (ok r) =
      checked (λ calls'. backed_up r pv_id pvc calls' (get_cluster_uid config o.kube_system_uid)) r
        (run_job 0 r (list_job r) calls)

  abbrev pub with_pvc :
      Config
      → CreateSnapshotRequest
      → Str
      → List RunCall
      → Outcome (Str × Str)
      → Handled (CsiSnapshot T)
  with_pvc config req pv_id calls (err e) = (err (status invalid_argument), calls)
  with_pvc config req pv_id calls (ok pvc) =
      with_restic config pv_id pvc calls (new_restic o.getenv req.secrets)

  unfoldable pub create_snapshot :
      Config → CreateSnapshotRequest → List RunCall → Handled (CsiSnapshot T)
  unfolding run_job get_pvc_from_volume_id new_restic list_job backup_job init_job check_bucket
      get_cluster_uid sanitize_json find_snapshot new_csi_snapshot file_name str_contains
  create_snapshot config req calls =
      if is_empty req.name || is_empty req.source_volume_id
      then (err (status invalid_argument), calls)
      else with_pvc config req (file_name req.source_volume_id) calls
          (get_pvc_from_volume_id o.list_pvcs (file_name req.source_volume_id))

  abbrev pub deleted : RunResult × List RunCall → Handled Done
  deleted r = on_output (λ out calls. (ok tt, calls)) r

  abbrev pub delete_with : Str → List RunCall → Outcome Restic → Handled Done
  delete_with id calls (err e) = (err (status internal), calls)
  delete_with id calls (ok r) = deleted (run_job 0 r (delete_snapshot_job r id) calls)

  unfoldable pub delete_snapshot : Str → Option (List (Str × Str)) → List RunCall → Handled Done
  unfolding run_job new_restic delete_snapshot_job
  delete_snapshot [] secrets calls = (err (status invalid_argument), calls)
  delete_snapshot (c ∷ id) secrets calls = delete_with (c ∷ id) calls (new_restic o.getenv secrets)
