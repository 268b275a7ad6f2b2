-- ===== src/Jobs.antt =====
-- The NFS jobs of pkg/driver/shared_utils.go that make, change and remove a volume's directory on a
-- shared NAS instance.
use nifcloud_nas_csi_driver.Base.{
  ℕ, zero, suc, ◌+◌, ◌-◌, ◌*◌, ◌/◌, ◌%◌, ◌^◌, ◌≤◌, ◌<◌, ◌≡◌, refl, sym, ap, ap₂, ◌∙◌, subst, ◌≢◌,
  ◌↔◌, ◌⊎◌, inl, inr, Bool, true, false, not, ◌&&◌, ◌||◌, Option, none, some, List, [], ◌∷◌, ◌++◌,
  map, append-nil, append_assoc, arith, ltb, leb, ◌==◌, if◌then◌else◌, ==_iff, Bool-cases,
  Option-cases, length, take, drop, get_elem?, All, In, In-append_left, In-append_right, bit_and,
}
use nifcloud_nas_csi_driver.Base.Keys.{
  add_key, delete_key, Distinct, In-add_key_self, In-add_key, In-delete_key, delete_key-In,
  delete_key-Distinct, add_key_new,
}
use nifcloud_nas_csi_driver.Base.Assoc.{find, put, remove, find-put, find-remove, map_laws}
use nifcloud_nas_csi_driver.Base.Text.{
  Str, codes, str_eq, str_eq_iff, str_eq_refl, mem?, mem?-In, In-mem?, split, cut, Lacks,
  split-lacking, split-append, cut-append, atoi, byte_text, contains as str_contains, has_prefix,
  digits_from,
}
use nifcloud_nas_csi_driver.Base.Outcome.{
  Code, Error, Outcome, Done, ok, err, plain, status, cloud, not_exist, object_exists,
  invalid_argument, not_found, already_exists, aborted, internal, unimplemented, ◌>>=◌, ◌>>◌,
  bind_ok,
}
pub mod Runs

-- What one attempt of backoff.RetryNotify answers; the attempts are those that the backoff allows.
pub data Attempt : Type 0 where
  finished permanent again : Attempt

unfoldable pub retry_notify : List Attempt → Outcome Done
retry_notify [] = err plain
retry_notify (finished ∷ later) = ok tt
retry_notify (permanent ∷ later) = err plain
retry_notify (again ∷ later) = retry_notify later

-- filepath.Join(mount, path) for a mount of one name: the elements of the path, `.` and empty ones
-- dropped and `..` going up, as far as the root.
unfoldable pub clean : List Str → List Str → List Str
clean done [] = done
clean done (p ∷ ps) =
    clean
      (if str_eq p [] || str_eq p (codes ".")
        then done
        else if str_eq p (codes "..")
        then drop 1 done
        else p ∷ done)
      ps

unfoldable pub rooted : List Str → Str
rooted [] = []
rooted (p ∷ ps) = rooted ps ++ b'/' ∷ p

abbrev pub or_root : List Str → Str
or_root [] = codes "/"
or_root (p ∷ ps) = rooted (p ∷ ps)

unfoldable pub join_mnt : Str → Str
unfolding clean rooted split
join_mnt path = or_root (clean (codes "mnt" ∷ []) (split b'/' path))

-- batchv1.Job, as nfsJob makes it: one container of the image on the NFS export, mounted at /mnt.
pub record Job : Type 0 where
  pub name : Str
  pub namespace : Str
  pub image : Str
  pub mount_path : Str
  pub server : Str
  pub path : Str
  pub restart_policy : Str
  pub backoff_limit : ℕ
  pub args : List Str

unfoldable pub nfs_job : Str → Str → Str → Str → Job
nfs_job ip path name namespace = record {
  name = name;
  namespace = namespace;
  image = codes "alpine";
  mount_path = codes "/mnt";
  server = ip;
  path = path;
  restart_policy = codes "Never";
  backoff_limit = 2;
  args = [];
}

pub data JobCall : Type 0 where
  create_job : Job → JobCall
  delete_job : Str → Str → JobCall

-- What the Kubernetes API answers: to the first and the second creation, and to the reads of the
-- job, whose condition types each has.
pub record JobAnswers : Type 0 where
  pub create : Job → Outcome Done
  pub create_again : Job → Outcome Done
  pub conditions : List (Outcome (List Str))

abbrev completed : Outcome (List Str) → Attempt
completed (err e) = permanent
completed (ok []) = again
completed (ok (c ∷ cs)) = if str_eq c (codes "Failed") then permanent else finished

unfoldable pub chk_job_completed : List (Outcome (List Str)) → List Attempt
chk_job_completed [] = []
chk_job_completed (r ∷ rs) = completed r ∷ chk_job_completed rs

-- The job is deleted when the function returns, whatever it returns. A job that fails gives an
-- error, with the pod's log as text.
abbrev pub run_created : JobAnswers → Job → List JobCall → Outcome Done × List JobCall
run_created a job calls =
    (retry_notify (chk_job_completed a.conditions), calls ++ delete_job job.namespace job.name ∷ [])

abbrev pub created_again :
    JobAnswers → Job → List JobCall → Outcome Done → Outcome Done × List JobCall
created_again a job calls (ok u) = run_created a job calls
created_again a job calls (err e) = (err plain, calls)

abbrev pub created : JobAnswers → Job → Outcome Done → Outcome Done × List JobCall
created a job (ok u) = run_created a job (create_job job ∷ [])
created a job (err object_exists) =
    created_again a job (create_job job ∷ delete_job job.namespace job.name ∷ create_job job ∷ [])
      (a.create_again job)
created a job (err e) = (err plain, create_job job ∷ [])

unfoldable pub do_nfs_job : JobAnswers → Job → Outcome Done × List JobCall
unfolding retry_notify chk_job_completed
do_nfs_job a job = created a job (a.create job)

-- The job of a source path's command.
abbrev with_args : Job → List Str → Job
with_args job args = record job { args = job.args ++ args }

abbrev mkdir_args : Str → Str → List Str
mkdir_args path [] = codes "mkdir" ∷ path ∷ []
mkdir_args path (c ∷ permission) = codes "mkdir" ∷ codes "-m" ∷ (c ∷ permission) ∷ path ∷ []

unfoldable pub make_source_path_job : Str → Str → Str → Str → Job
unfolding nfs_job join_mnt
make_source_path_job ip nas_name source_path permission =
    with_args (nfs_job ip (codes "/") nas_name (codes "default"))
      (mkdir_args (join_mnt source_path) permission)

unfoldable pub make_source_path : JobAnswers → Str → Str → Str → Str → Outcome Done × List JobCall
unfolding make_source_path_job do_nfs_job
make_source_path a ip nas_name source_path permission =
    do_nfs_job a (make_source_path_job ip nas_name source_path permission)

unfoldable pub change_mode_source_path :
    JobAnswers → Str → Str → Str → Str → Outcome Done × List JobCall
unfolding nfs_job join_mnt do_nfs_job
change_mode_source_path a ip nas_name source_path [] = (ok tt, [])
change_mode_source_path a ip nas_name source_path (c ∷ permission) = do_nfs_job a (
    with_args (nfs_job ip (codes "/") nas_name (codes "default"))
      (codes "chmod" ∷ (c ∷ permission) ∷ join_mnt source_path ∷ []))

unfoldable pub remove_source_path_job : Str → Str → Str → Job
unfolding nfs_job join_mnt
remove_source_path_job ip nas_name source_path =
    with_args (nfs_job ip (codes "/") nas_name (codes "default"))
      (codes "rm" ∷ codes "-rf" ∷ join_mnt source_path ∷ [])

unfoldable pub remove_source_path : JobAnswers → Str → Str → Str → Outcome Done × List JobCall
unfolding remove_source_path_job do_nfs_job
remove_source_path a ip nas_name source_path =
    do_nfs_job a (remove_source_path_job ip nas_name source_path)
