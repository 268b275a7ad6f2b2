-- ===== src/Restic/Calls.antt =====
-- Which calls a run of doResticJob of pkg/driver/restic.go makes.
use nifcloud_nas_csi_driver.Base.{
  ◌≡◌, refl, inl, true, false, List, ◌++◌, In, In-append_left, In-append_right,
}
use nifcloud_nas_csi_driver.Base.Text.{Str}
use nifcloud_nas_csi_driver.Base.Outcome.{Done}
use nifcloud_nas_csi_driver.Restic.{ResticJob, ResticSecret}
use nifcloud_nas_csi_driver.Restic.Run.{
  Answer, done, refused, RunAnswers, RunCall, create_job, RunResult, output, failed, run_job,
  created_again, created_job, without_secret, with_secret, do_restic_job,
}

-- The calls there were are kept, and an output needs the creation of the job.
abbrev pub Makes : ResticJob → List RunCall → RunResult × List RunCall → Type 0
Makes job calls (r, made) =
    ((c : RunCall) → In c calls → In c made)
    × ((out : Str) → r ≡ output out → In (create_job job) made)

more_calls :
    (job : ResticJob) (calls made more : List RunCall) (r : RunResult)
    → Makes job calls (r, made)
    → Makes job calls (r, made ++ more)
more_calls job calls made more r (keeps, creates) = (
  (λ c k. In-append_left c made more (keeps c k)),
  λ out h. In-append_left (create_job job) made more (creates out h),
)

module _ (a : RunAnswers) (job : ResticJob) (secret : ResticSecret) (calls : List RunCall) where
  abbrev Keeps : List RunCall → Type 0
  Keeps made = (c : RunCall) → In c calls → In c made

  more_kept : (made more : List RunCall) → Keeps made → Keeps (made ++ more)
  more_kept made more keeps c k = In-append_left c made more (keeps c k)

  failed_lem : (made : List RunCall) (text : Str) → Keeps made → Makes job calls (failed text, made)
  failed_lem made text keeps = (keeps, λ out h. absurd (cc h))

  run_job_lem :
      (made : List RunCall)
      → Keeps made
      → In (create_job job) made
      → Makes job calls (run_job a job made)
  run_job_lem made keeps m = more_calls job calls made _ _ (keeps, λ out h. m)

  created_job_lem :
      (made : List RunCall) (r : Answer Done)
      → Keeps made
      → Makes job calls (created_job a job made r)
  created_job_lem made (done u) keeps =
      run_job_lem _ (more_kept made _ keeps) (In-append_right (create_job job) made _ (inl refl))
  created_job_lem made (refused false text) keeps = failed_lem _ _ (more_kept made _ keeps)
  created_job_lem made (refused true text) keeps =
      again _ (a.create_job_again job) (more_kept made _ keeps)
        (In-append_right (create_job job) made _ (inl refl))
    where
      again :
          (all : List RunCall) (r : Answer Done)
          → Keeps all
          → In (create_job job) all
          → Makes job calls (created_again a job all r)
      again all (done u) k m = run_job_lem _ k m
      again all (refused there text) k m = failed_lem _ _ k

  secret_lem :
      (x : RunResult × List RunCall)
      → Makes job calls x
      → Makes job calls (without_secret job secret x)
  secret_lem (r, made) h = more_calls job calls made _ r h

  with_secret_lem : (r : Answer Done) → Makes job calls (with_secret a job secret calls r)
  with_secret_lem (refused false text) = failed_lem _ _ (more_kept calls _ (λ c k. k))
  with_secret_lem (refused true text) =
      secret_lem _ (created_job_lem _ (a.create_job job) (more_kept calls _ (λ c k. k)))
  with_secret_lem (done u) =
      secret_lem _ (created_job_lem _ (a.create_job job) (more_kept calls _ (λ c k. k)))

-- A run puts its calls behind those there were, and an output needs the creation of the job.
pub do_restic_job-Makes :
    (a : RunAnswers) (job : ResticJob) (secret : ResticSecret) (calls : List RunCall)
    → Makes job calls (do_restic_job a job secret calls)
unfolding do_restic_job
do_restic_job-Makes a job secret calls = with_secret_lem a job secret calls (a.create_secret secret)
