-- ===== src/Restic/Run.antt =====
-- doResticJob of pkg/driver/restic.go: one run of a job in the cluster, from the creation of its
-- secret to the deferred deletions. The Kubernetes API is a record of answers.
use nifcloud_nas_csi_driver.Base.{
  Bool, true, false, ◌||◌, Option, none, some, List, [], ◌∷◌, ◌++◌, if◌then◌else◌,
}
use nifcloud_nas_csi_driver.Base.Assoc.{find}
use nifcloud_nas_csi_driver.Base.Text.{Str, codes, or_empty, str_eq, contains as str_contains}
use nifcloud_nas_csi_driver.Base.Outcome.{Done}
use nifcloud_nas_csi_driver.Restic.{ResticJob, ResticSecret}

-- An answer of the Kubernetes API. A refusal says whether the object is there already, with its
-- text.
pub data Answer {ℓ} (A : Type ℓ) : Type ℓ where
  done : A → Answer A
  refused : Bool → Str → Answer A

pub record Pod : Type 0 where
  pub name : Str
  pub owners : List Str

-- The answers one run gets. The conditions are those of the reads of the job that the backoff has
-- time for; the logs are the lines of a pod's stream. `fake_logs` is the driver's table for tests.
pub record RunAnswers : Type 0 where
  pub create_secret : ResticSecret → Answer Done
  pub create_job : ResticJob → Answer Done
  pub create_job_again : ResticJob → Answer Done
  pub conditions : List (Answer (List Str))
  pub list_pods : Answer (List Pod)
  pub get_logs : Str → Answer (List Str)
  pub fake_logs : List (Str × Str)

pub data RunCall : Type 0 where
  create_secret : ResticSecret → RunCall
  delete_secret : Str → Str → RunCall
  create_job : ResticJob → RunCall
  delete_job : Str → Str → RunCall

-- The output of the job, or the text of the error.
pub data RunResult : Type 0 where
  output : Str → RunResult
  failed : Str → RunResult

abbrev chk_text : Str → Answer (List Str) → Option (Option Str)
chk_text name (refused there text) = some (some text)
chk_text name (done []) = none
chk_text name (done (c ∷ cs)) =
    if str_eq c (codes "Failed")
    then some (some (codes "Job " ++ (name ++ codes " failed")))
    else some none

abbrev or_later : Option Str → Option (Option Str) → Option Str
or_later later none = later
or_later later (some r) = r

-- The error of the wait, `none` where the job is complete; that of the last attempt where the
-- backoff has no more.
unfoldable pub wait_completed : Str → List (Answer (List Str)) → Option Str
wait_completed name [] = some (codes "Job " ++ (name ++ codes " is running"))
wait_completed name (r ∷ rs) = or_later (wait_completed name rs) (chk_text name r)

-- A line that ends the reading of a log.
abbrev pub ends_log : Str → Bool
ends_log line = str_contains line (codes "summary") || str_contains line (codes "Fatal:")

abbrev pub line_of : List (Str × Str) → Str → Str → Str
line_of fake_logs name line =
    if str_contains line (codes "fake logs") then or_empty (find name fake_logs) else line

unfoldable pub read_log : List (Str × Str) → Str → Str → List Str → Str
unfolding str_contains find
read_log fake_logs name out [] = out
read_log fake_logs name out (line ∷ lines) =
    let rest = read_log fake_logs name (line_of fake_logs name line) lines in
    if ends_log (line_of fake_logs name line) then line_of fake_logs name line else rest

abbrev pub with_error : Option Str → Str → RunResult
with_error none out = output out
with_error (some text) out = failed (out ++ (codes " : Error doing restic job - " ++ text))

abbrev pub logged : RunAnswers → Str → Option Str → Answer (List Str) → RunResult
logged a name error (refused there text) = failed (codes "Logs request error - " ++ text)
logged a name error (done lines) = with_error error (read_log a.fake_logs name [] lines)

abbrev pub owned : Str → List Str → Bool
owned name [] = false
owned name (o ∷ os) = str_eq o name

-- The first pod whose first owner is the job.
unfoldable pub find_pod : Str → List Pod → Option Pod
find_pod name [] = none
find_pod name (p ∷ ps) = let rest = find_pod name ps in if owned name p.owners then some p else rest

abbrev pub of_pod : RunAnswers → Str → Option Str → Option Pod → RunResult
of_pod a name error none = failed (codes "Cannot find pod for job " ++ name)
of_pod a name error (some p) = logged a name error (a.get_logs p.name)

abbrev pub get_output : RunAnswers → Str → Option Str → Answer (List Pod) → RunResult
get_output a name error (refused there text) = failed (codes "Listing job pods error - " ++ text)
get_output a name error (done pods) = of_pod a name error (find_pod name pods)

-- The run of a job that was created, with the deferred deletion of the job.
abbrev pub run_job : RunAnswers → ResticJob → List RunCall → RunResult × List RunCall
run_job a job calls = (
  get_output a job.name (wait_completed job.name a.conditions) a.list_pods,
  calls ++ delete_job job.namespace job.name ∷ [],
)

abbrev pub created_again :
    RunAnswers → ResticJob → List RunCall → Answer Done → RunResult × List RunCall
created_again a job calls (done u) = run_job a job calls
created_again a job calls (refused there text) =
    (failed (codes "Re-creating restic job error - " ++ text), calls)

abbrev pub created_job :
    RunAnswers → ResticJob → List RunCall → Answer Done → RunResult × List RunCall
created_job a job calls (done u) = run_job a job (calls ++ create_job job ∷ [])
created_job a job calls (refused false text) =
    (failed (codes "Creating restic job error - " ++ text), calls ++ create_job job ∷ [])
created_job a job calls (refused true text) =
    created_again a job
      (calls ++ create_job job ∷ delete_job job.namespace job.name ∷ create_job job ∷ [])
      (a.create_job_again job)

-- The deferred deletion of the secret, in the job's namespace.
abbrev pub without_secret :
    ResticJob → ResticSecret → RunResult × List RunCall → RunResult × List RunCall
without_secret job secret (r, calls) = (r, calls ++ delete_secret job.namespace secret.name ∷ [])

abbrev pub with_secret :
    RunAnswers → ResticJob → ResticSecret → List RunCall → Answer Done → RunResult × List RunCall
with_secret a job secret calls (refused false text) =
    (failed (codes "Creating restic secret error - " ++ text), calls ++ create_secret secret ∷ [])
with_secret a job secret calls r =
    without_secret job secret
      (created_job a job (calls ++ create_secret secret ∷ []) (a.create_job job))

-- The calls made are put behind those there were.
unfoldable pub do_restic_job :
    RunAnswers → ResticJob → ResticSecret → List RunCall → RunResult × List RunCall
unfolding wait_completed read_log find_pod
do_restic_job a job secret calls = with_secret a job secret calls (a.create_secret secret)
