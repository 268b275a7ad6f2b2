-- ===== src/Restic/Cleanup.antt =====
-- What a run of doResticJob of pkg/driver/restic.go returns and leaves behind.
use nifcloud_nas_csi_driver.Base.{
  ap, subst, ◌∙◌, ◌||◌, ◌≡◌, refl, ◌≢◌, ◌⊎◌, inl, inr, true, false, Option, none, some, List, [],
  ◌∷◌, ◌++◌, append_assoc, if◌then◌else◌, Bool-cases, All,
}
use nifcloud_nas_csi_driver.Base.Text.{Str, str_eq, str_eq_iff, codes, contains as str_contains}
use nifcloud_nas_csi_driver.Base.Outcome.{Done}
use nifcloud_nas_csi_driver.Restic.{ResticJob, ResticSecret}
use nifcloud_nas_csi_driver.Restic.Run.{
  Answer, done, refused, Pod, RunAnswers, RunCall, create_secret, delete_secret, create_job,
  delete_job, RunResult, output, wait_completed, ends_log, read_log, logged, find_pod, owned,
  of_pod, get_output, run_job, created_again, created_job, without_secret, with_secret,
  do_restic_job,
}

-- The line that a log stands for: the first that ends the reading, else the last.
unfoldable pub first_ending : List Str → Option Str
unfolding str_contains
first_ending [] = none
first_ending (line ∷ lines) =
    let rest = first_ending lines in
    if str_contains line (codes "summary") || str_contains line (codes "Fatal:")
    then some line
    else rest

unfoldable pub last_line : Str → List Str → Str
last_line out [] = out
last_line out (line ∷ lines) = last_line line lines

abbrev or_last : Str → List Str → Option Str → Str
or_last out lines none = last_line out lines
or_last out lines (some line) = line

-- Outside the driver's tests, the output of a job is the first line of its pod's log that has
-- `summary` or `Fatal:` in it, and the last line where none has.
pub read_log_lem :
    (fakes : List (Str × Str)) (name out : Str) (lines : List Str)
    → All (λ line. str_contains line (codes "fake logs") ≡ false) lines
    → read_log fakes name out lines ≡ or_last out lines (first_ending lines)
unfolding read_log first_ending last_line
read_log_lem fakes name out [] h = refl
read_log_lem fakes name out (line ∷ lines) (h, hs) = elim (Bool-cases (ends_log line)) [
  | inl ends ↦ rw (h, ends) refl
  | inr goes_on ↦ rw (h, goes_on) (read_log_lem fakes name line lines hs)
]

-- Whether the API made the job, at once or after the one that was there was deleted.
abbrev pub Made : RunAnswers → ResticJob → Type 0
Made a job =
    (a.create_job job ≡ done tt)
    ⊎ ((text : Str) × (a.create_job job ≡ refused true text) × (a.create_job_again job ≡ done tt))

abbrev pub NotFake : Str → Type 0
NotFake line = str_contains line (codes "fake logs") ≡ false

-- The first status with a condition has one that is not a failure.
abbrev pub Completed : List (Answer (List Str)) → Type 0
Completed conditions =
    (before after : List (Answer (List Str))) × (c : Str) × (cs : List Str) × (conditions
      ≡ before ++ done (c ∷ cs) ∷ after)
    × All (λ r. r ≡ done []) before
    × (c ≢ codes "Failed")

-- The first pod of the list whose first owner is the job.
abbrev pub FirstPod : Str → List Pod → Pod → Type 0
FirstPod name pods p =
    (front back : List Pod) × (owners : List Str) × (pods ≡ front ++ p ∷ back)
    × (p.owners ≡ name ∷ owners)
    × All (λ q. (os : List Str) → q.owners ≢ name ∷ os) front

-- The output is the line that the log of the job's pod stands for.
abbrev pub Logged : RunAnswers → ResticJob → Str → Type 0
Logged a job out =
    (pods : List Pod) × (p : Pod) × (lines : List Str) × (a.list_pods ≡ done pods)
    × FirstPod job.name pods p
    × (a.get_logs p.name ≡ done lines)
    × (out ≡ or_last [] lines (first_ending lines))

wait_completed-Completed :
    (name : Str) (conditions : List (Answer (List Str)))
    → wait_completed name conditions ≡ none
    → Completed conditions
unfolding wait_completed
wait_completed-Completed name [] h = absurd (cc h)
wait_completed-Completed name (refused there text ∷ rs) h = absurd (cc h)
wait_completed-Completed name (done [] ∷ rs) h =
    let (before, after, c, cs, e, waiting, passed) = wait_completed-Completed name rs h in
    (done [] ∷ before, after, c, cs, ap (λ l. done [] ∷ l) e, (refl, waiting), passed)
wait_completed-Completed name (done (c ∷ cs) ∷ rs) h =
    elim (Bool-cases (str_eq c (codes "Failed"))) [
      | inl failure ↦ absurd (cc (rw failure at h))
      | inr passes ↦
          ([], rs, c, cs, refl, tt, λ e. absurd (cc (passes, (str_eq_iff c (codes "Failed")).1 e)))
    ]

owned_owners :
    (name : Str) (owners : List Str)
    → owned name owners ≡ true
    → (rest : List Str) × (owners ≡ name ∷ rest)
owned_owners name [] h = absurd (cc h)
owned_owners name (o ∷ os) h = (os, cc ((str_eq_iff o name).0 h))

not_owned : (name : Str) (owners os : List Str) → owned name owners ≡ false → owners ≢ name ∷ os
not_owned name [] os h e = absurd (cc e)
not_owned name (o ∷ rest) os h e = absurd (cc (h, (str_eq_iff o name).1 (cc e)))

find_pod-FirstPod :
    (name : Str) (pods : List Pod) (p : Pod) → find_pod name pods ≡ some p → FirstPod name pods p
unfolding find_pod
find_pod-FirstPod name [] p h = absurd (cc h)
find_pod-FirstPod name (q ∷ pods) p h = elim (Bool-cases (owned name q.owners)) [
  | inl own ↦
      let (rest, e) = owned_owners name q.owners own in
      subst (λ p. FirstPod name (q ∷ pods) p) (same q p (rw own at h)) ([], pods, rest, refl, e, tt)
  | inr other ↦
      let (front, back, owners, e, own, before) = find_pod-FirstPod name pods p (rw other at h) in
      (
        q ∷ front,
        back,
        owners,
        ap (λ l. q ∷ l) e,
        own,
        ((λ os. not_owned name q.owners os other), before),
      )
]
  where
    same : (x y : Pod) → some x ≡ some y → x ≡ y
    same x y e = cc

-- The completion of the job was read, and the output is read from the log of a pod of the job.
abbrev Read : RunAnswers → ResticJob → Str → Type 0
Read a job out =
    (wait_completed job.name a.conditions ≡ none)
    × ((pods : List Pod) × (p : Pod) × (lines : List Str) × (a.list_pods ≡ done pods)
        × (find_pod job.name pods ≡ some p)
        × (a.get_logs p.name ≡ done lines)
        × (out ≡ read_log a.fake_logs job.name [] lines))

module _ (a : RunAnswers) (job : ResticJob) (secret : ResticSecret) where
  get_output_lem :
      (e : Option Str) (out : Str)
      → wait_completed job.name a.conditions ≡ e
      → get_output a job.name e a.list_pods ≡ output out
      → Read a job out
  get_output_lem e out w h = pods_lem a.list_pods refl h
    where
      lines_lem :
          (pods : List Pod) (p : Pod) (e' : Option Str) (r : Answer (List Str))
          → wait_completed job.name a.conditions ≡ e'
          → a.list_pods ≡ done pods
          → find_pod job.name pods ≡ some p
          → a.get_logs p.name ≡ r
          → logged a job.name e' r ≡ output out
          → Read a job out
      lines_lem pods p none (done lines) w' hl hp hg h' = (w', (pods, p, lines, hl, hp, hg, cc h'))
      lines_lem pods p (some text) (done lines) w' hl hp hg h' = absurd (cc h')
      lines_lem pods p e' (refused there text) w' hl hp hg h' = absurd (cc h')

      pod_lem :
          (pods : List Pod) (p : Option Pod)
          → a.list_pods ≡ done pods
          → find_pod job.name pods ≡ p
          → of_pod a job.name e p ≡ output out
          → Read a job out
      pod_lem pods none hl hp h' = absurd (cc h')
      pod_lem pods (some p) hl hp h' = lines_lem pods p e (a.get_logs p.name) w hl hp refl h'

      pods_lem :
          (r : Answer (List Pod))
          → a.list_pods ≡ r
          → get_output a job.name e r ≡ output out
          → Read a job out
      pods_lem (refused there text) hl h' = absurd (cc h')
      pods_lem (done pods) hl h' = pod_lem pods (find_pod job.name pods) hl refl h'

  abbrev JobDeleted : RunResult × List RunCall → Type 0
  JobDeleted (r, calls) =
      (Made a job
        → (before : List RunCall) × (calls ≡ before ++ delete_job job.namespace job.name ∷ []))
      × ((out : Str) → r ≡ output out → Made a job × Read a job out)

  run_job_lem : (calls : List RunCall) → Made a job → JobDeleted (run_job a job calls)
  run_job_lem calls made = (
    (λ m. (calls, refl)),
    λ out h. (made, get_output_lem (wait_completed job.name a.conditions) out refl h),
  )

  created_again_lem :
      (calls : List RunCall) (text : Str) (r : Answer Done)
      → a.create_job job ≡ refused true text
      → a.create_job_again job ≡ r
      → JobDeleted (created_again a job calls r)
  created_again_lem calls text (done u) first again = run_job_lem calls (inr (text, first, again))
  created_again_lem calls text (refused there t) first again =
      ((λ m. absurd (none_made m)), λ out h. absurd (cc h))
    where
      none_made : Made a job → ⊥
      none_made (inl h) = absurd (cc (h, first))
      none_made (inr (t', h, g)) = absurd (cc (g, again))

  created_job_lem :
      (calls : List RunCall) (r : Answer Done)
      → a.create_job job ≡ r
      → JobDeleted (created_job a job calls r)
  created_job_lem calls (done u) h = run_job_lem (calls ++ create_job job ∷ []) (inl h)
  created_job_lem calls (refused false text) h =
      ((λ m. absurd (none_made m)), λ out h'. absurd (cc h'))
    where
      none_made : Made a job → ⊥
      none_made (inl g) = absurd (cc (h, g))
      none_made (inr (t', g, k)) = absurd (cc (g, h))
  created_job_lem calls (refused true text) h =
      created_again_lem
        (calls ++ create_job job ∷ delete_job job.namespace job.name ∷ create_job job ∷ []) text
        (a.create_job_again job) h refl

  abbrev AllDeleted : RunResult × List RunCall → Type 0
  AllDeleted (r, calls) =
      (((text : Str) → a.create_secret secret ≢ refused false text)
        → (before : List RunCall) × (calls
            ≡ before ++ delete_secret job.namespace secret.name ∷ []))
      × (((text : Str) → a.create_secret secret ≢ refused false text)
          → Made a job
          → (before : List RunCall) × (calls
              ≡ before
                ++ delete_job job.namespace job.name
                  ∷ delete_secret job.namespace secret.name
                  ∷ []))
      × ((out : Str) → r ≡ output out → Made a job × Read a job out)

  without_secret_lem :
      (x : RunResult × List RunCall) → JobDeleted x → AllDeleted (without_secret job secret x)
  without_secret_lem (r, calls) (deleted, ran) =
      ((λ h. (calls, refl)), (λ h made. both (deleted made)), ran)
    where
      both :
          ((before : List RunCall) × (calls ≡ before ++ delete_job job.namespace job.name ∷ []))
          → (before : List RunCall) × (calls ++ delete_secret job.namespace secret.name ∷ []
              ≡ before
                ++ delete_job job.namespace job.name ∷ delete_secret job.namespace secret.name ∷ [])
      both (before, same) = (
        before,
        rw same (
            append_assoc before (delete_job job.namespace job.name ∷ [])
              (delete_secret job.namespace secret.name ∷ [])),
      )

  with_secret_lem :
      (calls : List RunCall) (r : Answer Done)
      → a.create_secret secret ≡ r
      → AllDeleted (with_secret a job secret calls r)
  with_secret_lem calls (refused false text) h =
      ((λ n. absurd (n text h)), (λ n made. absurd (n text h)), λ out h'. absurd (cc h'))
  with_secret_lem calls (refused true text) h =
      without_secret_lem _
        (created_job_lem (calls ++ create_secret secret ∷ []) (a.create_job job) refl)
  with_secret_lem calls (done u) h =
      without_secret_lem _
        (created_job_lem (calls ++ create_secret secret ∷ []) (a.create_job job) refl)

-- Where the API refused neither the secret nor the job for good, the last two calls of a run
-- delete both, whatever the run returns: the job that runs to its end, fails, is lost or never ends
-- while the backoff waits.
pub do_restic_job-deletes :
    (a : RunAnswers) (job : ResticJob) (secret : ResticSecret) (calls : List RunCall)
    → ((text : Str) → a.create_secret secret ≢ refused false text)
    → Made a job
    → (before : List RunCall) × ((do_restic_job a job secret calls).1
        ≡ before
          ++ delete_job job.namespace job.name ∷ delete_secret job.namespace secret.name ∷ [])
unfolding do_restic_job
do_restic_job-deletes a job secret calls accepted made =
    (with_secret_lem a job secret calls (a.create_secret secret) refl).1 accepted made

-- Where no log has a line of the driver's own tests, `fake logs`, a run returns an output only if the
-- API made the job, the first status read with a condition has one other than `Failed` in front, and
-- the output is the line that the log of the first pod whose first owner is the job stands for: the
-- first line with `summary` or `Fatal:` in it, the last line where none has.
pub do_restic_job-output :
    (a : RunAnswers) (job : ResticJob) (secret : ResticSecret) (calls : List RunCall) (out : Str)
    → ((pod : Str) (lines : List Str) → a.get_logs pod ≡ done lines → All NotFake lines)
    → (do_restic_job a job secret calls).0 ≡ output out
    → Made a job × Completed a.conditions × Logged a job out
unfolding do_restic_job
do_restic_job-output a job secret calls out no_fakes h =
    let (made, (w, (pods, p, lines, hl, hp, hg, ho))) =
      (with_secret_lem a job secret calls (a.create_secret secret) refl).2 out h in
    (
      made,
      wait_completed-Completed job.name a.conditions w,
      (
        pods,
        p,
        lines,
        hl,
        find_pod-FirstPod job.name pods p hp,
        hg,
        ho ∙ read_log_lem a.fake_logs job.name [] lines (no_fakes p.name lines hg),
      ),
    )
