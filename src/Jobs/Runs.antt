-- ===== src/Jobs/Runs.antt =====
-- What the NFS jobs of pkg/driver/shared_utils.go do to the export and leave behind.
use nifcloud_nas_csi_driver.Base.{
  ◌≡◌, refl, ◌≢◌, inl, inr, false, List, [], ◌∷◌, ◌++◌, Bool-cases, In,
}
use nifcloud_nas_csi_driver.Base.Text.{Str, codes, str_eq, str_eq_iff, Lacks, split-lacking}
use nifcloud_nas_csi_driver.Base.Outcome.{Outcome, Done, ok}
use nifcloud_nas_csi_driver.Jobs.{
  Job, JobAnswers, JobCall, create_job, delete_job, join_mnt, clean, rooted, remove_source_path_job,
  nfs_job,
}

-- The directory of a volume whose name is one proper path element is beneath the mount.
unfoldable pub IsElement : Str → Type 0
IsElement p = Lacks b'/' p × (p ≢ []) × (p ≢ codes ".") × (p ≢ codes "..")

join_mnt_element : (p : Str) → IsElement p → join_mnt p ≡ codes "/mnt/" ++ p
unfolding IsElement join_mnt clean rooted
join_mnt_element p (slash, nonempty, dot, dots) =
    rw (split-lacking b'/' p slash, join_mnt)
      (rw (differs p [] nonempty)
        (rw (differs p (codes ".") dot) (rw (differs p (codes "..") dots) refl)))
  where
    differs : (s t : Str) → s ≢ t → str_eq s t ≡ false
    differs s t n = elim (Bool-cases (str_eq s t)) [
      | inl same ↦ absurd (n ((str_eq_iff s t).0 same))
      | inr other ↦ other
    ]

-- The job that removes a volume's directory mounts the root of the instance's export and removes
-- exactly /mnt/<name>, where the name is one proper path element: no other volume's directory and
-- not the export itself.
pub remove_source_path_job-args :
    (ip nas_name p : Str)
    → IsElement p
    → ((remove_source_path_job ip nas_name p).args
        ≡ codes "rm" ∷ codes "-rf" ∷ (codes "/mnt/" ++ p) ∷ [])
      × ((remove_source_path_job ip nas_name p).server ≡ ip)
      × ((remove_source_path_job ip nas_name p).path ≡ codes "/")
unfolding remove_source_path_job nfs_job join_mnt clean rooted IsElement
remove_source_path_job-args ip nas_name p h = (rw (join_mnt_element p h) refl, refl, refl)

abbrev Deletes : JobAnswers → Job → Outcome Done × List JobCall → Type 0
Deletes a job (r, made) =
    ((calls : List JobCall) × (made ≡ calls ++ delete_job job.namespace job.name ∷ [])
      × In (create_job job) calls)
    × ((types : List Str) × (c : Str) × In (ok (c ∷ types)) a.conditions × (c ≢ codes "Failed"))
