-- ===== src/Snapshots/Create.antt =====
-- What a CreateSnapshot of pkg/driver/snapshot.go that succeeds has done.
use nifcloud_nas_csi_driver.Base.{
  ℕ, ◌≡◌, refl, ap, ◌∙◌, subst, inl, inr, ◌||◌, Option, none, some, List, ◌++◌, Bool-cases, In,
}
use nifcloud_nas_csi_driver.Base.Text.{Str, codes, is_empty, contains as str_contains}
use nifcloud_nas_csi_driver.Base.Outcome.{Outcome, Done, ok, err, bind_ok}
use nifcloud_nas_csi_driver.Syncer.{Config, get_cluster_uid}
use nifcloud_nas_csi_driver.Restic.{
  ResticSnapshot, ResticBackupSummary, CsiSnapshot, Restic, ResticJob, restic_secret, file_name,
  new_csi_snapshot, new_restic, list_job, backup_job, init_job,
}
use nifcloud_nas_csi_driver.Restic.Run.{RunCall, RunResult, output, failed, create_job}
use nifcloud_nas_csi_driver.Restic.Calls.{Makes, do_restic_job-Makes}
use nifcloud_nas_csi_driver.Restic.Repository.{check_bucket}
use nifcloud_nas_csi_driver.Snapshots.{
  Outside, CreateSnapshotRequest, Handled, or_internal, decoded, get_pvc_from_volume_id,
  sanitize_json, find_snapshot, run_job, on_output, translated, chosen, listed, summarized,
  backed_up, initialized, checked, with_restic, with_pvc, create_snapshot,
}
use nifcloud_nas_csi_driver.Snapshots.Listing.{found_id}

or_internal_ok {ℓ} : {A : Type ℓ} (x : Outcome A) {a : A} → or_internal x ≡ ok a → x ≡ ok a
or_internal_ok (ok b) h = h
or_internal_ok (err e) h = absurd (cc h)

decoded_ok {ℓ} : {A : Type ℓ} (x : Option A) {a : A} → decoded x ≡ ok a → x ≡ some a
decoded_ok none h = absurd (cc h)
decoded_ok (some b) h = cc h

module _ {T : Type 0} (o : Outside T) where
  on_output_ok :
      {A : Type 0} (next : Str → List RunCall → Handled A) (x : RunResult × List RunCall) {a : A}
      {made : List RunCall}
      → on_output o next x ≡ (ok a, made)
      → (out : Str) × (calls : List RunCall) × (x ≡ (output out, calls))
        × (next out calls ≡ (ok a, made))
  on_output_ok next (output out, calls) h = (out, calls, refl, h)
  on_output_ok next (failed text, calls) h = absurd (cc (ap (λ y. y.0) h))

  run_job-Makes :
      (n : ℕ) (r : Restic) (job : ResticJob) (calls : List RunCall)
      → Makes job calls (run_job o n r job calls)
  unfolding run_job
  run_job-Makes n r job calls =
      do_restic_job-Makes (o.run n) job (restic_secret r job.namespace) calls

  -- The snapshot answered is a translation of the one whose id the summary reports, in the list
  -- that a text decodes to.
  abbrev pub Listed : Str → ResticBackupSummary → CsiSnapshot T → Type 0
  Listed out summary snap =
      (list : List ResticSnapshot) × (s : ResticSnapshot) × (o.decode_list (sanitize_json out)
        ≡ some list)
      × In s list
      × (s.short_id ≡ summary.snapshot_id)
      × (new_csi_snapshot o.timestamp s summary.total_bytes_processed ≡ ok snap)

  chosen_lem :
      (summary : ResticBackupSummary) (out : Str) (calls : List RunCall) (snap : CsiSnapshot T)
      (made : List RunCall)
      → chosen o summary out calls ≡ (ok snap, made)
      → Listed out summary snap × (calls ≡ made)
  chosen_lem summary out calls snap made h =
      let (list, hl, ht) =
        bind_ok (decoded (o.decode_list (sanitize_json out)))
          (λ l. translated o summary.total_bytes_processed (find_snapshot summary.snapshot_id l))
          (ap (λ y. y.0) h) in
      (
        found list (find_snapshot summary.snapshot_id list) (decoded_ok _ hl) refl ht,
        ap (λ y. y.1) h,
      )
    where
      found :
          (list : List ResticSnapshot) (f : Option ResticSnapshot)
          → o.decode_list (sanitize_json out) ≡ some list
          → find_snapshot summary.snapshot_id list ≡ f
          → translated o summary.total_bytes_processed f ≡ ok snap
          → Listed out summary snap
      found list none hl hf ht = absurd (cc ht)
      found list (some s) hl hf ht =
          let (same, m) = found_id o summary.snapshot_id list s hf in
          (list, s, hl, m, same, or_internal_ok _ ht)

  -- The list is what the last job of the run, which lists the repository, puts out.
  abbrev pub Reported : Restic → ResticBackupSummary → CsiSnapshot T → List RunCall → Type 0
  Reported r summary snap made =
      (calls : List RunCall) × (out : Str) × (run_job o 3 r (list_job r) calls ≡ (output out, made))
      × Listed out summary snap

  listed_lem :
      (r : Restic) (calls : List RunCall) (x : Outcome ResticBackupSummary) (snap : CsiSnapshot T)
      (made : List RunCall)
      → listed o r calls x ≡ (ok snap, made)
      → (summary : ResticBackupSummary) × (x ≡ ok summary)
        × Reported r summary snap made
        × ((c : RunCall) → In c calls → In c made)
  listed_lem r calls (err e) snap made h = absurd (cc (ap (λ y. y.0) h))
  listed_lem r calls (ok summary) snap made h =
      let (out, calls', hx, hn) =
        on_output_ok (chosen o summary) (run_job o 3 r (list_job r) calls) h in
      let (reported, same) = chosen_lem summary out calls' snap made hn in
      (
        summary,
        refl,
        (
          calls,
          out,
          subst (λ l. run_job o 3 r (list_job r) calls ≡ (output out, l)) same hx,
          reported,
        ),
        λ c k.
            subst (λ l. In c l) (ap (λ y. y.1) hx ∙ same)
              ((run_job-Makes 3 r (list_job r) calls).0 c k),
      )

  -- The job that backs up the claim was run, under the cluster's tag, and the summary in its output
  -- names the snapshot.
  abbrev pub BackedBy : Config → Restic → Str → Str → Str → CsiSnapshot T → List RunCall → Type 0
  BackedBy config r pv_id pvc namespace snap made =
      (uid : Str) × (calls : List RunCall) × (out : Str) × (summary : ResticBackupSummary)
      × (get_cluster_uid config o.kube_system_uid ≡ ok uid)
      × ((run_job o 2 r (backup_job r pv_id pvc namespace (codes "cluster-" ++ uid)) calls).0
          ≡ output out)
      × In (create_job (backup_job r pv_id pvc namespace (codes "cluster-" ++ uid))) made
      × (o.decode_summary (sanitize_json out) ≡ some summary)
      × Reported r summary snap made

  -- The same, with the repository that the environment and the secrets of the request name.
  abbrev pub BackedUp :
      Config → Option (List (Str × Str)) → Str → Str → Str → CsiSnapshot T → List RunCall → Type 0
  BackedUp config secrets pv_id pvc namespace snap made =
      (r : Restic) × (new_restic o.getenv secrets ≡ ok r)
      × BackedBy config r pv_id pvc namespace snap made

  backed_up_lem :
      (config : Config) (r : Restic) (pv_id pvc namespace : Str) (calls : List RunCall)
      (x : Outcome Str) (snap : CsiSnapshot T) (made : List RunCall)
      → get_cluster_uid config o.kube_system_uid ≡ x
      → backed_up o r pv_id (pvc, namespace) calls x ≡ (ok snap, made)
      → BackedBy config r pv_id pvc namespace snap made
  backed_up_lem config r pv_id pvc namespace calls (err e) snap made hu h =
      absurd (cc (ap (λ y. y.0) h))
  backed_up_lem config r pv_id pvc namespace calls (ok uid) snap made hu h =
      let job = backup_job r pv_id pvc namespace (codes "cluster-" ++ uid) in
      let (out, calls', hx, hn) = on_output_ok (summarized o r) (run_job o 2 r job calls) h in
      let (summary, hs, reported, keeps) =
        listed_lem r calls' (decoded (o.decode_summary (sanitize_json out))) snap made hn in
      (
        uid,
        calls,
        out,
        summary,
        hu,
        ap (λ y. y.0) hx,
        keeps (create_job job) (
            subst (λ l. In (create_job job) l) (ap (λ y. y.1) hx)
              ((run_job-Makes 2 r job calls).1 out (ap (λ y. y.0) hx))),
        decoded_ok _ hs,
        reported,
      )

  checked_lem :
      (next : List RunCall → Handled (CsiSnapshot T)) (r : Restic) (x : RunResult × List RunCall)
      {snap : CsiSnapshot T} {made : List RunCall}
      → checked o next r x ≡ (ok snap, made)
      → (calls : List RunCall) × (next calls ≡ (ok snap, made))
  checked_lem next r (output out, calls) h = (calls, h)
  checked_lem next r (failed text, calls) {snap = snap} {made = made} h =
      elim (Bool-cases (str_contains text (codes "specified key does not exist"))) [
        | inl missing ↦ made_new (check_bucket o.list_buckets r) (rw missing at h)
        | inr other ↦ absurd (cc (ap (λ y. y.0) (rw other at h)))
      ]
    where
      made_new :
          (c : Outcome Done)
          → initialized o next r calls c ≡ (ok snap, made)
          → (calls' : List RunCall) × (next calls' ≡ (ok snap, made))
      made_new (err e) h' = absurd (cc (ap (λ y. y.0) h'))
      made_new (ok u) h' =
          let (out, calls', hx, hn) =
            on_output_ok (λ out' calls''. next calls'') (run_job o 1 r (init_job r) calls) h' in
          (calls', hn)

  -- A CreateSnapshot that succeeds found the claim that the volume's id names, ran the job that
  -- backs up that claim under the cluster's tag into the repository that the request's secrets name,
  -- and then, as its last job, the one that lists that repository. It answers the snapshot of the
  -- list in that job's output whose id the summary in the backup job's output reports, with the size
  -- that summary reports.
  pub create_snapshot-BackedUp :
      (config : Config) (req : CreateSnapshotRequest) (calls made : List RunCall)
      (snap : CsiSnapshot T)
      → create_snapshot o config req calls ≡ (ok snap, made)
      → (pvc : Str) × (namespace : Str) × (get_pvc_from_volume_id o.list_pvcs
            (file_name req.source_volume_id)
          ≡ ok (pvc, namespace))
        × BackedUp config req.secrets (file_name req.source_volume_id) pvc namespace snap made
  unfolding create_snapshot
  create_snapshot-BackedUp config req calls made snap h =
      elim (Bool-cases (is_empty req.name || is_empty req.source_volume_id)) [
        | inl missing ↦ absurd (cc (ap (λ y. y.0) (rw missing at h)))
        | inr there ↦ by_pvc (get_pvc_from_volume_id o.list_pvcs pv_id) refl (rw there at h)
      ]
    where
      pv_id : Str
      pv_id = file_name req.source_volume_id

      by_restic :
          (pvc namespace : Str) (x : Outcome Restic)
          → new_restic o.getenv req.secrets ≡ x
          → with_restic o config pv_id (pvc, namespace) calls x ≡ (ok snap, made)
          → BackedUp config req.secrets pv_id pvc namespace snap made
      by_restic pvc namespace (err e) hr h' = absurd (cc (ap (λ y. y.0) h'))
      by_restic pvc namespace (ok r) hr h' =
          let (calls', hn) =
            checked_lem
              (λ l.
                backed_up o r pv_id (pvc, namespace) l (get_cluster_uid config o.kube_system_uid))
              r (run_job o 0 r (list_job r) calls) h' in
          (r, hr, backed_up_lem config r pv_id pvc namespace calls' _ snap made refl hn)

      by_pvc :
          (x : Outcome (Str × Str))
          → get_pvc_from_volume_id o.list_pvcs pv_id ≡ x
          → with_pvc o config req pv_id calls x ≡ (ok snap, made)
          → (pvc : Str) × (namespace : Str) × (get_pvc_from_volume_id o.list_pvcs pv_id
              ≡ ok (pvc, namespace))
            × BackedUp config req.secrets pv_id pvc namespace snap made
      by_pvc (err e) hp h' = absurd (cc (ap (λ y. y.0) h'))
      by_pvc (ok (pvc, namespace)) hp h' =
          (pvc, namespace, hp, by_restic pvc namespace (new_restic o.getenv req.secrets) refl h')
