-- ===== src/Snapshots/Restore.antt =====
-- The secrets of a snapshot and restoreSnapshot of pkg/driver/snapshot.go. A panic is `none`.
use nifcloud_nas_csi_driver.Base.{
  ◌≡◌, refl, ap, ◌≢◌, inl, inr, Option, none, some, List, [], ◌∷◌, ◌++◌, if◌then◌else◌, Bool-cases,
  All, In,
}
use nifcloud_nas_csi_driver.Base.Assoc.{find}
use nifcloud_nas_csi_driver.Base.Text.{Str, codes, or_empty, str_eq, str_eq_iff, split}
use nifcloud_nas_csi_driver.Base.Outcome.{Outcome, Done, ok, err, plain, ◌>>=◌}
use nifcloud_nas_csi_driver.Jobs.{clean, or_root}
use nifcloud_nas_csi_driver.Controller.{Volume}
use nifcloud_nas_csi_driver.Restic.{
  ResticSnapshot, Restic, get_source_volume_id, new_restic, list_job, restore_job,
}
use nifcloud_nas_csi_driver.Restic.Run.{RunCall, RunResult, output, failed, create_job}
use nifcloud_nas_csi_driver.Snapshots.{Outside, SnapshotContent, Handled, find_snapshot, run_job}

-- The class of the first content with the handle; a content without a handle in front of it is a
-- panic, and so is one without a class name.
abbrev pub class_at : Str → Option Str → Option Str → Option Str → Option Str
class_at id class_name rest none = none
class_at id class_name rest (some handle) = if str_eq handle id then class_name else rest

unfoldable pub find_class : Str → List SnapshotContent → Option Str
find_class id [] = some []
find_class id (c ∷ cs) = class_at id c.class_name (find_class id cs) c.snapshot_handle

abbrev pub of_parameters :
    (Str → Str → Outcome (List (Str × Str))) → Str → Str → Outcome (List (Str × Str))
of_parameters get_secret [] namespace = err plain
of_parameters get_secret (c ∷ name) [] = err plain
of_parameters get_secret (c ∷ name) (n ∷ namespace) = get_secret (n ∷ namespace) (c ∷ name) >>= ok

module _ {T : Type 0} (o : Outside T) where
  abbrev pub of_class : Outcome (List (Str × Str)) → Outcome (List (Str × Str))
  of_class (err e) = err plain
  of_class (ok parameters) =
      of_parameters o.get_secret
        (or_empty (find (codes "csi.storage.k8s.io/snapshotter-secret-name") parameters))
        (or_empty (find (codes "csi.storage.k8s.io/snapshotter-secret-namespace") parameters))

  unfoldable pub get_secrets_from_snapshot_class : Str → Outcome (List (Str × Str))
  unfolding find
  get_secrets_from_snapshot_class class_name = of_class (o.get_class class_name)

  abbrev pub secrets_of : Option Str → Option (Outcome (List (Str × Str)))
  secrets_of none = none
  secrets_of (some []) = some (err plain)
  secrets_of (some (c ∷ class_name)) = some (get_secrets_from_snapshot_class (c ∷ class_name))

  abbrev pub of_contents :
      Str → Outcome (List SnapshotContent) → Option (Outcome (List (Str × Str)))
  of_contents id (err e) = some (err plain)
  of_contents id (ok contents) = secrets_of (find_class id contents)

  unfoldable pub get_secrets_from_snapshot_id : Str → Option (Outcome (List (Str × Str)))
  unfolding get_secrets_from_snapshot_class find_class
  get_secrets_from_snapshot_id id = of_contents id o.list_contents

  -- filepath.Join("/", path).
  unfoldable pub join_root : Str → Str
  unfolding clean split
  join_root path = or_root (clean [] (split b'/' path))

  abbrev pub restored : RunResult × List RunCall → Handled Done
  restored (output out, calls) = (ok tt, calls)
  restored (failed text, calls) = (err plain, calls)

  abbrev pub restore_found :
      Restic → Str → Volume → List RunCall → Option ResticSnapshot → Handled Done
  restore_found r id vol calls none = (err plain, calls)
  restore_found r id vol calls (some s) =
      restored (
        run_job o 1 r (restore_job r id vol.ip (join_root vol.path) (get_source_volume_id s)) calls)

  abbrev pub restore_listed :
      Restic → Str → Volume → List RunCall → Option (List ResticSnapshot) → Handled Done
  restore_listed r id vol calls none = (err plain, calls)
  restore_listed r id vol calls (some list) = restore_found r id vol calls (find_snapshot id list)

  abbrev pub after_list : Restic → Str → Volume → RunResult × List RunCall → Handled Done
  after_list r id vol (failed text, calls) = (err plain, calls)
  after_list r id vol (output out, calls) = restore_listed r id vol calls (o.decode_list out)

  abbrev pub restore_with : Str → Volume → List RunCall → Outcome Restic → Handled Done
  restore_with id vol calls (err e) = (err plain, calls)
  restore_with id vol calls (ok r) = after_list r id vol (run_job o 0 r (list_job r) calls)

  abbrev pub restore_by :
      Str → Volume → List RunCall → Option (Outcome (List (Str × Str))) → Option (Handled Done)
  restore_by id vol calls none = none
  restore_by id vol calls (some (err e)) = some (err plain, calls)
  restore_by id vol calls (some (ok secrets)) =
      some (restore_with id vol calls (new_restic o.getenv (some secrets)))

  unfoldable pub restore_snapshot : Str → Volume → List RunCall → Option (Handled Done)
  unfolding get_secrets_from_snapshot_id new_restic run_job list_job restore_job find_snapshot
      get_source_volume_id join_root
  restore_snapshot id vol calls = restore_by id vol calls (get_secrets_from_snapshot_id id)

  find_class_pending :
      (id : Str) (before after : List SnapshotContent) (pending : SnapshotContent)
      → pending.snapshot_handle ≡ none
      → All (λ c. c.snapshot_handle ≢ some id) before
      → find_class id (before ++ pending ∷ after) ≡ none
  unfolding find_class
  find_class_pending id [] after pending hp h = rw hp refl
  find_class_pending id (c ∷ cs) after pending hp (h, hs) =
      earlier c.snapshot_handle h (find_class_pending id cs after pending hp hs)
    where
      earlier :
          (handle : Option Str)
          → handle ≢ some id
          → find_class id (cs ++ pending ∷ after) ≡ none
          → class_at id c.class_name (find_class id (cs ++ pending ∷ after)) handle ≡ none
      earlier none n e = refl
      earlier (some j) n e = elim (Bool-cases (str_eq j id)) [
        | inl same ↦ absurd (n (ap some ((str_eq_iff j id).0 same)))
        | inr other ↦ rw other e
      ]

  -- Where the cluster's contents list one without a handle, as one is until its snapshot is made,
  -- before any with the handle asked for, the run that restores the snapshot panics.
  pub restore_snapshot-panics :
      (id : Str) (vol : Volume) (calls : List RunCall) (before after : List SnapshotContent)
      (pending : SnapshotContent)
      → o.list_contents ≡ ok (before ++ pending ∷ after)
      → All (λ c. c.snapshot_handle ≢ some id) before
      → pending.snapshot_handle ≡ none
      → restore_snapshot id vol calls ≡ none
  unfolding restore_snapshot get_secrets_from_snapshot_id
  restore_snapshot-panics id vol calls before after pending hl hb hp =
      rw hl (rw (find_class_pending id before after pending hp hb) refl)

  -- What a restore has run: the list of the repository, and the job that restores the snapshot
  -- which has the id there, into the volume's export.
  abbrev pub Restores : Str → Volume → List RunCall → List RunCall → Type 0
  Restores id vol calls made =
      (r : Restic) × (out : Str) × (list : List ResticSnapshot) × (s : ResticSnapshot) × ((run_job o
          0 r (list_job r) calls).0
        ≡ output out)
      × (o.decode_list out ≡ some list)
      × In s list
      × (s.short_id ≡ id)
      × In (create_job (restore_job r id vol.ip (join_root vol.path) (get_source_volume_id s))) made
