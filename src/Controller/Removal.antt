-- ===== src/Controller/Removal.antt =====
-- When DeleteVolume of pkg/driver/controller.go deletes an instance.
use nifcloud_nas_csi_driver.Base.{
  ◌≡◌, refl, subst, ◌⊎◌, inl, inr, Bool, true, false, not, ◌&&◌, Option, none, some, List, [], ◌∷◌,
  arith, Bool-cases, All, In, In-snoc,
}
use nifcloud_nas_csi_driver.Base.Text.{Str, str_eq, str_eq_iff}
use nifcloud_nas_csi_driver.Base.Outcome.{Outcome, Done, ok, err}
use nifcloud_nas_csi_driver.Queue.{OperateResourceQueue, queue, unset_queue}
use nifcloud_nas_csi_driver.Cloud.{NasInstance, get_nas_instance_from_volume_id}
use nifcloud_nas_csi_driver.Jobs.{JobCall, remove_source_path}
use nifcloud_nas_csi_driver.Controller.{get_nas_instance_private_ip}
use nifcloud_nas_csi_driver.Controller.Shared.{
  PersistentVolume, in_nas, nas_found, no_other_pvs, no_other_pvs_in_shared_nas,
}
use nifcloud_nas_csi_driver.Controller.Delete.{
  DeleteCall, delete_nas, DeleteAnswers, parse_volume_id, Deletion, job_calls, if_last, removed,
  queued, with_queue, unqueued, delete_on, on_answer, delete_volume,
}

-- No volume on an instance but the one of that name.
abbrev pub Alone : Str → Str → List PersistentVolume → Type 0
Alone path nas_name = All (λ pv. in_nas nas_name pv ≡ true → path ≡ pv.name)

no_other_pvs-Alone :
    (path nas_name : Str) (pvs : List PersistentVolume)
    → no_other_pvs path nas_name pvs ≡ true
    → Alone path nas_name pvs
unfolding no_other_pvs
no_other_pvs-Alone path nas_name [] h = tt
no_other_pvs-Alone path nas_name (pv ∷ pvs) h = (
  (λ i. named (Bool-cases (str_eq path pv.name)) i),
  no_other_pvs-Alone path nas_name pvs (all h),
)
  where
    all :
        not (in_nas nas_name pv && not (str_eq path pv.name)) && no_other_pvs path nas_name pvs
          ≡ true
        → no_other_pvs path nas_name pvs ≡ true
    all e = ground arith

    named :
        (str_eq path pv.name ≡ true) ⊎ (str_eq path pv.name ≡ false)
        → in_nas nas_name pv ≡ true
        → path ≡ pv.name
    named (inl same) i = (str_eq_iff path pv.name).0 same
    named (inr other) i = absurd (cc (rw (i, other) at h))

module _ (a : DeleteAnswers) (id path : Str) where
  -- Why an instance may be deleted.
  abbrev pub MayDelete : Str → Type 0
  MayDelete name =
      (n : NasInstance) × (pvs : List PersistentVolume) × (get_nas_instance_from_volume_id
          a.get_nas_instance id
        ≡ ok n)
      × (n.identifier ≡ name)
      × (a.persistent_volumes ≡ ok pvs)
      × Alone path name pvs

  abbrev Justified : List DeleteCall → Type 0
  Justified calls = (name : Str) → In (delete_nas name) calls → MayDelete name

  abbrev JustifiedRun : Deletion → Type 0
  JustifiedRun d =
      (r : Outcome Done) (q : OperateResourceQueue) (calls : List DeleteCall)
      → d ≡ some (r, q, calls)
      → Justified calls

  jobs_lem : (made : List JobCall) → Justified (job_calls made)
  jobs_lem [] name m = absurd m
  jobs_lem (c ∷ made) name (inl e) = absurd (cc e)
  jobs_lem (c ∷ made) name (inr m) = jobs_lem made name m

  module _ (n : NasInstance)
      (found : get_nas_instance_from_volume_id a.get_nas_instance id ≡ ok n) where
    last_lem :
        (r : Outcome (List PersistentVolume))
        → a.persistent_volumes ≡ r
        → no_other_pvs_in_shared_nas path n.identifier r ≡ ok true
        → MayDelete n.identifier
    unfolding no_other_pvs_in_shared_nas
    last_lem (err e) eq h = absurd (cc h)
    last_lem (ok pvs) eq h = elim (Bool-cases (nas_found n.identifier pvs)) [
      | inl here ↦
          (n, pvs, found, refl, eq, no_other_pvs-Alone path n.identifier pvs (only (rw here at h)))
      | inr missing ↦ absurd (cc (rw missing at h))
    ]
      where
        only :
            ok (no_other_pvs path n.identifier pvs) ≡ ok true
            → no_other_pvs path n.identifier pvs ≡ true
        only e = cc

    if_last_lem :
        (q : OperateResourceQueue) (made : List JobCall) (r : Outcome Bool)
        → no_other_pvs_in_shared_nas path n.identifier a.persistent_volumes ≡ r
        → Justified (if_last a n.identifier q (job_calls made) r).2
    if_last_lem q made (err e) eq name m = jobs_lem made name m
    if_last_lem q made (ok false) eq name m = jobs_lem made name m
    if_last_lem q made (ok true) eq name m =
        by_call (In-snoc (delete_nas name) (delete_nas n.identifier) (job_calls made) m)
      where
        same : delete_nas name ≡ delete_nas n.identifier → n.identifier ≡ name
        same e = cc

        by_call :
            In (delete_nas name) (job_calls made) ⊎ (delete_nas name ≡ delete_nas n.identifier)
            → MayDelete name
        by_call (inl earlier) = jobs_lem made name earlier
        by_call (inr e) = subst MayDelete (same e) (last_lem a.persistent_volumes refl eq)

    removed_lem :
        (q : OperateResourceQueue) (r : Outcome Done × List JobCall)
        → Justified (removed a n path q r).2
    removed_lem q (err e, made) = jobs_lem made
    removed_lem q (ok u, made) =
        if_last_lem q made (no_other_pvs_in_shared_nas path n.identifier a.persistent_volumes) refl

    queued_lem :
        (r : Option (Outcome Done × OperateResourceQueue)) → JustifiedRun (queued a n path r)
    unfolding remove_source_path
    queued_lem none r q calls h = absurd (cc h)
    queued_lem (some (err e, p)) r q calls h =
        let none_made : [] ≡ calls = cc h in subst Justified none_made (jobs_lem [])
    queued_lem (some (ok u, p)) r q calls h =
        let done = remove_source_path a.jobs (get_nas_instance_private_ip n) n.identifier path in
        let e : (removed a n path p done).2 ≡ calls = cc h in subst Justified e (removed_lem p done)

    with_queue_lem :
        (w : Outcome Done) (made : List DeleteCall)
        → Justified made
        → (p : Option OperateResourceQueue) → JustifiedRun (with_queue w made p)
    with_queue_lem w made j none r q calls h = absurd (cc h)
    with_queue_lem w made j (some p) r q calls h =
        let e : made ≡ calls = cc h in subst Justified e j

    unqueued_lem : (d : Deletion) → JustifiedRun d → JustifiedRun (unqueued path d)
    unfolding unset_queue
    unqueued_lem none j r q calls h = absurd (cc h)
    unqueued_lem (some (ok u, p, made)) j r q calls h =
        let e : made ≡ calls = cc h in subst Justified e (j (ok u) p made refl)
    unqueued_lem (some (err x, p, made)) j r q calls h =
        with_queue_lem (err x) made (j (err x) p made refl) (unset_queue p path) r q calls h

  on_answer_lem :
      (q : OperateResourceQueue) (x : Outcome NasInstance)
      → get_nas_instance_from_volume_id a.get_nas_instance id ≡ x
      → JustifiedRun (on_answer a q (some path) x)
  unfolding delete_on queue
  on_answer_lem q (err e) eq r p calls h =
      let none_made : [] ≡ calls = cc h in subst Justified none_made (jobs_lem [])
  on_answer_lem q (ok n) eq r p calls h =
      unqueued_lem n eq (queued a n path (queue q path)) (queued_lem n eq (queue q path)) r p calls
        h

-- DeleteVolume on the id of a shared volume deletes a NAS instance only if it is the one that the id
-- names, the PersistentVolumes could be listed, and every listed volume with the instance's name in
-- its handle is the deleted one.
pub delete_volume-MayDelete :
    (a : DeleteAnswers) (q p : OperateResourceQueue) (volume id path : Str) (r : Outcome Done)
    (calls : List DeleteCall)
    → parse_volume_id volume ≡ (id, some path)
    → delete_volume a q volume ≡ some (r, p, calls)
    → (name : Str) → In (delete_nas name) calls
    → MayDelete a id path name
unfolding delete_volume get_nas_instance_from_volume_id
delete_volume-MayDelete a q p [] id path r calls e h =
    let none_made : [] ≡ calls = cc h in
    subst (Justified a id path) none_made (jobs_lem a id path [])
delete_volume-MayDelete a q p (c ∷ volume) id path r calls e h =
    on_answer_lem a id path q (get_nas_instance_from_volume_id a.get_nas_instance id) refl r p calls
      (rw e at h)
