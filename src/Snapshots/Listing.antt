-- ===== src/Snapshots/Listing.antt =====
-- ListSnapshots of pkg/driver/snapshot.go, and what it lists.
use nifcloud_nas_csi_driver.Base.{
  ◌≡◌, refl, sym, ap, ◌∙◌, subst, ◌≢◌, inl, inr, Bool, true, Option, none, some, List, [], ◌∷◌, map,
  if◌then◌else◌, Bool-cases, In,
}
use nifcloud_nas_csi_driver.Base.Text.{Str, is_empty, str_eq, str_eq_iff}
use nifcloud_nas_csi_driver.Base.Outcome.{Outcome, ok, err, status, internal, ◌>>=◌}
use nifcloud_nas_csi_driver.Base.Int.{ℤ, pos}
use nifcloud_nas_csi_driver.Restic.{
  ResticSnapshot, CsiSnapshot, Restic, timed_snapshot, get_source_volume_id, new_csi_snapshot,
  new_restic, list_job,
}
use nifcloud_nas_csi_driver.Restic.Run.{RunCall, RunResult, output, failed}
use nifcloud_nas_csi_driver.Snapshots.{
  Outside, ListSnapshotsRequest, Handled, or_internal, decoded, find_snapshot, run_job, on_output,
}

-- The snapshots of a source volume, or all of them where none is asked for.
abbrev pub matches : Str → ResticSnapshot → Bool
matches [] s = true
matches (c ∷ volume_id) s = str_eq (c ∷ volume_id) (get_source_volume_id s)

module _ {T : Type 0} (o : Outside T) where
  abbrev pub in_front :
      Outcome (CsiSnapshot T) → Outcome (List (CsiSnapshot T)) → Outcome (List (CsiSnapshot T))
  in_front (err e) rest = err e
  in_front (ok s) (err e) = err e
  in_front (ok s) (ok ss) = ok (s ∷ ss)

  -- The loop over the list; the first snapshot that has no translation ends it with an error.
  unfoldable pub matching_entries : Str → List ResticSnapshot → Outcome (List (CsiSnapshot T))
  unfolding get_source_volume_id new_csi_snapshot
  matching_entries volume_id [] = ok []
  matching_entries volume_id (s ∷ ss) =
      let rest = matching_entries volume_id ss in
      if matches volume_id s
      then in_front (or_internal (new_csi_snapshot o.timestamp s (pos 0))) rest
      else rest

  abbrev pub one_entry : Option ResticSnapshot → Outcome (List (CsiSnapshot T))
  one_entry none = ok []
  one_entry (some s) = in_front (or_internal (new_csi_snapshot o.timestamp s (pos 0))) (ok [])

  abbrev pub entries_of :
      ListSnapshotsRequest → List ResticSnapshot → Outcome (List (CsiSnapshot T))
  entries_of req list =
      if is_empty req.snapshot_id
      then matching_entries req.source_volume_id list
      else one_entry (find_snapshot req.snapshot_id list)

  abbrev pub list_output :
      ListSnapshotsRequest → Str → List RunCall → Handled (List (CsiSnapshot T))
  list_output req out calls = (decoded (o.decode_list out) >>= entries_of req, calls)

  abbrev pub list_with :
      ListSnapshotsRequest → List RunCall → Outcome Restic → Handled (List (CsiSnapshot T))
  list_with req calls (err e) = (err (status internal), calls)
  list_with req calls (ok r) = on_output o (list_output req) (run_job o 0 r (list_job r) calls)

  unfoldable pub list_snapshots :
      ListSnapshotsRequest → List RunCall → Handled (List (CsiSnapshot T))
  unfolding run_job new_restic list_job find_snapshot new_csi_snapshot matching_entries
  list_snapshots req calls = list_with req calls (new_restic o.getenv req.secrets)

-- The snapshots of the repository that a list request without an id asks for.
unfoldable pub matching : Str → List ResticSnapshot → List ResticSnapshot
unfolding get_source_volume_id
matching volume_id [] = []
matching volume_id (s ∷ ss) =
    let rest = matching volume_id ss in if matches volume_id s then s ∷ rest else rest

module _ {T : Type 0} (o : Outside T) where
  matching_entries_lem :
      (volume_id : Str) (list : List ResticSnapshot) (entries : List (CsiSnapshot T))
      → matching_entries o volume_id list ≡ ok entries
      → map (λ s. new_csi_snapshot o.timestamp s (pos 0)) (matching volume_id list) ≡ map ok entries
  unfolding matching_entries matching
  matching_entries_lem volume_id [] entries h =
      let none_there : [] ≡ entries = cc h in rw (sym none_there) refl
  matching_entries_lem volume_id (s ∷ ss) entries h = elim (Bool-cases (matches volume_id s)) [
    | inl m ↦ rw m (
        front (new_csi_snapshot o.timestamp s (pos 0)) (matching_entries o volume_id ss)
          (λ es. matching_entries_lem volume_id ss es) (rw m at h))
    | inr m ↦ rw m (matching_entries_lem volume_id ss entries (rw m at h))
  ]
    where
      front :
          (x : Outcome (CsiSnapshot T)) (xs : Outcome (List (CsiSnapshot T)))
          → ((es : List (CsiSnapshot T))
              → xs ≡ ok es
              → map (λ s'. new_csi_snapshot o.timestamp s' (pos 0)) (matching volume_id ss)
                ≡ map ok es)
          → in_front o (or_internal x) xs ≡ ok entries
          → x ∷ map (λ s'. new_csi_snapshot o.timestamp s' (pos 0)) (matching volume_id ss)
            ≡ map ok entries
      front (ok e) (ok es) later h' =
          let same : e ∷ es ≡ entries = cc h' in rw (sym same) (ap (λ l. ok e ∷ l) (later es refl))
      front (err e) xs later h' = absurd (cc h')
      front (ok e) (err x) later h' = absurd (cc h')

  list_with_lem :
      (req : ListSnapshotsRequest) (calls : List RunCall) (r : Restic)
      (entries : List (CsiSnapshot T)) (made : List RunCall)
      → list_with o req calls (ok r) ≡ (ok entries, made)
      → (out : Str) × (list : List ResticSnapshot) × ((run_job o 0 r (list_job r) calls).0
          ≡ output out)
        × (o.decode_list out ≡ some list)
        × (entries_of o req list ≡ ok entries)
  list_with_lem req calls r entries made h = by_output (run_job o 0 r (list_job r) calls) refl h
    where
      by_list :
          (out : Str) (calls' : List RunCall) (d : Option (List ResticSnapshot))
          → o.decode_list out ≡ d
          → (decoded d >>= entries_of o req) ≡ ok entries
          → (list : List ResticSnapshot) × (o.decode_list out ≡ some list)
            × (entries_of o req list ≡ ok entries)
      by_list out calls' none hd h' = absurd (cc h')
      by_list out calls' (some list) hd h' = (list, hd, h')

      by_output :
          (x : RunResult × List RunCall)
          → run_job o 0 r (list_job r) calls ≡ x
          → on_output o (list_output o req) x ≡ (ok entries, made)
          → (out : Str) × (list : List ResticSnapshot) × ((run_job o 0 r (list_job r) calls).0
              ≡ output out)
            × (o.decode_list out ≡ some list)
            × (entries_of o req list ≡ ok entries)
      by_output (output out, calls') hx h' =
          let (list, hd, he) = by_list out calls' (o.decode_list out) refl (ap (λ y. y.0) h') in
          (out, list, ap (λ y. y.0) hx, hd, he)
      by_output (failed text, calls') hx h' = absurd (cc (ap (λ y. y.0) h'))

  pub found_id :
      (id : Str) (list : List ResticSnapshot) (s : ResticSnapshot)
      → find_snapshot id list ≡ some s
      → (s.short_id ≡ id) × In s list
  unfolding find_snapshot
  found_id id [] s h = absurd (cc h)
  found_id id (x ∷ xs) s h = elim (Bool-cases (str_eq x.short_id id)) [
    | inl same ↦
        let this : x ≡ s = cc (rw same at h) in
        (subst (λ y. y.short_id ≡ id) this ((str_eq_iff x.short_id id).0 same), inl this)
    | inr other ↦ let (e, m) = found_id id xs s (rw other at h) in (e, inr m)
  ]

  abbrev from_ok : {B : Type 0} → (CsiSnapshot T → B) → B → Outcome (CsiSnapshot T) → B
  from_ok f b (ok e) = f e
  from_ok f b (err x) = b

  pub translation_id :
      (s : ResticSnapshot) (size : ℤ) (e : CsiSnapshot T)
      → new_csi_snapshot o.timestamp s size ≡ ok e
      → (e.snapshot_id ≡ s.short_id)
        × (e.source_volume_id ≡ get_source_volume_id s)
        × (e.source_volume_id ≢ [])
        × (e.size_bytes ≡ size)
  unfolding new_csi_snapshot
  translation_id s size e h = of (get_source_volume_id s) (o.timestamp s.time) refl h
    where
      of :
          (volume_id : Str) (ts : Option T)
          → get_source_volume_id s ≡ volume_id
          → timed_snapshot s size volume_id ts ≡ ok e
          → (e.snapshot_id ≡ s.short_id)
            × (e.source_volume_id ≡ get_source_volume_id s)
            × (e.source_volume_id ≢ [])
            × (e.size_bytes ≡ size)
      of volume_id none hv h' = absurd (cc h')
      of [] (some ts) hv h' = absurd (cc h')
      of (c ∷ volume_id) (some ts) hv h' = (
        sym (ap (from_ok (λ y. y.snapshot_id) []) h'),
        same_source ∙ sym hv,
        (λ none_there. absurd (cc (none_there, same_source))),
        sym (ap (from_ok (λ y. y.size_bytes) (pos 0)) h'),
      )
        where
          same_source : e.source_volume_id ≡ c ∷ volume_id
          same_source = sym (ap (from_ok (λ y. y.source_volume_id) []) h')

  -- A listing without an id that succeeds answers, in the order of the repository's list and each
  -- with a size of 0, the translations of exactly the snapshots of the volume asked for, or of all
  -- snapshots where no volume is asked for.
  pub list_snapshots-matching :
      (req : ListSnapshotsRequest) (calls : List RunCall) (entries : List (CsiSnapshot T))
      (made : List RunCall)
      → req.snapshot_id ≡ []
      → list_snapshots o req calls ≡ (ok entries, made)
      → (r : Restic) × (out : Str) × (list : List ResticSnapshot) × ((run_job o 0 r
            (list_job r)
            calls).0
          ≡ output out)
        × (o.decode_list out ≡ some list)
        × (map (λ s. new_csi_snapshot o.timestamp s (pos 0)) (matching req.source_volume_id list)
            ≡ map ok entries)
  unfolding list_snapshots
  list_snapshots-matching req calls entries made no_id h =
      by_restic (new_restic o.getenv req.secrets) h
    where
      by_restic :
          (x : Outcome Restic)
          → list_with o req calls x ≡ (ok entries, made)
          → (r : Restic) × (out : Str) × (list : List ResticSnapshot) × ((run_job o 0 r
                (list_job r)
                calls).0
              ≡ output out)
            × (o.decode_list out ≡ some list)
            × (map
                  (λ s. new_csi_snapshot o.timestamp s (pos 0))
                  (matching req.source_volume_id list)
                ≡ map ok entries)
      by_restic (err e) h' = absurd (cc (ap (λ y. y.0) h'))
      by_restic (ok r) h' =
          let (out, list, hx, hd, he) = list_with_lem req calls r entries made h' in
          (
            r,
            out,
            list,
            hx,
            hd,
            matching_entries_lem req.source_volume_id list entries (
                subst
                  (λ id.
                    (if is_empty id
                      then matching_entries o req.source_volume_id list
                      else one_entry o (find_snapshot id list))
                    ≡ ok entries)
                  no_id he),
          )
