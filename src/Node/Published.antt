-- ===== src/Node/Published.antt =====
-- What a publish of pkg/driver/node.go does to the table of mounts.
use nifcloud_nas_csi_driver.Base.{
  All, In, some, ◌++◌, ◌≡◌, ◌⊎◌, Bool, true, false, [], ◌∷◌, if◌then◌else◌,
}
use nifcloud_nas_csi_driver.Base.Text.{Str, codes}
use nifcloud_nas_csi_driver.Base.Assoc.{find}
use nifcloud_nas_csi_driver.Base.Outcome.{Outcome, Done, ok, err}
use nifcloud_nas_csi_driver.Node.{mount_flags, Mounter, NodePublishVolumeRequest}
use nifcloud_nas_csi_driver.Node.Mounts.{Entry, IsPlain, IsLawful, elsewhere}

module _ (m : Mounter) (lawful : IsLawful m) (windows : Bool) where
  -- The mount that a request asks for.
  abbrev pub Requested : NodePublishVolumeRequest → Entry → Type 0
  Requested req e =
      (ip path : Str) × (find (codes "ip") req.volume_context ≡ some ip)
      × (find (codes "path") req.volume_context ≡ some path)
      × (e ≡ record {
        source = ip ++ (codes ":/" ++ path);
        target = req.target_path;
        fstype = codes "nfs";
        options = (if req.readonly then codes "ro" ∷ [] else []) ++ mount_flags req.capability;
      })

  -- The table after a publish: a success leaves it alone where the target is mounted, or puts the
  -- mount asked for in front; an error leaves the entries at the other paths.
  abbrev pub Added : NodePublishVolumeRequest → m.State → Outcome Done × m.State → Type 0
  Added req s (ok u, t) =
      ((lawful.table t ≡ lawful.table s)
        × ((e : Entry) × In e (lawful.table s) × (e.target ≡ req.target_path)))
      ⊎ ((e : Entry) × Requested req e × (lawful.table t ≡ e ∷ lawful.table s))
  Added req s (err x, t) =
      elsewhere req.target_path (lawful.table t) ≡ elsewhere req.target_path (lawful.table s)

  module _ (req : NodePublishVolumeRequest)
      (plain_flags : All IsPlain (mount_flags req.capability)) where
    pub options-IsPlain :
        All IsPlain ((if req.readonly then codes "ro" ∷ [] else []) ++ mount_flags req.capability)
    options-IsPlain = with_ro req.readonly
      where
        with_ro :
            (b : Bool)
            → All IsPlain ((if b then codes "ro" ∷ [] else []) ++ mount_flags req.capability)
        with_ro true = (
          ((λ e. absurd (cc e)), (λ e. absurd (cc e)), (λ e. absurd (cc e)), λ e. absurd (cc e)),
          plain_flags,
        )
        with_ro false = plain_flags

    -- The volume context names a server and a path.
    abbrev Named : Type 0
    Named =
        (ip path : Str) × (find (codes "ip") req.volume_context ≡ some ip)
        × (find (codes "path") req.volume_context ≡ some path)
