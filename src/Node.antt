-- ===== src/Node.antt =====
-- The node server of pkg/driver/node.go. The mount library and the file system are a record of
-- operations on an unknown state.
use nifcloud_nas_csi_driver.Base.Text.{is_empty, or_empty}
use nifcloud_nas_csi_driver.Base.{
  ℕ, zero, suc, ◌+◌, ◌-◌, ◌*◌, ◌/◌, ◌%◌, ◌^◌, ◌≤◌, ◌<◌, ◌≡◌, refl, sym, ap, ap₂, ◌∙◌, subst, ◌≢◌,
  ◌↔◌, ◌⊎◌, inl, inr, Bool, true, false, not, ◌&&◌, ◌||◌, Option, none, some, List, [], ◌∷◌, ◌++◌,
  map, append-nil, append_assoc, arith, ltb, leb, ◌==◌, if◌then◌else◌, ==_iff, Bool-cases,
  Option-cases, length, take, drop, get_elem?, All, In, In-append_left, In-append_right, In-snoc,
  bit_and,
}
use nifcloud_nas_csi_driver.Base.Keys.{
  add_key, delete_key, Distinct, In-add_key_self, In-add_key, In-delete_key, delete_key-In,
  delete_key-Distinct, add_key_new,
}
use nifcloud_nas_csi_driver.Base.Assoc.{find, put, remove, find-put, find-remove, map_laws}
use nifcloud_nas_csi_driver.Base.Text.{
  Str, codes, str_eq, str_eq_iff, str_eq_refl, mem?, mem?-In, In-mem?, split, cut, Lacks,
  split-lacking, split-append, cut-append, atoi, byte_text, contains as str_contains, has_prefix,
  digits_from,
}
use nifcloud_nas_csi_driver.Base.Table.{every_below, every_below-at}
use nifcloud_nas_csi_driver.Base.Outcome.{
  Code, Error, Outcome, Done, ok, err, plain, status, cloud, not_exist, object_exists,
  invalid_argument, not_found, already_exists, aborted, internal, unimplemented, ◌>>=◌, ◌>>◌,
  bind_ok,
}
use nifcloud_nas_csi_driver.Base.Int.{ℤ, pos, negsuc, wrap, ◌*ℤ◌, ◌-ℤ◌}
use nifcloud_nas_csi_driver.Driver.{
  AccessMode, AccessType, block, mount, VolumeCapability, validate_volume_capabilities, Driver,
  NodeRpc,
}
pub mod Mounts
pub mod Published
pub mod Unpublished
pub mod Register

-- What the server calls of k8s.io/mount-utils and of os.
pub record Mounter : Type 1 where
  pub State : Type 0
  pub is_likely_not_mount_point : State → Str → Outcome Bool
  pub mount_source : State → Str → Str → Str → List Str → Outcome Done × State
  pub unmount : State → Str → Outcome Done × State
  pub mkdir_all : State → Str → Outcome Done × State
  pub stat : State → Str → Outcome Done

pub record NodePublishVolumeRequest : Type 0 where
  pub target_path : Str
  pub readonly : Bool
  pub capability : Option VolumeCapability
  pub volume_context : List (Str × Str)

-- A missing key and an empty address are refused; an empty path is not.
abbrev pub ip_set : Option Str → Bool
ip_set none = false
ip_set (some ip) = not (is_empty ip)

abbrev pub path_set : Option Str → Bool
path_set none = false
path_set (some path) = true

unfoldable pub validate_volume_attributes : List (Str × Str) → Outcome Done
unfolding find
validate_volume_attributes attr =
    if ip_set (find (codes "ip") attr)
    then (if path_set (find (codes "path") attr) then ok tt else err plain)
    else err plain

-- The options of the capability's mount, behind `ro`.
abbrev pub flags_of_type : Option AccessType → List Str
flags_of_type none = []
flags_of_type (some block) = []
flags_of_type (some (mount flags)) = flags

abbrev pub mount_flags : Option VolumeCapability → List Str
mount_flags none = []
mount_flags (some c) = flags_of_type c.access_type

unfoldable pub mount_options : NodePublishVolumeRequest → List Str
mount_options req = (if req.readonly then codes "ro" ∷ [] else []) ++ mount_flags req.capability

unfoldable pub mount_path : NodePublishVolumeRequest → Str
unfolding find
mount_path req =
    or_empty (find (codes "ip") req.volume_context)
    ++ (codes ":/" ++ or_empty (find (codes "path") req.volume_context))

module _ (m : Mounter) (windows : Bool) where
  abbrev pub Run : Type 0
  Run = Outcome Done × m.State

  abbrev pub negated : Outcome Bool → Outcome Bool
  negated (ok b) = ok (not b)
  negated (err e) = err e

  unfoldable pub is_dir_mounted : m.State → Str → Outcome Bool
  is_dir_mounted s path = negated (m.is_likely_not_mount_point s path)

  abbrev pub plain_error : Run → Run
  plain_error (ok u, s) = (ok u, s)
  plain_error (err e, s) = (err plain, s)

  abbrev pub unmounted : m.State → Str → Outcome Bool → Run
  unmounted s path (ok true) = plain_error (m.unmount s path)
  unmounted s path (ok false) = (ok tt, s)
  unmounted s path (err not_exist) = (ok tt, s)
  unmounted s path (err e) = (err plain, s)

  unfoldable pub unmount_path : m.State → Str → Run
  unfolding is_dir_mounted
  unmount_path s path = unmounted s path (is_dir_mounted s path)

  -- After a mount that fails, the path is unmounted; an error of that is only logged.
  abbrev pub after_mount : Str → Run → Run
  after_mount target (ok u, s) = (ok tt, s)
  after_mount target (err e, s) = (err (status internal), (unmount_path s target).1)

  unfoldable pub mount_volume : NodePublishVolumeRequest → m.State → Run
  unfolding mount_options mount_path unmount_path
  mount_volume req s =
      after_mount req.target_path
        (m.mount_source s (mount_path req) req.target_path (codes "nfs") (mount_options req))

  -- The target path is made where it is not there.
  abbrev pub after_stat : NodePublishVolumeRequest → m.State → Outcome Done → Run
  after_stat req s (ok u) = mount_volume req s
  after_stat req s (err e) = (err plain, s)

  abbrev pub after_mkdir : NodePublishVolumeRequest → Run → Run
  after_mkdir req (ok u, s) = after_stat req s (m.stat s req.target_path)
  after_mkdir req (err e, s) = (err plain, s)

  abbrev pub on_mounted : NodePublishVolumeRequest → m.State → Outcome Bool → Run
  on_mounted req s (ok true) = (ok tt, s)
  on_mounted req s (ok false) = mount_volume req s
  on_mounted req s (err not_exist) =
      if windows then mount_volume req s else after_mkdir req (m.mkdir_all s req.target_path)
  on_mounted req s (err e) = (err e, s)

  abbrev pub on_attributes : NodePublishVolumeRequest → m.State → Outcome Done → Run
  on_attributes req s (ok u) = on_mounted req s (is_dir_mounted s req.target_path)
  on_attributes req s (err e) = (err (status invalid_argument), s)

  abbrev pub on_capability : NodePublishVolumeRequest → m.State → Outcome Done → Run
  on_capability req s (ok u) = on_attributes req s (validate_volume_attributes req.volume_context)
  on_capability req s (err e) = (err (status invalid_argument), s)

  unfoldable pub node_publish_volume : List AccessMode → NodePublishVolumeRequest → m.State → Run
  unfolding is_dir_mounted mount_volume validate_volume_attributes validate_volume_capabilities
  node_publish_volume vcap req s =
      if is_empty req.target_path
      then (err (status invalid_argument), s)
      else on_capability req s (validate_volume_capabilities vcap (req.capability ∷ []))

  abbrev pub internal_error : Run → Run
  internal_error (ok u, s) = (ok tt, s)
  internal_error (err e, s) = (err (status internal), s)

  unfoldable pub node_unpublish_volume : Str → m.State → Run
  unfolding unmount_path
  node_unpublish_volume [] s = (err (status invalid_argument), s)
  node_unpublish_volume (c ∷ path) s = internal_error (unmount_path s (c ∷ path))

-- NodeGetInfo, with its bound on the volumes of a node, and NodeGetCapabilities.
pub record NodeInfo : Type 0 where
  pub node_id : Str
  pub max_volumes_per_node : ℕ

unfoldable pub node_get_info : Str → NodeInfo
node_get_info node_id = record { node_id = node_id; max_volumes_per_node = 128 }

unfoldable pub node_get_capabilities : Driver → List NodeRpc
node_get_capabilities driver = driver.nscap

-- unix.Statfs_t, and the statistics in int64. A path that is not there is ENOENT, `not_exist`.
pub record Statfs : Type 0 where
  pub bavail : ℤ
  pub bsize : ℤ
  pub blocks : ℤ
  pub bfree : ℤ
  pub ffree : ℤ
  pub files : ℤ

pub record VolumeStats : Type 0 where
  pub avail_bytes : ℤ
  pub total_bytes : ℤ
  pub used_bytes : ℤ
  pub avail_inodes : ℤ
  pub total_inodes : ℤ
  pub used_inodes : ℤ

unfoldable pub get_volume_stats : Statfs → VolumeStats
unfolding wrap ◌*ℤ◌ ◌-ℤ◌
get_volume_stats s = record {
  avail_bytes = wrap (wrap s.bavail *ℤ s.bsize);
  total_bytes = wrap (wrap s.blocks *ℤ s.bsize);
  used_bytes = wrap (wrap (wrap s.blocks -ℤ wrap s.bfree) *ℤ s.bsize);
  avail_inodes = wrap s.ffree;
  total_inodes = wrap s.files;
  used_inodes = wrap (wrap s.files -ℤ wrap s.ffree);
}

abbrev pub stats_of : Outcome Statfs → Outcome VolumeStats
stats_of (ok s) = ok (get_volume_stats s)
stats_of (err not_exist) = err (status not_found)
stats_of (err e) = err (status internal)

unfoldable pub node_get_volume_stats : (Str → Outcome Statfs) → Str → Outcome VolumeStats
unfolding get_volume_stats
node_get_volume_stats statfs [] = err (status invalid_argument)
node_get_volume_stats statfs (c ∷ path) = stats_of (statfs (c ∷ path))
