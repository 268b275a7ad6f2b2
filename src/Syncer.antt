-- ===== src/Syncer.antt =====
-- NSGSyncer of pkg/driver/securitygroup_syncer.go: it keeps the authorized addresses of the cluster's
-- NAS security group equal to the private addresses of the nodes.
use nifcloud_nas_csi_driver.Base.Text.{is_empty}
use nifcloud_nas_csi_driver.Base.{
  ℕ, zero, suc, ◌+◌, ◌-◌, ◌*◌, ◌/◌, ◌%◌, ◌^◌, ◌≤◌, ◌<◌, ◌≡◌, refl, sym, ap, ap₂, ◌∙◌, subst, ◌≢◌,
  ◌↔◌, ◌⊎◌, inl, inr, Bool, true, false, not, ◌&&◌, ◌||◌, Option, none, some, List, [], ◌∷◌, ◌++◌,
  map, append-nil, append_assoc, arith, ltb, leb, ◌==◌, if◌then◌else◌, ==_iff, Bool-cases,
  Option-cases, length, take, drop, get_elem?, All, In, In-append_left, In-append_right, bit_and,
}
use nifcloud_nas_csi_driver.Base.Keys.{
  add_key, delete_key, Distinct, In-add_key_self, In-add_key, In-delete_key, delete_key-In,
  delete_key-Distinct, add_key_new,
}
use nifcloud_nas_csi_driver.Base.Assoc.{find, put, remove, find-put, find-remove, map_laws}
use nifcloud_nas_csi_driver.Base.Text.{
  Str, codes, str_eq, str_eq_iff, str_eq_refl, mem?, mem?-In, In-mem?, split, cut, Lacks,
  split-lacking, split-append, cut-append, atoi, byte_text, contains as str_contains, has_prefix,
  digits_from,
}
use nifcloud_nas_csi_driver.Base.Outcome.{
  Code, Error, Outcome, Done, ok, err, plain, status, cloud, not_exist, object_exists,
  invalid_argument, not_found, already_exists, aborted, internal, unimplemented, ◌>>=◌, ◌>>◌,
  bind_ok,
}
pub mod Sync
pub mod Edits
pub mod Restore
pub mod Stage

pub record CsiNode : Type 0 where
  pub annotations : List (Str × Str)

pub record StorageClass : Type 0 where
  pub provisioner : Str
  pub parameters : List (Str × Str)

-- A PersistentVolume: of its spec.csi the driver's name and the handle.
pub record CsiSource : Type 0 where
  pub driver : Str
  pub volume_handle : Str

pub record PersistentVolume : Type 0 where
  pub csi : Option CsiSource

pub record SecurityGroupInput : Type 0 where
  pub availability_zone : Str
  pub group_name : Str

pub record IpRange : Type 0 where
  pub cidr_ip : Str
  pub range_status : Str

pub record NasSecurityGroup : Type 0 where
  pub ip_ranges : List IpRange

pub record NasInstance : Type 0 where
  pub identifier : Str
  pub security_groups : List Str

pub record Config : Type 0 where
  pub driver_name : Str
  pub cluster_uid : Str

-- What the Kubernetes API, the cloud and the clock answer during one run, and the order in which Go
-- visits the keys of a map.
pub record Answers : Type 0 where
  pub now : ℕ
  pub csi_nodes : Outcome (List CsiNode)
  pub kube_system_uid : Outcome Str
  pub storage_classes : Outcome (List StorageClass)
  pub get_security_group : Str → Outcome NasSecurityGroup
  pub create_security_group : SecurityGroupInput → Outcome NasSecurityGroup
  pub persistent_volumes : Outcome (List PersistentVolume)
  pub get_instance : Str → Outcome NasInstance
  pub change_security_group : Str → Str → Outcome Done
  pub authorize_cidr_ip : Str → Str → Outcome Done
  pub revoke_cidr_ip : Str → Str → Outcome Done
  pub map_order : List Str → List Str

-- The calls that change something in the cloud.
pub data Call : Type 0 where
  create_group : SecurityGroupInput → Call
  change_group : Str → Str → Call
  authorize : Str → Str → Call
  revoke : Str → Str → Call

pub record NsgSyncer : Type 0 where
  pub sync_period : ℕ
  pub internal_chk_intvl : ℕ
  pub cloud_chk_intvl : ℕ
  pub has_task : Bool
  pub restore_cluster_id : Bool
  pub last_node_private_ips : Option (List Str)
  pub last_security_group_input : Option SecurityGroupInput

unfoldable pub new_nsg_syncer : Bool → NsgSyncer
new_nsg_syncer restore = record {
  sync_period = 30;
  internal_chk_intvl = 300;
  cloud_chk_intvl = 3600;
  has_task = true;
  restore_cluster_id = restore;
  last_node_private_ips = none;
  last_security_group_input = none;
}

-- A run returns its error, the syncer and the calls it made, in order.
abbrev pub Run : Type 0
Run = Outcome Done × NsgSyncer × List Call

abbrev pub fails : NsgSyncer → List Call → Run
fails s calls = (err plain, s, calls)

abbrev pub returns : NsgSyncer → List Call → Run
returns s calls = (ok tt, s, calls)

-- m[k] of a Go map: the zero value where the key is missing.
abbrev pub or_empty : Option Str → Str
or_empty none = []
or_empty (some v) = v

unfoldable pub get : Str → List (Str × Str) → Str
unfolding find
get k m = or_empty (find k m)

-- The set of the nodes' private addresses, from the annotations of the CSINodes.
unfoldable pub node_private_ips : Str → List CsiNode → List Str
unfolding add_key get
node_private_ips name [] = []
node_private_ips name (node ∷ nodes) =
    let rest = node_private_ips name nodes in
    let ip = get (name ++ codes "/privateIp") node.annotations in
    if is_empty ip then rest else add_key ip rest

-- getClusterUID and getSecurityGroupName.
unfoldable pub get_cluster_uid : Config → Outcome Str → Outcome Str
get_cluster_uid config uid = if is_empty config.cluster_uid then uid else ok config.cluster_uid

unfoldable pub get_security_group_name : Config → Outcome Str → Outcome Str
unfolding get_cluster_uid
get_security_group_name config uid = do u ← get_cluster_uid config uid; ok (codes "cluster-" ++ u)

-- The first class of this driver with a zone gives the group to keep.
unfoldable pub find_input : Str → Str → List StorageClass → Option SecurityGroupInput
unfolding get
find_input name group_name [] = none
find_input name group_name (class ∷ classes) =
    let rest = find_input name group_name classes in
    let zone = get (codes "zone") class.parameters in
    if str_eq class.provisioner name && (not (is_empty group_name) && not (is_empty zone))
    then some (record { availability_zone = zone; group_name = group_name })
    else rest

-- reflect.DeepEqual on two sets of keys and on two inputs.
unfoldable pub same_keys : List Str → List Str → Bool
same_keys [] ks = true
same_keys (j ∷ js) ks = mem? j ks && same_keys js ks

abbrev pub same_input : SecurityGroupInput → SecurityGroupInput → Bool
same_input a b = str_eq a.availability_zone b.availability_zone && str_eq a.group_name b.group_name

abbrev pub as_before :
    Option (List Str) → Option SecurityGroupInput → List Str → SecurityGroupInput → Bool
as_before (some last) (some last_input) ips input =
    same_keys ips last && same_keys last ips && same_input input last_input
as_before _ _ ips input = false

unfoldable pub unchanged : NsgSyncer → List Str → SecurityGroupInput → Bool
unfolding same_keys
unchanged s ips input = as_before s.last_node_private_ips s.last_security_group_input ips input

abbrev pub is_not_found : Error → Bool
is_not_found (cloud code) = str_contains code (codes "NotFound")
is_not_found e = false

-- The loops that look for one address to authorize and for one range to revoke.
unfoldable pub has_range : Str → List IpRange → Bool
has_range range [] = false
has_range range (r ∷ rs) = str_eq r.cidr_ip range || has_range range rs

unfoldable pub first_missing : List Str → List IpRange → Option Str
unfolding has_range
first_missing [] ranges = none
first_missing (ip ∷ ips) ranges =
    let rest = first_missing ips ranges in
    if has_range (ip ++ codes "/32") ranges then rest else some (ip ++ codes "/32")

unfoldable pub node_exists : Str → List Str → Bool
node_exists range [] = false
node_exists range (ip ∷ ips) = str_eq range (ip ++ codes "/32") || node_exists range ips

unfoldable pub first_stale : List IpRange → List Str → Option Str
unfolding node_exists
first_stale [] ips = none
first_stale (r ∷ rs) ips =
    let rest = first_stale rs ips in if node_exists r.cidr_ip ips then rest else some r.cidr_ip

unfoldable pub editable : List IpRange → Bool
editable [] = true
editable (r ∷ rs) = str_eq r.range_status (codes "authorized") && editable rs
