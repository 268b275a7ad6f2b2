-- ===== src/Cloud.antt =====
-- What pkg/cloud/cloud.go computes around the calls of the SDK: volume ids, and the DHCP addresses of
-- one network.
use nifcloud_nas_csi_driver.Base.{
  ◌≡◌, refl, Bool, false, Option, none, some, List, [], ◌∷◌, ◌++◌, if◌then◌else◌,
}
use nifcloud_nas_csi_driver.Base.Int.{ℤ}
use nifcloud_nas_csi_driver.Base.Text.{
  Str, codes, str_eq, split, Lacks, split-lacking, split-append,
}
use nifcloud_nas_csi_driver.Base.Outcome.{Outcome, ok, err, plain, ◌>>=◌}

-- nas.NASInstance: of the pointers those that the driver reads, `none` for nil.
pub record NasInstance : Type 0 where
  pub identifier : Str
  pub instance_type : ℤ
  pub allocated_storage : Option Str
  pub network_id : Option Str
  pub availability_zone : Option Str
  pub security_groups : List Str
  pub instance_status : Str
  pub no_root_squash : Str
  pub private_address : Option Str

unfoldable pub generate_volume_id_from_nas_instance : Str → NasInstance → Str
generate_volume_id_from_nas_instance region n = region ++ b'/' ∷ n.identifier

-- The name in a volume id of two parts.
abbrev pub two_parts : List Str → Outcome Str
two_parts (region ∷ name ∷ []) = ok name
two_parts _ = err plain

unfoldable pub name_of_volume_id : Str → Outcome Str
unfolding split
name_of_volume_id id = two_parts (split b'/' id)

unfoldable pub get_nas_instance_from_volume_id :
    (Str → Outcome NasInstance) → Str → Outcome NasInstance
unfolding name_of_volume_id
get_nas_instance_from_volume_id get_nas_instance id = do
  name ← name_of_volume_id id
  get_nas_instance name

-- computing.InstancesSet as its id, by reservation.
unfoldable pub list_instances : Outcome (List (List Str)) → Outcome (List Str)
list_instances (err e) = err e
list_instances (ok sets) = ok (concat sets)
  where
    concat : List (List Str) → List Str
    concat [] = []
    concat (r ∷ rs) = r ++ concat rs

-- DhcpStatusInformation: a network with its pools, as the two ends, and its leases.
pub record DhcpIp : Type 0 where
  pub ip_address : Str
  pub lease_type : Option Str

pub record DhcpStatus : Type 0 where
  pub network_id : Str
  pub pools : List (Str × Str)
  pub ips : List DhcpIp

abbrev pub is_static : Option Str → Bool
is_static none = false
is_static (some t) = str_eq t (codes "static")

unfoldable pub static_ips : List DhcpIp → List DhcpIp
static_ips [] = []
static_ips (i ∷ is) = let rest = static_ips is in if is_static i.lease_type then i ∷ rest else rest

unfoldable pub dhcp_of : Str → List DhcpStatus → List (Str × Str) × List DhcpIp
unfolding static_ips
dhcp_of network_id [] = ([], [])
dhcp_of network_id (d ∷ ds) =
    let (pools, ips) = dhcp_of network_id ds in
    if str_eq d.network_id network_id
    then (d.pools ++ pools, static_ips d.ips ++ ips)
    else (pools, ips)

unfoldable pub get_dhcp_status :
    Str → Outcome (List DhcpStatus) → Outcome (List (Str × Str) × List DhcpIp)
unfolding dhcp_of
get_dhcp_status network_id answer = do statuses ← answer; ok (dhcp_of network_id statuses)

-- A volume id that the driver makes is read back as the instance's name.
pub name_of_volume_id-generate :
    (region : Str) (n : NasInstance)
    → Lacks b'/' region
    → Lacks b'/' n.identifier
    → name_of_volume_id (generate_volume_id_from_nas_instance region n) ≡ ok n.identifier
unfolding name_of_volume_id generate_volume_id_from_nas_instance
name_of_volume_id-generate region n r i =
    rw (split-append b'/' region n.identifier r) (rw (split-lacking b'/' n.identifier i) refl)
