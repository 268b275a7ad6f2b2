-- ===== src/Controller/Create.antt =====
-- CreateVolume of pkg/driver/controller.go, as one run from its first line to its deferred calls.
use nifcloud_nas_csi_driver.Base.Text.{is_empty}
use nifcloud_nas_csi_driver.Base.{Option, none, some, List, [], ◌∷◌, ◌++◌, if◌then◌else◌}
use nifcloud_nas_csi_driver.Base.Keys.{add_key}
use nifcloud_nas_csi_driver.Base.Text.{Str, codes}
use nifcloud_nas_csi_driver.Base.Outcome.{
  Outcome, Done, ok, err, status, invalid_argument, already_exists, aborted, internal,
}
use nifcloud_nas_csi_driver.Base.Int.{ℤ}
use nifcloud_nas_csi_driver.Allocator.{IpAllocator, get_unreserved_ip, release_ip}
use nifcloud_nas_csi_driver.Names.{InstanceNameHolder, set_creating, unset_creating}
use nifcloud_nas_csi_driver.Queue.{OperateResourceQueue, unset_queue}
use nifcloud_nas_csi_driver.Cloud.{NasInstance}
use nifcloud_nas_csi_driver.Driver.{validate_volume_capabilities}
use nifcloud_nas_csi_driver.Syncer.{Config, is_not_found}
use nifcloud_nas_csi_driver.Controller.{
  compare_nas_instance_with_input, CreateVolumeRequest, Volume, parameter,
}
use nifcloud_nas_csi_driver.Controller.Shared.{convert_shared_request}
use nifcloud_nas_csi_driver.Controller.Finish.{
  Call, CreateAnswers, Act, create_and_finish, finish_volume,
}
use nifcloud_nas_csi_driver.Controller.Prepare.{Prepared, prepare_request}

-- What the controller server keeps, and the calls made.
pub record Server : Type 0 where
  pub creating_pvs : OperateResourceQueue
  pub names : InstanceNameHolder
  pub allocator : IpAllocator
  pub calls : List Call

-- The reserved addresses of the cloud; an instance without an address is a panic, `none`.
unfoldable pub reserved_ips : List NasInstance → Option (List Str)
unfolding add_key
reserved_ips [] = some []
reserved_ips (n ∷ ns) =
    let rest = reserved_ips ns in
    elim n.private_address [
      | none ↦ none
      | some ip ↦ elim rest [ none ↦ none | some ips ↦ some (add_key ip ips) ]
    ]

abbrev pub from_reserved :
    IpAllocator → Str → Option (List Str) → Option (Outcome Str × IpAllocator)
from_reserved alloc cidr none = none
from_reserved alloc cidr (some ips) = some (get_unreserved_ip alloc cidr ips)

unfoldable pub reserve_ip :
    Outcome (List NasInstance) → IpAllocator → Str → Option (Outcome Str × IpAllocator)
unfolding reserved_ips get_unreserved_ip
reserve_ip (err e) alloc cidr = some (err (status aborted), alloc)
reserve_ip (ok instances) alloc cidr = from_reserved alloc cidr (reserved_ips instances)

-- The rest of a run beside the allocator, and the deferred release of an address.
abbrev pub Leased : Type 0
Leased = Option (Outcome Volume × IpAllocator × List Call)

abbrev pub beside : IpAllocator → Option (Outcome Volume × List Call) → Leased
beside alloc none = none
beside alloc (some (r, calls)) = some (r, alloc, calls)

abbrev pub with_ip : (Str → Act Volume) → List Call → Option (Outcome Str × IpAllocator) → Leased
with_ip rest calls none = none
with_ip rest calls (some (err e, alloc)) = some (err e, release_ip alloc [], calls)
with_ip rest calls (some (ok ip, alloc)) = beside (release_ip alloc ip) (rest ip calls)

abbrev pub cidr_of : CreateVolumeRequest → Str → Str
cidr_of req [] = parameter (codes "reservedIpv4Cidr") req
cidr_of req (c ∷ cidr) = c ∷ cidr

-- A new instance, with an address of the reserved block where it is not on the common network.
abbrev pub at_ip : CreateAnswers → CreateVolumeRequest → Str → Prepared → Str → Act Volume
at_ip a req name p ip =
    create_and_finish a req name p.snapshot_id p.permission
      (record p.input { master_private_address = some (ip ++ codes "/24") })

abbrev pub in_block :
    CreateAnswers → CreateVolumeRequest → Str → Prepared → Str → IpAllocator → List Call → Leased
in_block a req name p cidr alloc calls =
    if is_empty cidr
    then some (err (status invalid_argument), alloc, calls)
    else with_ip (at_ip a req name p) calls (reserve_ip a.list_nas_instances alloc cidr)

abbrev pub on_network :
    CreateAnswers
    → CreateVolumeRequest
    → Str
    → Prepared
    → Option Str
    → IpAllocator
    → List Call
    → Leased
on_network a req name p none alloc calls =
    beside alloc (create_and_finish a req name p.snapshot_id p.permission p.input calls)
on_network a req name p (some network) alloc calls =
    in_block a req name p (cidr_of req p.cidr) alloc calls

unfoldable pub create_new :
    CreateAnswers → CreateVolumeRequest → Str → Prepared → IpAllocator → List Call → Leased
unfolding create_and_finish reserve_ip release_ip
create_new a req name p alloc calls = on_network a req name p p.input.network_id alloc calls

abbrev pub compared : Option (Outcome Done) → Act Volume → Act Volume
compared none rest calls = none
compared (some (err e)) rest calls = some (err (status already_exists), calls)
compared (some (ok u)) rest calls = rest calls

-- By whether the instance is there.
abbrev pub on_instance :
    CreateAnswers
    → CreateVolumeRequest
    → Str
    → Prepared
    → IpAllocator
    → List Call
    → Outcome NasInstance
    → Leased
on_instance a req name p alloc calls (ok n) = beside alloc (
    compared (compare_nas_instance_with_input n p.input)
      (finish_volume a req name p.snapshot_id p.permission n) calls)
on_instance a req name p alloc calls (err e) =
    if is_not_found e
    then create_new a req name p alloc calls
    else some (err (status internal), alloc, calls)

abbrev pub on_prepared :
    CreateAnswers → CreateVolumeRequest → Str → IpAllocator → List Call → Outcome Prepared → Leased
on_prepared a req name alloc calls (err e) = some (err e, alloc, calls)
on_prepared a req name alloc calls (ok p) =
    on_instance a req name p alloc calls (a.get_nas_instance 0 name)

-- The run while the name is held.
unfoldable pub create_held :
    Config → CreateAnswers → CreateVolumeRequest → Str → ℤ → IpAllocator → List Call → Leased
unfolding prepare_request compare_nas_instance_with_input create_new finish_volume
create_held config a req name cap_bytes alloc calls =
    on_prepared a req name alloc calls (prepare_request config a req name cap_bytes)

abbrev pub Result : Type 0
Result = Option (Outcome Volume × Server)

abbrev pub released : Server → InstanceNameHolder → Str → Leased → Result
released s names name none = none
released s names name (some (r, alloc, calls)) =
    some (r, record s { names = unset_creating names name; allocator = alloc; calls = calls })

abbrev pub held :
    Config
    → CreateAnswers
    → CreateVolumeRequest
    → Server
    → Str
    → ℤ
    → Outcome Done × InstanceNameHolder
    → Result
held config a req s name cap_bytes (err e, names) =
    some (err (status internal), record s { names = names })
held config a req s name cap_bytes (ok u, names) =
    released s names name (create_held config a req name cap_bytes s.allocator s.calls)

abbrev pub converted :
    Config
    → CreateAnswers
    → CreateVolumeRequest
    → Server
    → Option (Outcome (Str × ℤ) × OperateResourceQueue)
    → Result
converted config a req s none = none
converted config a req s (some (err e, q)) =
    some (err (status invalid_argument), record s { creating_pvs = q })
converted config a req s (some (ok (name, cap_bytes), q)) =
    held config a req (record s { creating_pvs = q }) name cap_bytes (set_creating s.names name)

-- The deferred UnsetQueue of a run that ends with an error.
abbrev pub in_queue : Outcome Volume → Server → Option OperateResourceQueue → Result
in_queue r s none = none
in_queue r s (some q) = some (r, record s { creating_pvs = q })

abbrev pub unqueued : Str → Result → Result
unqueued name none = none
unqueued name (some (ok vol, s)) = some (ok vol, s)
unqueued name (some (err e, s)) = in_queue (err e) s (unset_queue s.creating_pvs name)

abbrev pub with_capabilities :
    Config → CreateAnswers → CreateVolumeRequest → Server → Outcome Done → Result
with_capabilities config a req s (err e) = some (err (status invalid_argument), s)
with_capabilities config a req s (ok u) =
    unqueued req.name
      (converted config a req s (convert_shared_request config a.shared s.creating_pvs req))

unfoldable pub create_volume : Config → CreateAnswers → CreateVolumeRequest → Server → Result
unfolding validate_volume_capabilities convert_shared_request set_creating unset_creating
    create_held unset_queue
create_volume config a req s =
    if is_empty req.name
    then some (err (status invalid_argument), s)
    else with_capabilities config a req s (validate_volume_capabilities a.vcap req.capabilities)
