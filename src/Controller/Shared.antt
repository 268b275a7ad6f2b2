-- ===== src/Controller/Shared.antt =====
-- The placing of a shared volume: convertSharedRequest of pkg/driver/shared_utils.go and what it asks.
use nifcloud_nas_csi_driver.Base.{
  ℕ, zero, suc, ◌+◌, ◌*◌, ◌/◌, ◌%◌, Bool, true, false, not, ◌&&◌, ◌||◌, Option, none, some, List,
  [], ◌∷◌, ◌++◌, if◌then◌else◌,
}
use nifcloud_nas_csi_driver.Base.Text.{Str, codes, str_eq, split, contains as str_contains}
use nifcloud_nas_csi_driver.Base.Outcome.{Outcome, Done, ok, err, plain}
use nifcloud_nas_csi_driver.Base.Int.{ℤ, pos, leb_ℤ, ltb_ℤ, wrap, ◌+ℤ◌, ◌-ℤ◌}
use nifcloud_nas_csi_driver.Capacity.{
  get_request_capacity, get_request_capacity_no_minimum, min_volume_size, gb_to_bytes,
}
use nifcloud_nas_csi_driver.Cloud.{NasInstance}
use nifcloud_nas_csi_driver.Queue.{OperateResourceQueue, queue}
use nifcloud_nas_csi_driver.Syncer.{Config, get_cluster_uid}
use nifcloud_nas_csi_driver.Controller.{
  CreateVolumeRequest, parameter, is_shared, parse_int, get_nas_instance_capacity_bytes, same_ℤ,
}

-- A PersistentVolume: its handle if it is a CSI volume, and the storage of its capacity where that is
-- an int64.
pub record PersistentVolume : Type 0 where
  pub name : Str
  pub volume_handle : Option Str
  pub storage : Option ℤ

abbrev pub in_nas : Str → PersistentVolume → Bool
in_nas nas_name pv = elim pv.volume_handle [
  | none ↦ false
  | some handle ↦ str_contains handle nas_name
]

abbrev pub storage_of : Option ℤ → ℤ
storage_of none = pos 0
storage_of (some bytes) = bytes

-- The sum in an int64, from the first volume on.
unfoldable pub reserved_from : Str → ℤ → List PersistentVolume → ℤ
unfolding str_contains wrap ◌+ℤ◌
reserved_from nas_name sum [] = sum
reserved_from nas_name sum (pv ∷ pvs) =
    reserved_from nas_name (if in_nas nas_name pv then wrap (sum +ℤ storage_of pv.storage) else sum)
      pvs

unfoldable pub get_nas_instance_reserved_cap : Str → Outcome (List PersistentVolume) → Outcome ℤ
unfolding reserved_from
get_nas_instance_reserved_cap nas_name (err e) = err plain
get_nas_instance_reserved_cap nas_name (ok pvs) = ok (reserved_from nas_name (pos 0) pvs)

unfoldable pub nas_found : Str → List PersistentVolume → Bool
unfolding str_contains
nas_found nas_name [] = false
nas_found nas_name (pv ∷ pvs) = in_nas nas_name pv || nas_found nas_name pvs

unfoldable pub no_other_pvs : Str → Str → List PersistentVolume → Bool
unfolding str_contains
no_other_pvs name nas_name [] = true
no_other_pvs name nas_name (pv ∷ pvs) =
    not (in_nas nas_name pv && not (str_eq name pv.name)) && no_other_pvs name nas_name pvs

unfoldable pub no_other_pvs_in_shared_nas :
    Str → Str → Outcome (List PersistentVolume) → Outcome Bool
unfolding nas_found no_other_pvs
no_other_pvs_in_shared_nas name nas_name (err e) = err plain
no_other_pvs_in_shared_nas name nas_name (ok pvs) =
    if nas_found nas_name pvs then ok (no_other_pvs name nas_name pvs) else err plain

-- The middle part of the first handle that contains the name.
abbrev pub middle : List Str → Outcome Str
middle (x ∷ nas_name ∷ y ∷ []) = ok nas_name
middle _ = err plain

unfoldable pub name_in_pvs : Str → List PersistentVolume → Outcome Str
unfolding str_contains split
name_in_pvs nas_name [] = err plain
name_in_pvs nas_name (pv ∷ pvs) =
    let rest = name_in_pvs nas_name pvs in
    elim pv.volume_handle [
      | none ↦ rest
      | some handle ↦ if str_contains handle nas_name then middle (split b'/' handle) else rest
    ]

unfoldable pub get_shared_name_from_existing_pv :
    Str → Outcome (List PersistentVolume) → Outcome Str
unfolding name_in_pvs
get_shared_name_from_existing_pv nas_name (err e) = err plain
get_shared_name_from_existing_pv nas_name (ok pvs) = name_in_pvs nas_name pvs

unfoldable pub name_in_instances : Str → List NasInstance → Option Str
unfolding str_contains
name_in_instances nas_name [] = none
name_in_instances nas_name (n ∷ ns) =
    let rest = name_in_instances nas_name ns in
    if str_contains n.identifier nas_name && not (str_eq n.instance_status (codes "deleting"))
    then some n.identifier
    else rest

unfoldable pub get_shared_name_from_existing_nas :
    Str → Outcome (List NasInstance) → Outcome (Option Str)
unfolding name_in_instances
get_shared_name_from_existing_nas nas_name (err e) = err e
get_shared_name_from_existing_nas nas_name (ok instances) =
    ok (name_in_instances nas_name instances)

-- What is asked: the PersistentVolumes anew each time (the reads are numbered), the instances, one
-- instance, the namespace; and what rand.String(5) returns.
pub record SharedAnswers : Type 0 where
  pub persistent_volumes : ℕ → Outcome (List PersistentVolume)
  pub list_nas_instances : Outcome (List NasInstance)
  pub get_nas_instance : Str → Outcome NasInstance
  pub kube_system_uid : Outcome Str
  pub random_suffix : Str

-- Where a volume is put: the instance's name, and whether no volume is on it yet.
pub data Place : Type 0 where
  new_nas : Str → Place
  shared_nas : Str → Place

abbrev pub name_of : Place → Str
name_of (new_nas name) = name
name_of (shared_nas name) = name

-- fmt.Sprintf("%03d", i) below 1000.
abbrev pub three_digits : ℕ → Str
three_digits i = (b'0' + i / 100) ∷ (b'0' + i / 10 % 10) ∷ (b'0' + i % 10) ∷ []

abbrev pub on_new : SharedAnswers → Str → Outcome (Option Str) → Outcome Place
on_new a name (err e) = err plain
on_new a name (ok (some existing)) = ok (new_nas existing)
on_new a name (ok none) = ok (new_nas (name ++ (codes "-" ++ a.random_suffix)))

-- The space on an instance; on a nil storage Go panics, `none`.
abbrev pub has_space : ℤ → ℤ → ℤ → Bool
has_space cap_bytes capacity reserved = leb_ℤ cap_bytes (wrap (capacity -ℤ reserved))

abbrev pub into : ℤ → ℤ → Str → Option (Outcome Place) → Option ℤ → Option (Outcome Place)
into cap_bytes reserved name rest none = none
into cap_bytes reserved name rest (some capacity) =
    if has_space cap_bytes capacity reserved then some (ok (shared_nas name)) else rest

abbrev pub on_instance :
    ℤ → ℤ → Str → Option (Outcome Place) → Outcome NasInstance → Option (Outcome Place)
on_instance cap_bytes reserved name rest (err e) = some (err plain)
on_instance cap_bytes reserved name rest (ok n) =
    into cap_bytes reserved name rest (get_nas_instance_capacity_bytes n)

abbrev pub on_existing :
    SharedAnswers → ℤ → ℤ → Option (Outcome Place) → Outcome Str → Option (Outcome Place)
on_existing a cap_bytes reserved rest (err e) = some (err plain)
on_existing a cap_bytes reserved rest (ok name) =
    on_instance cap_bytes reserved name rest (a.get_nas_instance name)

abbrev pub on_reserved :
    SharedAnswers → ℤ → Str → ℕ → Option (Outcome Place) → Outcome ℤ → Option (Outcome Place)
on_reserved a cap_bytes name i rest (err e) = some (err plain)
on_reserved a cap_bytes name i rest (ok reserved) =
    if same_ℤ reserved (pos 0)
    then some (on_new a name (get_shared_name_from_existing_nas name a.list_nas_instances))
    else on_existing a cap_bytes reserved rest
        (get_shared_name_from_existing_pv name (a.persistent_volumes (2 * i + 1)))

-- The loop `for i := 1; i <= 10; i++`, over the rounds that are left: after the tenth the volume has
-- no place.
unfoldable pub place_loop : SharedAnswers → ℤ → Str → ℕ → ℕ → Option (Outcome Place)
unfolding get_nas_instance_reserved_cap get_shared_name_from_existing_nas
    get_shared_name_from_existing_pv wrap ◌-ℤ◌ get_nas_instance_capacity_bytes
place_loop a cap_bytes prefix zero i = some (err plain)
place_loop a cap_bytes prefix (suc rounds) i =
    let rest = place_loop a cap_bytes prefix rounds (i + 1) in
    let name = prefix ++ three_digits i in
    on_reserved a cap_bytes name i rest
      (get_nas_instance_reserved_cap name (a.persistent_volumes (2 * i)))

abbrev pub placed : ℤ → Option (Outcome Place) → Option (Outcome (Str × ℤ))
placed shared_cap_bytes none = none
placed shared_cap_bytes (some (err e)) = some (err plain)
placed shared_cap_bytes (some (ok p)) = some (ok (name_of p, shared_cap_bytes))

abbrev pub in_cluster :
    SharedAnswers → CreateVolumeRequest → ℤ → ℤ → Outcome Str → Option (Outcome (Str × ℤ))
in_cluster a req cap_bytes shared_cap_bytes (err e) = some (err plain)
in_cluster a req cap_bytes shared_cap_bytes (ok uid) = placed shared_cap_bytes (
    place_loop a cap_bytes
      (codes "cluster-" ++ (uid ++ (codes "-shd" ++ parameter (codes "instanceType") req))) 10 1)

abbrev pub with_shared_cap :
    Config → SharedAnswers → CreateVolumeRequest → ℤ → ℤ × Bool → Option (Outcome (Str × ℤ))
with_shared_cap config a req cap_bytes (gbs, okay) =
    if okay
    then (if ltb_ℤ (gb_to_bytes gbs) cap_bytes
        then some (err plain)
        else in_cluster a req cap_bytes (gb_to_bytes gbs)
            (get_cluster_uid config a.kube_system_uid))
    else some (err plain)

-- Behind the queue: the instance and its capacity.
unfoldable pub place_shared :
    Config → SharedAnswers → CreateVolumeRequest → Option (Outcome (Str × ℤ))
unfolding place_loop parse_int get_cluster_uid
place_shared config a req =
    with_shared_cap config a req (get_request_capacity_no_minimum req.capacity_range)
      (parse_int (parameter (codes "capacityParInstanceGiB") req))

abbrev pub beside :
    OperateResourceQueue
    → Option (Outcome (Str × ℤ))
    → Option (Outcome (Str × ℤ) × OperateResourceQueue)
beside q none = none
beside q (some r) = some (r, q)

abbrev pub queued :
    Config
    → SharedAnswers
    → CreateVolumeRequest
    → Option (Outcome Done × OperateResourceQueue)
    → Option (Outcome (Str × ℤ) × OperateResourceQueue)
queued config a req none = none
queued config a req (some (err e, q)) = some (err plain, q)
queued config a req (some (ok u, q)) = beside q (place_shared config a req)

-- `none` where it waits for ever or panics.
unfoldable pub convert_shared_request :
    Config
    → SharedAnswers
    → OperateResourceQueue
    → CreateVolumeRequest
    → Option (Outcome (Str × ℤ) × OperateResourceQueue)
unfolding is_shared queue place_shared
convert_shared_request config a q req =
    if is_shared req
    then queued config a req (queue q req.name)
    else some (ok (req.name, get_request_capacity req.capacity_range min_volume_size), q)
