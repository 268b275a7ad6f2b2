-- ===== src/Controller.antt =====
-- The requests to the cloud that pkg/driver/controller.go computes, and its answers read back.
use nifcloud_nas_csi_driver.Base.{
  ℕ, zero, suc, ◌+◌, ◌-◌, ◌*◌, ◌/◌, ◌%◌, ◌^◌, ◌≤◌, ◌<◌, ◌≡◌, refl, sym, ap, ap₂, ◌∙◌, subst, ◌≢◌,
  ◌↔◌, ◌⊎◌, inl, inr, Bool, true, false, not, ◌&&◌, ◌||◌, Option, none, some, List, [], ◌∷◌, ◌++◌,
  map, append-nil, append_assoc, arith, ltb, leb, ◌==◌, if◌then◌else◌, ==_iff, Bool-cases,
  Option-cases, length, take, drop, get_elem?, All, In, In-append_left, In-append_right, bit_and,
}
use nifcloud_nas_csi_driver.Base.Keys.{
  add_key, delete_key, Distinct, In-add_key_self, In-add_key, In-delete_key, delete_key-In,
  delete_key-Distinct, add_key_new,
}
use nifcloud_nas_csi_driver.Base.Assoc.{find, put, remove, find-put, find-remove, map_laws}
use nifcloud_nas_csi_driver.Base.Text.{
  Str, codes, str_eq, str_eq_iff, str_eq_refl, mem?, mem?-In, In-mem?, split, cut, Lacks,
  split-lacking, split-append, cut-append, atoi, byte_text, contains as str_contains, has_prefix,
  digits_from,
}
use nifcloud_nas_csi_driver.Base.Outcome.{
  Code, Error, Outcome, Done, ok, err, plain, status, cloud, not_exist, object_exists,
  invalid_argument, not_found, already_exists, aborted, internal, unimplemented, ◌>>=◌, ◌>>◌,
  bind_ok,
}
use nifcloud_nas_csi_driver.Base.Int.{ℤ, pos, negsuc, leb_ℤ, ltb_ℤ, two63, wrap, ◌+ℤ◌, ◌-ℤ◌}
use nifcloud_nas_csi_driver.Capacity.{
  get_allocated_storage, CapacityRange, get_request_capacity_no_minimum, gb_to_bytes,
}
use nifcloud_nas_csi_driver.Cloud.{NasInstance, generate_volume_id_from_nas_instance}
use nifcloud_nas_csi_driver.Driver.{VolumeCapability}
pub mod Compare
pub mod Annotations
pub mod Shared
pub mod Finish
pub mod Prepare
pub mod Create
pub mod Delete
pub mod Leases
pub mod Frees
pub mod Room
pub mod Placing
pub mod VolumeIds
pub mod Removal

-- strconv.ParseInt(s, 10, 64): the value and whether it was read. Out of range the value is the
-- nearest int64 and the result an error.
abbrev bounded : Bool → ℕ → ℤ × Bool
bounded true n =
    if leb n two63
    then (if n == 0 then (pos 0, true) else (negsuc (n - 1), true))
    else (negsuc (two63 - 1), false)
bounded false n = if ltb n two63 then (pos n, true) else (pos (two63 - 1), false)

abbrev signed : Bool → Option ℕ → ℤ × Bool
signed negative none = (pos 0, false)
signed negative (some n) = bounded negative n

unfoldable pub parse_int : Str → ℤ × Bool
unfolding atoi
parse_int [] = (pos 0, false)
parse_int (c ∷ s) =
    if c == b'-'
    then signed true (atoi s)
    else if c == b'+'
    then signed false (atoi s)
    else signed false (atoi (c ∷ s))

-- strings.ToLower of ASCII.
unfoldable pub to_lower : Str → Str
to_lower [] = []
to_lower (c ∷ s) = (if leb b'A' c && leb c b'Z' then c + 32 else c) ∷ to_lower s

-- nas.CreateNASInstanceInput, the fields that the driver sets; `none` for a nil pointer.
pub record CreateNasInstanceInput : Type 0 where
  pub allocated_storage : ℤ
  pub availability_zone : Str
  pub master_private_address : Option Str
  pub identifier : Str
  pub instance_type : ℤ
  pub description : Str
  pub security_groups : List Str
  pub network_id : Option Str
  pub protocol : Str

-- The parameters that the loop reads.
pub record Params : Type 0 where
  pub instance_type : ℤ
  pub zone : Str
  pub network : Str
  pub description : Str

abbrev default_params : Params
default_params = record {
  instance_type = pos 0;
  zone = codes "east-11";
  network = codes "net-COMMON_PRIVATE";
  description = codes "csi-volume";
}

abbrev with_type : Params → ℤ × Bool → Outcome Params
with_type p (n, okay) = if okay then ok (record p { instance_type = n }) else err plain

abbrev allowed : Str → Bool
allowed k =
    str_eq k (codes "reservedipv4cidr")
    || (str_eq k (codes "capacityparinstancegib") || str_eq k (codes "shared"))

-- One parameter, its key in lower case.
unfoldable pub read_param : Params → Str → Str → Outcome Params
unfolding parse_int
read_param p k v =
    if str_eq k (codes "instancetype")
    then with_type p (parse_int v)
    else if str_eq k (codes "zone")
    then ok (record p { zone = v })
    else if str_eq k (codes "networkid")
    then ok (record p { network = v })
    else if str_eq k (codes "description")
    then ok (record p { description = v })
    else if allowed k
    then ok p
    else err plain

unfoldable pub read_params : Params → List (Str × Str) → Outcome Params
unfolding to_lower read_param
read_params p [] = ok p
read_params p ((k, v) ∷ params) = do q ← read_param p (to_lower k) v; read_params q params

-- The parameters in the order in which Go visits the map.
unfoldable pub generate_nas_instance_input :
    Str → ℤ → List (Str × Str) → Outcome CreateNasInstanceInput
unfolding read_params
generate_nas_instance_input name cap_bytes params = do
  p ← read_params default_params params
  ok (record {
    allocated_storage = get_allocated_storage cap_bytes p.instance_type;
    availability_zone = p.zone;
    master_private_address = none;
    identifier = name;
    instance_type = p.instance_type;
    description = p.description;
    security_groups = [];
    network_id = some p.network;
    protocol = codes "nfs";
  })

-- pstr: the empty text for a nil pointer.
abbrev pub pstr : Option Str → Str
pstr none = []
pstr (some s) = s

abbrev pub same_ℤ : ℤ → ℤ → Bool
same_ℤ a b = leb_ℤ a b && leb_ℤ b a

pub data Mismatch : Type 0 where
  instance_type allocated_storage network_id availability_zone : Mismatch
  number_of_security_groups security_group_name : Mismatch

abbrev pub unless : Bool → Mismatch → List Mismatch
unless test m = if test then [] else m ∷ []

-- The inner loop, over the groups of the instance; an index past the groups of the input is a panic,
-- `none`.
abbrev pub onto : List Mismatch → Option (List Mismatch) → Option (List Mismatch)
onto ms none = none
onto ms (some later) = some (ms ++ later)

unfoldable pub compare_group_names : List Str → List Str → Option (List Mismatch)
compare_group_names [] expected = some []
compare_group_names (g ∷ gs) [] = none
compare_group_names (g ∷ gs) (e ∷ es) =
    onto (unless (str_eq g e) security_group_name) (compare_group_names gs es)

unfoldable pub compare_groups : List Str → List Str → Option (List Mismatch)
unfolding compare_group_names
compare_groups gs es =
    let names = compare_group_names gs es in
    if length gs == length es then some [] else onto (number_of_security_groups ∷ []) names

unfoldable pub mismatches : NasInstance → CreateNasInstanceInput → Option (List Mismatch)
unfolding parse_int compare_groups
mismatches n input =
    onto
      (unless (same_ℤ n.instance_type input.instance_type) instance_type
        ++ (unless (same_ℤ (parse_int (pstr n.allocated_storage)).0 input.allocated_storage)
              allocated_storage
            ++ (unless (str_eq (pstr n.network_id) (pstr input.network_id)) network_id
                ++ unless (str_eq (pstr n.availability_zone) input.availability_zone)
                    availability_zone)))
      (compare_groups n.security_groups input.security_groups)

abbrev pub unless_mismatch : Option (List Mismatch) → Option (Outcome Done)
unless_mismatch none = none
unless_mismatch (some []) = some (ok tt)
unless_mismatch (some (m ∷ ms)) = some (err plain)

unfoldable pub compare_nas_instance_with_input :
    NasInstance → CreateNasInstanceInput → Option (Outcome Done)
unfolding mismatches
compare_nas_instance_with_input n input = unless_mismatch (mismatches n input)

abbrev or_unset : Option Str → Str
or_unset none = codes "0.0.0.0"
or_unset (some ip) = ip

unfoldable pub get_nas_instance_private_ip : NasInstance → Str
get_nas_instance_private_ip n = or_unset n.private_address

abbrev pub capacity_of : ℤ × Bool → ℤ
capacity_of (gbs, okay) = if okay then gb_to_bytes gbs else pos 0

-- `none` where the storage is nil, on which Go panics.
unfoldable pub get_nas_instance_capacity_bytes : NasInstance → Option ℤ
unfolding parse_int
get_nas_instance_capacity_bytes n = elim n.allocated_storage [
  | none ↦ none
  | some s ↦ some (capacity_of (parse_int s))
]

-- csi.CreateVolumeRequest and csi.Volume. A content source of another type than a snapshot, and a
-- snapshot source that is nil, are refused alike.
pub data ContentSource : Type 0 where
  snapshot : Option Str → ContentSource
  other_source : ContentSource

pub record CreateVolumeRequest : Type 0 where
  pub name : Str
  pub capabilities : List (Option VolumeCapability)
  pub parameters : List (Str × Str)
  pub capacity_range : Option CapacityRange
  pub content_source : Option ContentSource

pub record Volume : Type 0 where
  pub volume_id : Str
  pub capacity_bytes : ℤ
  pub ip : Str
  pub path : Str
  pub from_snapshot : Option Str

abbrev pub parameter : Str → CreateVolumeRequest → Str
parameter k req = pstr (find k req.parameters)

unfoldable pub is_shared : CreateVolumeRequest → Bool
is_shared req = str_eq (parameter (codes "shared") req) (codes "true")

abbrev pub plain_volume : Str → Str → Option ℤ → Option Volume
plain_volume id ip none = none
plain_volume id ip (some bytes) =
    some
      (record { volume_id = id; capacity_bytes = bytes; ip = ip; path = []; from_snapshot = none })

-- `none` where Go panics.
unfoldable pub nas_instance_to_csi_volume : Str → NasInstance → CreateVolumeRequest → Option Volume
unfolding generate_volume_id_from_nas_instance get_nas_instance_private_ip
    get_nas_instance_capacity_bytes is_shared
nas_instance_to_csi_volume region n req =
    let ip = get_nas_instance_private_ip n in
    let id = generate_volume_id_from_nas_instance region n in
    if is_shared req
    then some (record {
      volume_id = id ++ b'/' ∷ req.name;
      capacity_bytes = get_request_capacity_no_minimum req.capacity_range;
      ip = ip;
      path = req.name;
      from_snapshot = none;
    })
    else plain_volume id ip (get_nas_instance_capacity_bytes n)
