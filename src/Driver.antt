-- ===== src/Driver.antt =====
-- NewNifcloudNasDriver and the capability tests of pkg/driver/driver.go.
use nifcloud_nas_csi_driver.Base.{
  ℕ, zero, suc, ◌+◌, ◌-◌, ◌*◌, ◌/◌, ◌%◌, ◌^◌, ◌≤◌, ◌<◌, ◌≡◌, refl, sym, ap, ap₂, ◌∙◌, subst, ◌≢◌,
  ◌↔◌, ◌⊎◌, inl, inr, Bool, true, false, not, ◌&&◌, ◌||◌, Option, none, some, List, [], ◌∷◌, ◌++◌,
  map, append-nil, append_assoc, arith, ltb, leb, ◌==◌, if◌then◌else◌, ==_iff, Bool-cases,
  Option-cases, length, take, drop, get_elem?, All, In, In-append_left, In-append_right, bit_and,
}
use nifcloud_nas_csi_driver.Base.Keys.{
  add_key, delete_key, Distinct, In-add_key_self, In-add_key, In-delete_key, delete_key-In,
  delete_key-Distinct, add_key_new,
}
use nifcloud_nas_csi_driver.Base.Assoc.{find, put, remove, find-put, find-remove, map_laws}
use nifcloud_nas_csi_driver.Base.Text.{
  Str, codes, str_eq, str_eq_iff, str_eq_refl, mem?, mem?-In, In-mem?, split, cut, Lacks,
  split-lacking, split-append, cut-append, atoi, byte_text, contains as str_contains, has_prefix,
  digits_from,
}
use nifcloud_nas_csi_driver.Base.Outcome.{
  Code, Error, Outcome, Done, ok, err, plain, status, cloud, not_exist, object_exists,
  invalid_argument, not_found, already_exists, aborted, internal, unimplemented, ◌>>=◌, ◌>>◌,
  bind_ok,
}
pub mod Requests

-- csi.VolumeCapability_AccessMode_Mode and ControllerServiceCapability_RPC_Type, of which an unnamed
-- value has its number.
pub data AccessMode : Type 0 where
  single_node_writer single_node_reader_only multi_node_reader_only : AccessMode
  multi_node_single_writer multi_node_multi_writer : AccessMode
  other_mode : ℕ → AccessMode

pub data ControllerRpc : Type 0 where
  rpc_unknown create_delete_volume create_delete_snapshot list_snapshots : ControllerRpc
  other_rpc : ℕ → ControllerRpc

pub data NodeRpc : Type 0 where
  get_volume_stats : NodeRpc

pub data AccessType : Type 0 where
  block : AccessType
  mount : List Str → AccessType

-- A capability of a request: a pointer that may be nil, like the two parts.
pub record VolumeCapability : Type 0 where
  pub access_mode : Option AccessMode
  pub access_type : Option AccessType

pub record DriverConfig : Type 0 where
  pub name : Str
  pub version : Str
  pub node_id : Str
  pub run_controller : Bool
  pub run_node : Bool

-- The driver: of the map vcap its keys, and which servers run.
pub record Driver : Type 0 where
  pub vcap : List AccessMode
  pub cscap : List ControllerRpc
  pub nscap : List NodeRpc
  pub has_node_server : Bool
  pub has_controller_server : Bool

abbrev pub mode_number : AccessMode → ℕ
mode_number single_node_writer = 1
mode_number single_node_reader_only = 2
mode_number multi_node_reader_only = 3
mode_number multi_node_single_writer = 4
mode_number multi_node_multi_writer = 5
mode_number (other_mode n) = n + 6

unfoldable pub supports_mode : List AccessMode → AccessMode → Bool
supports_mode [] m = false
supports_mode (k ∷ ks) m = mode_number k == mode_number m || supports_mode ks m

unfoldable pub add_volume_capability_access_modes :
    List AccessMode → List AccessMode → List AccessMode
unfolding supports_mode
add_volume_capability_access_modes vcap [] = vcap
add_volume_capability_access_modes vcap (c ∷ cs) =
    add_volume_capability_access_modes (if supports_mode vcap c then vcap else c ∷ vcap) cs

abbrev pub modes : List AccessMode
modes =
    single_node_writer ∷ single_node_reader_only ∷ multi_node_reader_only ∷ multi_node_single_writer
    ∷ multi_node_multi_writer ∷ []

abbrev pub controller_rpcs : List ControllerRpc
controller_rpcs = create_delete_volume ∷ create_delete_snapshot ∷ list_snapshots ∷ []

abbrev empty : Str → Bool
empty [] = true
empty (c ∷ s) = false

unfoldable pub new_nifcloud_nas_driver : DriverConfig → Outcome Driver
unfolding add_volume_capability_access_modes
new_nifcloud_nas_driver config =
    if empty config.name
    then err plain
    else if empty config.version
    then err plain
    else if empty config.node_id && config.run_node
    then err plain
    else if not config.run_controller && not config.run_node
    then err plain
    else ok (record {
      vcap = add_volume_capability_access_modes [] modes;
      cscap = if config.run_controller then controller_rpcs else [];
      nscap = if config.run_node then get_volume_stats ∷ [] else [];
      has_node_server = config.run_node;
      has_controller_server = config.run_controller;
    })

abbrev with_type : Option AccessType → Outcome Done
with_type none = err plain
with_type (some block) = err plain
with_type (some (mount flags)) = ok tt

abbrev with_mode : List AccessMode → Option AccessMode → Option AccessType → Outcome Done
with_mode vcap none t = err plain
with_mode vcap (some m) t = if supports_mode vcap m then with_type t else err plain

unfoldable pub validate_volume_capability : List AccessMode → Option VolumeCapability → Outcome Done
unfolding supports_mode
validate_volume_capability vcap none = err plain
validate_volume_capability vcap (some c) = with_mode vcap c.access_mode c.access_type

unfoldable pub validate_each : List AccessMode → List (Option VolumeCapability) → Outcome Done
unfolding validate_volume_capability
validate_each vcap [] = ok tt
validate_each vcap (c ∷ cs) = do _ ← validate_volume_capability vcap c; validate_each vcap cs

unfoldable pub validate_volume_capabilities :
    List AccessMode → List (Option VolumeCapability) → Outcome Done
unfolding validate_each
validate_volume_capabilities vcap [] = err plain
validate_volume_capabilities vcap (c ∷ cs) = validate_each vcap (c ∷ cs)

abbrev rpc_number : ControllerRpc → ℕ
rpc_number rpc_unknown = 0
rpc_number create_delete_volume = 1
rpc_number create_delete_snapshot = 2
rpc_number list_snapshots = 3
rpc_number (other_rpc n) = n + 4

unfoldable pub has_rpc : ControllerRpc → List ControllerRpc → Bool
has_rpc c [] = false
has_rpc c (d ∷ ds) = rpc_number c == rpc_number d || has_rpc c ds

unfoldable pub validate_controller_service_request : Driver → ControllerRpc → Outcome Done
unfolding has_rpc
validate_controller_service_request driver c =
    if rpc_number c == 0
    then ok tt
    else if has_rpc c driver.cscap
    then ok tt
    else err (status invalid_argument)
