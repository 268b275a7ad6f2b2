-- ===== src/Configurator.antt =====
-- The node part of the configurator in pkg/driver/configurator.go: which addresses are private, the
-- addresses of the nodes, and the annotations of the CSI nodes. The Kubernetes API of the CSI nodes
-- is a record of operations on an unknown state.
use nifcloud_nas_csi_driver.Base.{
  ℕ, zero, suc, ◌+◌, ◌-◌, ◌*◌, ◌/◌, ◌%◌, ◌^◌, ◌≤◌, ◌<◌, ◌≡◌, refl, sym, ap, ap₂, ◌∙◌, subst, ◌≢◌,
  ◌↔◌, ◌⊎◌, inl, inr, Bool, true, false, not, ◌&&◌, ◌||◌, Option, none, some, List, [], ◌∷◌, ◌++◌,
  map, append-nil, append_assoc, arith, ltb, leb, ◌==◌, if◌then◌else◌, ==_iff, Bool-cases,
  Option-cases, length, take, drop, get_elem?, All, In, In-append_left, In-append_right, In-snoc,
  bit_and,
}
use nifcloud_nas_csi_driver.Base.Keys.{
  add_key, delete_key, Distinct, In-add_key_self, In-add_key, In-delete_key, delete_key-In,
  delete_key-Distinct, add_key_new,
}
use nifcloud_nas_csi_driver.Base.Assoc.{find, put, remove, find-put, find-remove, map_laws}
use nifcloud_nas_csi_driver.Base.Text.{
  Str, codes, is_empty, or_empty, str_eq, str_eq_iff, str_eq_refl, mem?, mem?-In, In-mem?, split,
  cut, Lacks, split-lacking, split-append, cut-append, atoi, byte_text, contains as str_contains,
  has_prefix, digits_from,
}
use nifcloud_nas_csi_driver.Base.Table.{every_below, every_below-at}
use nifcloud_nas_csi_driver.Base.Outcome.{
  Code, Error, Outcome, Done, ok, err, plain, status, cloud, not_exist, object_exists,
  invalid_argument, not_found, already_exists, aborted, internal, unimplemented, ◌>>=◌, ◌>>◌,
  bind_ok,
}
use nifcloud_nas_csi_driver.Net.Ip.{Ip}
use nifcloud_nas_csi_driver.Net.Notation.{parse_ip}
use nifcloud_nas_csi_driver.Net.Mask.{IpNet, contains}
pub mod Private
pub mod Nodes
pub mod Search
pub mod Matched
pub mod Classes
pub mod Recreated
pub mod Settled
pub mod Installed
pub mod SnapshotClasses
pub mod Secrets
pub mod Run
pub mod Updated

pub record NodeConfig : Type 0 where
  pub name : Str
  pub public_ip : Str
  pub private_ip : Str

-- 172.16.0.0/12
abbrev pub block_172 : IpNet
block_172 = record { ip = record { b0 = 172; b1 = 16; b2 = 0; b3 = 0 }; ones = 12 }

abbrev pub in_block_172 : Option Ip → Bool
in_block_172 none = false
in_block_172 (some ip) = contains block_172 ip

unfoldable pub is_private : Str → Bool
unfolding has_prefix parse_ip contains
is_private text =
    if has_prefix text (codes "192.168.") || has_prefix text (codes "10.")
    then true
    else if has_prefix text (codes "172.")
    then in_block_172 (parse_ip text)
    else false

-- corev1.NodeAddress: of the types the code tests the two it reads.
pub data AddressType : Type 0 where
  external_ip internal_ip other_type : AddressType

pub record KubeNode : Type 0 where
  pub name : Str
  pub addresses : List (AddressType × Str)

-- storagev1.CSINode, with the drivers by name. No annotations at all are Go's nil map.
pub record CsiNodeObject : Type 0 where
  pub name : Str
  pub drivers : List Str
  pub annotations : Option (List (Str × Str))

abbrev pub with_address : NodeConfig → Str → NodeConfig
with_address nc address =
    if is_private address
    then record nc { private_ip = address }
    else record nc { public_ip = address }

abbrev pub read_address : NodeConfig → AddressType × Str → NodeConfig
read_address nc (external_ip, address) = with_address nc address
read_address nc (internal_ip, address) = with_address nc address
read_address nc (other_type, address) = nc

unfoldable pub read_addresses : NodeConfig → List (AddressType × Str) → NodeConfig
unfolding is_private
read_addresses nc [] = nc
read_addresses nc (a ∷ rest) = read_addresses (read_address nc a) rest

abbrev pub with_public : NodeConfig → Outcome (List NodeConfig) → Outcome (List NodeConfig)
with_public nc rest = if is_empty nc.public_ip then err plain else (do ncs ← rest; ok (nc ∷ ncs))

-- The configs of the nodes; a node without a public address is an error.
unfoldable pub node_configs : List KubeNode → Outcome (List NodeConfig)
unfolding read_addresses
node_configs [] = ok []
node_configs (n ∷ ns) =
    with_public
      (read_addresses (record { name = n.name; public_ip = []; private_ip = [] }) n.addresses)
      (node_configs ns)

abbrev pub private_key : Str → Str
private_key driver_name = driver_name ++ codes "/privateIp"

abbrev pub annotations_of : Option (List (Str × Str)) → List (Str × Str)
annotations_of none = []
annotations_of (some annotations) = annotations

abbrev pub private_annotation : Str → CsiNodeObject → Str
private_annotation driver_name n =
    or_empty (find (private_key driver_name) (annotations_of n.annotations))

-- Whether an update is due, and the configs gathered.
pub record Gathered : Type 0 where
  pub must_update : Bool
  pub configs : List NodeConfig

-- One config against one driver entry of its CSI node; the config keeps a private address it has
-- taken over for the entries that follow.
abbrev pub due : Str → NodeConfig → Bool
due annotation conf =
    is_empty annotation
    || (not (is_empty conf.private_ip) && not (str_eq annotation conf.private_ip))

abbrev pub taken_over : Str → NodeConfig → NodeConfig
taken_over annotation conf =
    if due annotation conf then conf else record conf { private_ip = annotation }

abbrev pub check_driver : Str → Str → Str → NodeConfig × Gathered → NodeConfig × Gathered
check_driver driver_name annotation d (conf, g) =
    if str_eq d driver_name
    then (
      taken_over annotation conf,
      record {
        must_update = g.must_update || due annotation conf;
        configs = g.configs ++ taken_over annotation conf ∷ [];
      },
    )
    else (conf, g)

unfoldable pub check_drivers : Str → Str → List Str → NodeConfig × Gathered → NodeConfig × Gathered
check_drivers driver_name annotation [] x = x
check_drivers driver_name annotation (d ∷ ds) x =
    check_drivers driver_name annotation ds (check_driver driver_name annotation d x)

abbrev pub check_csi_node : Str → CsiNodeObject → NodeConfig × Gathered → NodeConfig × Gathered
check_csi_node driver_name n (conf, g) =
    if str_eq conf.name n.name
    then check_drivers driver_name (private_annotation driver_name n) n.drivers (conf, g)
    else (conf, g)

unfoldable pub check_csi_nodes :
    Str → List CsiNodeObject → NodeConfig × Gathered → NodeConfig × Gathered
unfolding check_drivers find
check_csi_nodes driver_name [] x = x
check_csi_nodes driver_name (n ∷ ns) x =
    check_csi_nodes driver_name ns (check_csi_node driver_name n x)

unfoldable pub check_configs : Str → List CsiNodeObject → List NodeConfig → Gathered → Gathered
unfolding check_csi_nodes
check_configs driver_name csi_nodes [] g = g
check_configs driver_name csi_nodes (conf ∷ confs) g =
    check_configs driver_name csi_nodes confs (check_csi_nodes driver_name csi_nodes (conf, g)).1

unfoldable pub get_node_configs :
    Str → Outcome (List KubeNode) → Outcome (List CsiNodeObject) → Outcome Gathered
unfolding node_configs check_configs
get_node_configs driver_name nodes csi_nodes = do
  ns ← nodes
  confs ← node_configs ns
  cs ← csi_nodes
  ok (check_configs driver_name cs confs (record { must_update = false; configs = [] }))

-- The calls of the API that read and update a CSI node.
pub record CsiNodeApi : Type 1 where
  pub State : Type 0
  pub get : State → Str → Outcome CsiNodeObject
  pub update : State → CsiNodeObject → Outcome Done × State

module _ (api : CsiNodeApi) (driver_name : Str) where
  abbrev pub annotated : NodeConfig → CsiNodeObject → CsiNodeObject
  annotated conf n = record n {
    annotations =
        some (put (private_key driver_name) conf.private_ip (annotations_of n.annotations));
  }

  abbrev pub plain_update : Outcome Done × api.State → Outcome Done × api.State
  plain_update (ok u, s) = (ok tt, s)
  plain_update (err e, s) = (err plain, s)

  abbrev pub annotate : NodeConfig → api.State → Outcome CsiNodeObject → Outcome Done × api.State
  annotate conf s (err e) = (err plain, s)
  annotate conf s (ok n) =
      if str_eq (private_annotation driver_name n) conf.private_ip
      then (ok tt, s)
      else plain_update (api.update s (annotated conf n))

  abbrev pub then_nodes :
      Outcome Done × api.State → (api.State → Outcome Done × api.State) → Outcome Done × api.State
  then_nodes (ok u, s) next = next s
  then_nodes (err e, s) next = (err e, s)

  unfoldable pub set_node_configs : List NodeConfig → api.State → Outcome Done × api.State
  unfolding find put
  set_node_configs [] s = (ok tt, s)
  set_node_configs (conf ∷ confs) s =
      then_nodes (annotate conf s (api.get s conf.name)) (set_node_configs confs)
