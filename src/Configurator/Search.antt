-- ===== src/Configurator/Search.antt =====
-- The search of the configurator in pkg/driver/configurator.go for the network of the nodes, in the
-- clusters of Hatoba or in the computing instances. A nil dereference is `none`.
use nifcloud_nas_csi_driver.Base.{
  ℕ, zero, suc, ◌+◌, Bool, not, ◌&&◌, Option, none, some, List, [], ◌∷◌, ◌++◌, ◌==◌, if◌then◌else◌,
  length,
}
use nifcloud_nas_csi_driver.Base.Text.{Str, is_empty, or_empty, str_eq}
use nifcloud_nas_csi_driver.Base.Outcome.{Outcome, ok, err, plain}
use nifcloud_nas_csi_driver.Configurator.{NodeConfig}

pub record HatobaNode : Type 0 where
  pub public_ip_address : Option Str
  pub private_ip_address : Option Str
  pub availability_zone : Option Str

-- A cluster; its network config may be nil, and so may the id in it.
pub record HatobaCluster : Type 0 where
  pub name : Option Str
  pub network_config : Option (Option Str)
  pub node_pools : List (List HatobaNode)

-- The nodes of the configurator with a public address, counted and given a private address.
unfoldable pub count_public : Str → List NodeConfig → ℕ
count_public ip [] = 0
count_public ip (nc ∷ ncs) =
    let rest = count_public ip ncs in if str_eq ip nc.public_ip then rest + 1 else rest

unfoldable pub set_private : Str → Str → List NodeConfig → List NodeConfig
set_private ip private [] = []
set_private ip private (nc ∷ ncs) =
    let rest = set_private ip private ncs in
    if str_eq ip nc.public_ip then record nc { private_ip = private } ∷ rest else nc ∷ rest

-- What the loops over a cluster have found.
pub record Found : Type 0 where
  pub vm_found : ℕ
  pub zone : Str
  pub nodes : List NodeConfig

unfoldable pub find_node : HatobaNode → Found → Found
unfolding count_public set_private
find_node n f =
    let hits = count_public (or_empty n.public_ip_address) f.nodes in
    record {
      vm_found = f.vm_found + hits;
      zone = if hits == 0 then f.zone else or_empty n.availability_zone;
      nodes = set_private (or_empty n.public_ip_address) (or_empty n.private_ip_address) f.nodes;
    }

unfoldable pub find_nodes : List HatobaNode → Found → Found
unfolding find_node
find_nodes [] f = f
find_nodes (n ∷ ns) f = find_nodes ns (find_node n f)

unfoldable pub find_pools : List (List HatobaNode) → Found → Found
unfolding find_nodes
find_pools [] f = f
find_pools (p ∷ ps) f = find_pools ps (find_nodes p f)

-- What the search sets: the nodes, and where classes are to be configured the network.
pub record Place : Type 0 where
  pub network_id : Str
  pub zone : Str
  pub cluster_name : Str

pub record Searched : Type 0 where
  pub nodes : List NodeConfig
  pub place : Place

abbrev pub network_of : Option (Option Str) → Option Str
network_of none = none
network_of (some id) = some (or_empty id)

abbrev pub placed : Str → Str → List NodeConfig → Option Str → Option (Outcome Searched)
placed name zone nodes none = none
placed name zone nodes (some network_id) = some (
    ok (record {
      nodes = nodes;
      place = record { network_id = network_id; zone = zone; cluster_name = name };
    }))

-- The cluster with the nodes; an empty name is taken for no cluster, behind what was set.
abbrev pub found_cluster :
    Bool → Place → HatobaCluster → Str → List NodeConfig → Option Str → Option (Outcome Searched)
found_cluster configures place cl zone nodes none = none
found_cluster configures place cl zone nodes (some []) =
    if configures
    then elim cl.network_config [ none ↦ none | some id ↦ some (err plain) ]
    else some (err plain)
found_cluster configures place cl zone nodes (some (c ∷ name)) =
    if configures
    then placed (c ∷ name) zone nodes (network_of cl.network_config)
    else some (ok (record { nodes = nodes; place = place }))

-- The loop over the clusters: it ends at the first whose matches are as many as the nodes.
unfoldable pub search_clusters :
    Bool → Place → List HatobaCluster → List NodeConfig → Option (Outcome Searched)
unfolding find_pools
search_clusters configures place [] nodes = some (err plain)
search_clusters configures place (cl ∷ cls) nodes =
    let f = find_pools cl.node_pools (record { vm_found = 0; zone = []; nodes = nodes }) in
    let rest = search_clusters configures place cls f.nodes in
    if f.vm_found == length nodes
    then found_cluster configures place cl f.zone f.nodes cl.name
    else rest

-- A computing instance, with its interfaces as private address and network, and its zone where it
-- has a placement.
pub record Vm : Type 0 where
  pub instance_id : Option Str
  pub ip_address : Option Str
  pub private_ip_address : Option Str
  pub interfaces : List (Option Str × Option Str)
  pub placement : Option (Option Str)

unfoldable pub network_at : Str → List (Option Str × Option Str) → Str → Str
network_at private [] network_id = network_id
network_at private ((ip, id) ∷ nifs) network_id =
    network_at private nifs (if str_eq (or_empty ip) private then or_empty id else network_id)

pub record FoundVms : Type 0 where
  pub vm_found : ℕ
  pub place : Place
  pub nodes : List NodeConfig

abbrev pub zone_at : Option (Option Str) → Str → Str
zone_at none zone = zone
zone_at (some z) zone = or_empty z

abbrev pub dashed : Str → Str → Str
dashed [] id = id
dashed (c ∷ name) id = c ∷ (name ++ b'-' ∷ id)

-- One instance that is a node's.
abbrev pub take_vm : Vm → Place → Place
take_vm vm p = record {
  network_id = network_at (or_empty vm.private_ip_address) vm.interfaces p.network_id;
  zone = zone_at vm.placement p.zone;
  cluster_name = dashed p.cluster_name (or_empty vm.instance_id);
}

unfoldable pub take_vms : Vm → ℕ → Place → Place
unfolding network_at
take_vms vm zero p = p
take_vms vm (suc hits) p = take_vms vm hits (take_vm vm p)

unfoldable pub find_vms : List Vm → FoundVms → FoundVms
unfolding count_public set_private take_vms
find_vms [] f = f
find_vms (vm ∷ vms) f =
    let hits = count_public (or_empty vm.ip_address) f.nodes in
    find_vms vms (record {
      vm_found = f.vm_found + hits;
      place = take_vms vm hits f.place;
      nodes = set_private (or_empty vm.ip_address) (or_empty vm.private_ip_address) f.nodes;
    })

abbrev pub no_place : Place
no_place = record { network_id = []; zone = []; cluster_name = [] }

abbrev pub of_vms : Bool → Place → List NodeConfig → FoundVms → Outcome Searched
of_vms configures place nodes f =
    if f.vm_found == length nodes
      && (not (is_empty f.place.network_id) && not (is_empty f.place.zone))
    then ok (record { nodes = f.nodes; place = if configures then f.place else place })
    else err plain

unfoldable pub search_vms : Bool → Place → List Vm → List NodeConfig → Outcome Searched
unfolding find_vms
search_vms configures place vms nodes =
    of_vms configures place nodes
      (find_vms vms (record { vm_found = 0; place = no_place; nodes = nodes }))
