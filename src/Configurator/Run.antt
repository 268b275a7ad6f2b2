-- ===== src/Configurator/Run.antt =====
-- Init, Update and configure of the configurator in pkg/driver/configurator.go: one run over the
-- nodes, the storage classes and the snapshot classes. A panic is `none`.
use nifcloud_nas_csi_driver.Base.{
  ℕ, Bool, true, false, ◌&&◌, ◌||◌, Option, none, some, List, [], if◌then◌else◌,
}
use nifcloud_nas_csi_driver.Base.Text.{Str, codes, str_eq}
use nifcloud_nas_csi_driver.Base.Outcome.{Outcome, Done, ok, err, plain}
use nifcloud_nas_csi_driver.Divs.Recommend.{Lan, RdbInstance, IpAddressPool, recommend_cidr}
use nifcloud_nas_csi_driver.Configurator.{
  NodeConfig, KubeNode, CsiNodeObject, CsiNodeApi, Gathered, get_node_configs, set_node_configs,
}
use nifcloud_nas_csi_driver.Configurator.Search.{
  HatobaCluster, Vm, Place, Searched, search_clusters, search_vms,
}
use nifcloud_nas_csi_driver.Configurator.Classes.{
  ClassApi, ClassPlace, Settings, get_storage_classes, set_storage_classes, install_storage_classes,
}
use nifcloud_nas_csi_driver.Configurator.SnapshotClasses.{
  SnapshotClass, Secrets, SecretCall, SecretAnswers, get_snapshot_classes, set_snapshot_classes,
  install_snapshot_classes,
}

-- The flags of the driver that the configurator reads.
pub record Flags : Type 0 where
  pub driver_name : Str
  pub hatoba : Bool
  pub cidr_blk_rcmd : Bool
  pub cfg_snap_repo : Bool
  pub default_snap_endpoint : Str

-- What one run is answered beside the two APIs with a state. The lists of snapshot classes are
-- numbered: that of the installation, of the reading and of the setting.
pub record Given : Type 0 where
  pub nodes : Outcome (List KubeNode)
  pub clusters : Outcome (List HatobaCluster)
  pub vms : Outcome (List Vm)
  pub get_lan : Str → Outcome Lan
  pub list_rdbs : Outcome (List RdbInstance)
  pub dhcp : Str → Str → Outcome (List IpAddressPool × List Str)
  pub cluster_uid : Outcome Str
  pub list_snapshot_classes : ℕ → Outcome (List SnapshotClass)
  pub secrets : Secrets
  pub secret_answers : SecretAnswers
  pub create_snapshot_class : SnapshotClass → Outcome Done
  pub suffix : Str
  pub draws : Str → ℕ → ℕ

-- The cluster's objects, the calls made, and what the configurator keeps from run to run: its
-- nodes, zone and network are read anew by each.
pub record World (classes : ClassApi) (csi_nodes : CsiNodeApi) : Type 0 where
  pub class_state : classes.State
  pub node_state : csi_nodes.State
  pub calls : List SecretCall
  pub new_snapshot_classes : List SnapshotClass
  pub cidr : Str
  pub cluster_name : Str

module _ (classes : ClassApi) (csi_nodes : CsiNodeApi)
    (list_csi_nodes : csi_nodes.State → Outcome (List CsiNodeObject)) (flags : Flags)
    (g : Given) where
  abbrev pub Result : Type 0
  Result = Option (Outcome Done × World classes csi_nodes)

  -- The last part of configure.
  abbrev pub snapshots_made :
      World classes csi_nodes
      → Outcome Done × List SecretCall
      → Outcome Done × World classes csi_nodes
  snapshots_made w (ok u, calls) = (ok tt, record w { calls = calls })
  snapshots_made w (err e, calls) = (err plain, record w { calls = calls })

  abbrev pub snapshots_set : Bool → World classes csi_nodes → Outcome Done × World classes csi_nodes
  snapshots_set false w = (ok tt, w)
  snapshots_set true w = snapshots_made w (
      set_snapshot_classes
        (record {
          driver_name = flags.driver_name;
          cluster_name = w.cluster_name;
          default_snap_endpoint = flags.default_snap_endpoint;
          suffix = g.suffix;
          draws = g.draws;
        })
        g.secrets g.secret_answers g.cluster_uid (g.list_snapshot_classes 2) w.calls)

  abbrev pub then_snapshots :
      Bool → World classes csi_nodes → Option (Outcome Done × classes.State) → Result
  then_snapshots snap w none = none
  then_snapshots snap w (some (err e, s)) = some (err plain, record w { class_state = s })
  then_snapshots snap w (some (ok u, s)) = some (snapshots_set snap (record w { class_state = s }))

  abbrev pub settings : Place → World classes csi_nodes → Settings
  settings p w = record {
    driver_name = flags.driver_name;
    zone = p.zone;
    network_id = p.network_id;
    cluster_name = w.cluster_name;
    cidr = w.cidr;
  }

  abbrev pub classes_set : Bool → Bool → Place → World classes csi_nodes → Result
  classes_set false snap p w = some (snapshots_set snap w)
  classes_set true snap p w =
      then_snapshots snap w (set_storage_classes classes (settings p w) w.class_state)

  abbrev pub nodes_set :
      Bool → Bool → Place → World classes csi_nodes → Outcome Done × csi_nodes.State → Result
  nodes_set cls snap p w (err e, s) = some (err plain, record w { node_state = s })
  nodes_set cls snap p w (ok u, s) = classes_set cls snap p (record w { node_state = s })

  abbrev pub after_cidr : Bool → Bool → Searched → World classes csi_nodes → Outcome Str → Result
  after_cidr cls snap found w (err e) = some (err plain, w)
  after_cidr cls snap found w (ok cidr) =
      nodes_set cls snap found.place (record w { cidr = cidr })
        (set_node_configs csi_nodes flags.driver_name found.nodes w.node_state)

  -- No block on the common network, a recommended one where it is asked for, else the one kept.
  abbrev pub choose_cidr : Bool → Str → Str → Outcome Str
  choose_cidr cls network_id kept =
      if str_eq network_id (codes "net-COMMON_PRIVATE")
      then ok []
      else if cls && flags.cidr_blk_rcmd
      then recommend_cidr network_id (g.get_lan network_id) g.list_rdbs (g.dhcp network_id)
      else ok kept

  -- A search that fails leaves the name of the cluster as it was, but for a cluster of Hatoba whose
  -- name is the empty text.
  abbrev pub after_search :
      Bool → Bool → World classes csi_nodes → Option (Outcome Searched) → Result
  after_search cls snap w none = none
  after_search cls snap w (some (err e)) = some (err plain, w)
  after_search cls snap w (some (ok found)) =
      after_cidr cls snap found (record w { cluster_name = found.place.cluster_name })
        (choose_cidr cls found.place.network_id w.cidr)

  abbrev pub in_clusters :
      Bool → Place → List NodeConfig → Outcome (List HatobaCluster) → Option (Outcome Searched)
  in_clusters due p nodes (err e) = some (err plain)
  in_clusters due p nodes (ok cls) = search_clusters due p cls nodes

  abbrev pub in_vms : Bool → Place → List NodeConfig → Outcome (List Vm) → Outcome Searched
  in_vms due p nodes (err e) = err plain
  in_vms due p nodes (ok vms) = search_vms due p vms nodes

  abbrev pub search_network : Bool → Place → List NodeConfig → Option (Outcome Searched)
  search_network due p nodes =
      if flags.hatoba then in_clusters due p nodes g.clusters else some (in_vms due p nodes g.vms)

  unfoldable pub configure :
      Bool → Bool → ClassPlace → List NodeConfig → World classes csi_nodes → Result
  unfolding search_clusters search_vms recommend_cidr set_node_configs set_storage_classes
      set_snapshot_classes
  configure cls snap read nodes w = after_search cls snap w (
      search_network (cls || snap)
        (record { network_id = read.network_id; zone = read.zone; cluster_name = w.cluster_name })
        nodes)

  abbrev pub on_snapshots : World classes csi_nodes → Gathered → ClassPlace → Outcome Bool → Result
  on_snapshots w nodes read (err e) = some (err plain, w)
  on_snapshots w nodes read (ok snap) =
      if nodes.must_update || (read.must_update || snap)
      then configure read.must_update snap read nodes.configs w
      else some (ok tt, w)

  abbrev pub on_classes : World classes csi_nodes → Gathered → Outcome ClassPlace → Result
  on_classes w nodes (err e) = some (err plain, w)
  on_classes w nodes (ok read) = on_snapshots w nodes read (
      if flags.cfg_snap_repo
      then get_snapshot_classes flags.driver_name g.secrets (g.list_snapshot_classes 1)
      else ok false)

  abbrev pub on_nodes : World classes csi_nodes → Outcome Gathered → Result
  on_nodes w (err e) = some (err plain, w)
  on_nodes w (ok nodes) =
      on_classes w nodes (get_storage_classes flags.driver_name (classes.list w.class_state))

  unfoldable pub update : World classes csi_nodes → Result
  unfolding get_node_configs get_storage_classes get_snapshot_classes configure
  update w = on_nodes w (get_node_configs flags.driver_name g.nodes (list_csi_nodes w.node_state))

  abbrev pub after_snapshot_class :
      World classes csi_nodes → Outcome Done × List SnapshotClass → Result
  after_snapshot_class w (err e, new) = some (err plain, record w { new_snapshot_classes = new })
  after_snapshot_class w (ok u, new) = update (record w { new_snapshot_classes = new })

  abbrev pub after_install : World classes csi_nodes → Outcome Done × classes.State → Result
  after_install w (err e, s) = some (err plain, record w { class_state = s })
  after_install w (ok u, s) =
      after_snapshot_class (record w { class_state = s })
        (if flags.cfg_snap_repo
          then install_snapshot_classes g.create_snapshot_class flags.driver_name
              (g.list_snapshot_classes 0)
          else (ok tt, []))

  unfoldable pub init : World classes csi_nodes → Result
  unfolding install_storage_classes install_snapshot_classes update
  init w = after_install w (install_storage_classes classes flags.driver_name w.class_state)
