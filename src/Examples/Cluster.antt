-- ===== src/Examples/Cluster.antt =====
-- The configurator over a concrete cluster: lists of classes and of CSI nodes.
use nifcloud_nas_csi_driver.Base.{
  ◌+◌, ◌≤◌, ◌<◌, ◌≡◌, refl, sym, ap, ◌∙◌, ◌↔◌, ◌⊎◌, inl, inr, true, false, Option, none, some, List,
  [], ◌∷◌, map, arith, In,
}
use nifcloud_nas_csi_driver.Base.Assoc.{find}
use nifcloud_nas_csi_driver.Base.Text.{Str, codes, str_eq, Lacks}
use nifcloud_nas_csi_driver.Base.Outcome.{Outcome, ok, err, plain}
use nifcloud_nas_csi_driver.Base.Int.{pos}
use nifcloud_nas_csi_driver.Net.Ip.{Ip, IsIp}
use nifcloud_nas_csi_driver.Net.Notation.{ip_text}
use nifcloud_nas_csi_driver.Divs.Recommend.{choose_offset, offset_loop}
use nifcloud_nas_csi_driver.Divs.Recommend.Offset.{goes_on, choose_offset-ends}
use nifcloud_nas_csi_driver.Restic.Repository.{parse_repositry}
use nifcloud_nas_csi_driver.Configurator.{
  is_private, NodeConfig, external_ip, CsiNodeObject, set_node_configs,
}
use nifcloud_nas_csi_driver.Configurator.Private.{is_private-ip_text}
use nifcloud_nas_csi_driver.Configurator.Nodes.{Carries, set_node_configs-Carries}
use nifcloud_nas_csi_driver.Configurator.Search.{Vm, Place, Searched, search_vms}
use nifcloud_nas_csi_driver.Configurator.Matched.{Located, search_vms-Located}
use nifcloud_nas_csi_driver.Configurator.Classes.{ClassObject, has_kind, install_storage_classes}
use nifcloud_nas_csi_driver.Configurator.Installed.{install_storage_classes-again}
use nifcloud_nas_csi_driver.Configurator.SnapshotClasses.{repository_secret}
use nifcloud_nas_csi_driver.Configurator.Secrets.{repository_secret-parse_repositry}
use nifcloud_nas_csi_driver.Configurator.Run.{Flags, Given, World, update}
use nifcloud_nas_csi_driver.Configurator.Updated.{Settled, update-Settled}
use nifcloud_nas_csi_driver.Examples.Stores.{
  nodes_api, nodes_api-IsLawful, class_api, class_api-IsLawful, without_class,
}

abbrev ip : Ip
ip = record { b0 = 172; b1 = 20; b2 = 0; b3 = 1 }

ip-IsIp : IsIp ip
ip-IsIp = record {
  byte0 = omega arith;
  byte1 = omega arith;
  byte2 = omega arith;
  byte3 = omega arith;
}

private_example : (is_private (ip_text ip) ≡ true) ↔ (
    (ip.b0 ≡ 10)
    ⊎ (((ip.b0 ≡ 192) × (ip.b1 ≡ 168)) ⊎ ((ip.b0 ≡ 172) × (16 ≤ ip.b1) × (ip.b1 < 32))))
private_example = is_private-ip_text ip ip-IsIp

offset_example :
    (goes_on 5 (choose_offset 27) ≡ false) × (offset_loop (10 + 3) 5 (pos 4) ≡ choose_offset 27)
offset_example = choose_offset-ends 27 3 (omega arith)

no_slash : Lacks b'/' (codes "h.com")
no_slash = (omega arith, (omega arith, (omega arith, (omega arith, (omega arith, tt)))))

no_slash_in_suffix : Lacks b'/' (codes "ab")
no_slash_in_suffix = (omega arith, (omega arith, tt))

repository_example :
    (text : Str) × (find
        (codes "resticRepository")
        (repository_secret
          (codes "d")
          []
          (codes "u")
          (codes "h.com")
          (codes "csi-snapshot-ab")
          (codes "w")).string_data
      ≡ some text)
    × (parse_repositry text
        ≡ ok (record {
          endpoint = codes "h.com";
          bucket = codes "csi-snapshot-ab";
          prefix = [];
          scheme = codes "https";
        }))
repository_example =
    repository_secret-parse_repositry (codes "d") [] (codes "u") (codes "h.com") (codes "ab")
      (codes "w") no_slash no_slash_in_suffix (λ e. cc e)

abbrev node : NodeConfig
node = record { name = codes "n1"; public_ip = codes "1.2.3.4"; private_ip = codes "10.0.0.5" }

abbrev csi_node : Option (List (Str × Str)) → CsiNodeObject
csi_node annotations = record {
  name = codes "n1";
  drivers = codes "d" ∷ [];
  annotations = annotations;
}

abbrev csi_nodes : List (Str × CsiNodeObject)
csi_nodes = (codes "n1", csi_node none) ∷ []

abbrev annotated_nodes : List (Str × CsiNodeObject)
annotated_nodes = (codes "n1", csi_node (some ((codes "d/privateIp", codes "10.0.0.5") ∷ []))) ∷ []

annotate_run :
    set_node_configs nodes_api (codes "d") (node ∷ []) csi_nodes ≡ (ok tt, annotated_nodes)
unfolding set_node_configs str_eq
annotate_run = refl

one_agrees :
    (a b : NodeConfig)
    → In a (node ∷ [])
    → In b (node ∷ [])
    → a.name ≡ b.name
    → a.private_ip ≡ b.private_ip
one_agrees a b (inl e) (inl f) h = ap (λ (x : NodeConfig). x.private_ip) (sym e ∙ f)
one_agrees a b (inr i) j h = absurd i
one_agrees a b (inl e) (inr j) h = absurd j

nodes_example :
    Carries nodes_api nodes_api-IsLawful (codes "d") annotated_nodes (codes "n1") (codes "10.0.0.5")
nodes_example =
    set_node_configs-Carries nodes_api nodes_api-IsLawful (codes "d") (node ∷ []) csi_nodes
      annotated_nodes one_agrees annotate_run node (inl refl)

abbrev installed : List ClassObject
installed = (install_storage_classes class_api (codes "d") []).1

install_run : install_storage_classes class_api (codes "d") [] ≡ (ok tt, installed)
unfolding install_storage_classes
install_run = refl

install_example :
    (has_kind (codes "d") (codes "0") false installed ≡ true)
    × (has_kind (codes "d") (codes "1") false installed ≡ true)
    × (has_kind (codes "d") (codes "0") true installed ≡ true)
    × (has_kind (codes "d") (codes "1") true installed ≡ true)
    × (install_storage_classes class_api (codes "d") installed ≡ (ok tt, installed))
install_example =
    install_storage_classes-again class_api class_api-IsLawful (codes "d") [] installed installed
      install_run refl

-- One node, one instance, one class without a zone.
abbrev vm : Vm
vm = record {
  instance_id = some (codes "i");
  ip_address = some (codes "1.2.3.4");
  private_ip_address = some (codes "10.0.0.5");
  interfaces = (some (codes "10.0.0.5"), some (codes "net-1")) ∷ [];
  placement = some (some (codes "z"));
}

abbrev place : Place
place = record { network_id = []; zone = []; cluster_name = [] }

abbrev found : Searched
found = record {
  nodes = node ∷ [];
  place = record { network_id = codes "net-1"; zone = codes "z"; cluster_name = codes "i" };
}

abbrev unplaced : NodeConfig
unplaced = record { name = codes "n1"; public_ip = codes "1.2.3.4"; private_ip = [] }

search_run : search_vms true place (vm ∷ []) (unplaced ∷ []) ≡ ok found
unfolding search_vms str_eq
search_run = refl

search_example : Located (vm ∷ []) node
search_example =
    search_vms-Located true place (vm ∷ []) (unplaced ∷ []) found ((λ m. m), tt) search_run node
      (inl refl)

abbrev class : ClassObject
class = record { name = codes "c"; provisioner = codes "d"; parameters = some [] }

abbrev flags : Flags
flags = record {
  driver_name = codes "d";
  hatoba = false;
  cidr_blk_rcmd = false;
  cfg_snap_repo = false;
  default_snap_endpoint = codes "h.com";
}

abbrev given : Given
given = record {
  nodes = ok ((record { name = codes "n1"; addresses = (external_ip, codes "1.2.3.4") ∷ [] }) ∷ []);
  clusters = ok [];
  vms = ok (vm ∷ []);
  get_lan = λ id. err plain;
  list_rdbs = ok [];
  dhcp = λ id router. err plain;
  cluster_uid = ok (codes "u");
  list_snapshot_classes = λ n. ok [];
  secrets = λ name. err plain;
  secret_answers = record {
    get_creds = err plain;
    delete_creds = ok tt;
    create_creds = λ s. ok tt;
    create_bucket = λ b s. ok tt;
  };
  create_snapshot_class = λ c. ok tt;
  suffix = codes "ab";
  draws = λ text n. 0;
}

abbrev list_csi : List (Str × CsiNodeObject) → Outcome (List CsiNodeObject)
list_csi s = ok (map (λ x. x.1) s)

abbrev world : World class_api nodes_api
world = record {
  class_state = class ∷ [];
  node_state = csi_nodes;
  calls = [];
  new_snapshot_classes = [];
  cidr = [];
  cluster_name = [];
}

abbrev placed_class : ClassObject
placed_class = record {
  name = codes "c";
  provisioner = codes "d";
  parameters = some (
      (codes "zone", codes "z")
      ∷ (codes "networkId", codes "net-1")
      ∷ (codes "description", codes "csi-volume of cluster:i")
      ∷ []);
}

abbrev updated_world : World class_api nodes_api
updated_world = record {
  class_state = placed_class ∷ [];
  node_state = annotated_nodes;
  calls = [];
  new_snapshot_classes = [];
  cidr = [];
  cluster_name = codes "i";
}

update_run : update class_api nodes_api list_csi flags given world ≡ some (ok tt, updated_world)
unfolding update str_eq without_class
update_run = refl

update_example :
    Settled class_api class_api-IsLawful nodes_api list_csi flags given (placed_class ∷ [])
update_example =
    update-Settled class_api class_api-IsLawful nodes_api list_csi flags given world updated_world
      (placed_class ∷ []) placed_class refl update_run refl (inl refl) refl
