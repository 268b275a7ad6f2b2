-- ===== src/Examples/Volumes.antt =====
-- CreateVolume and DeleteVolume at concrete inputs.
use nifcloud_nas_csi_driver.Base.{
  ◌+◌, ◌<◌, ap, subst, Bool, false, if◌then◌else◌, All, ◌≡◌, refl, ◌↔◌, inl, inr, true, none, some,
  List, [], ◌∷◌, arith, In,
}
use nifcloud_nas_csi_driver.Base.Assoc.{find}
use nifcloud_nas_csi_driver.Base.Text.{codes, str_eq, mem?, contains as str_contains}
use nifcloud_nas_csi_driver.Base.Outcome.{Outcome, ok, err, plain, cloud}
use nifcloud_nas_csi_driver.Base.Int.{pos, two63}
use nifcloud_nas_csi_driver.Allocator.{new_ip_allocator}
use nifcloud_nas_csi_driver.Names.{new_instance_name_holder}
use nifcloud_nas_csi_driver.Queue.{OperateResourceQueue, new_operate_resource_queue}
use nifcloud_nas_csi_driver.Capacity.{CapacityRange, get_request_capacity_no_minimum}
use nifcloud_nas_csi_driver.Cloud.{
  NasInstance, generate_volume_id_from_nas_instance, name_of_volume_id,
}
use nifcloud_nas_csi_driver.Driver.{mount, modes, multi_node_multi_writer}
use nifcloud_nas_csi_driver.Jobs.{JobAnswers}
use nifcloud_nas_csi_driver.Syncer.{Config}
use nifcloud_nas_csi_driver.Controller.{
  parse_int, CreateVolumeRequest, CreateNasInstanceInput, Volume, is_shared,
  nas_instance_to_csi_volume, compare_nas_instance_with_input,
}
use nifcloud_nas_csi_driver.Controller.Compare.{compare_nas_instance_with_input_iff, Accepted}
use nifcloud_nas_csi_driver.Controller.Shared.{
  PersistentVolume, SharedAnswers, shared_nas, place_loop,
}
use nifcloud_nas_csi_driver.Controller.Room.{IsAmount, total}
use nifcloud_nas_csi_driver.Controller.Placing.{AreAmounts, AreSized, HasRoom, place_loop-HasRoom}
use nifcloud_nas_csi_driver.Controller.VolumeIds.{parse_volume_id-nas_instance_to_csi_volume}
use nifcloud_nas_csi_driver.Controller.Finish.{CreateAnswers}
use nifcloud_nas_csi_driver.Controller.Create.{Server, create_volume}
use nifcloud_nas_csi_driver.Controller.Frees.{Freed, create_volume-Freed}
use nifcloud_nas_csi_driver.Controller.Delete.{
  DeleteAnswers, DeleteCall, delete_nas, parse_volume_id, delete_volume,
}
use nifcloud_nas_csi_driver.Controller.Removal.{MayDelete, delete_volume-MayDelete}

abbrev nas : NasInstance
nas = record {
  identifier = codes "n";
  instance_type = pos 0;
  allocated_storage = some (codes "100");
  network_id = none;
  availability_zone = some (codes "z");
  security_groups = codes "cluster-u" ∷ [];
  instance_status = codes "available";
  no_root_squash = codes "true";
  private_address = some (codes "10.0.0.1");
}

abbrev input : CreateNasInstanceInput
input = record {
  allocated_storage = pos 100;
  availability_zone = codes "z";
  master_private_address = none;
  identifier = codes "n";
  instance_type = pos 0;
  description = [];
  security_groups = codes "other" ∷ [];
  network_id = none;
  protocol = codes "nfs";
}

compare_example : (compare_nas_instance_with_input nas input ≡ some (ok tt)) ↔ Accepted nas input
compare_example = compare_nas_instance_with_input_iff nas input

-- A shared volume of 10 bytes beside one of 20 on the instance n of the cluster u.
abbrev req : CreateVolumeRequest
req = record {
  name = codes "p";
  capabilities =
      some (record { access_mode = some multi_node_multi_writer; access_type = some (mount []) })
      ∷ [];
  parameters = (codes "shared", codes "true") ∷ (codes "capacityParInstanceGiB", codes "100") ∷ [];
  capacity_range = some (record { required_bytes = pos 10; limit_bytes = pos 0 });
  content_source = none;
}

abbrev pv : PersistentVolume
pv = record {
  name = codes "q";
  volume_handle = some (codes "r/cluster-u-shd001-x/q");
  storage = some (pos 20);
}

abbrev shared_answers : SharedAnswers
shared_answers = record {
  persistent_volumes = λ n. ok (pv ∷ []);
  list_nas_instances = ok [];
  get_nas_instance = λ name. ok nas;
  kube_system_uid = ok (codes "u");
  random_suffix = codes "abcde";
}

abbrev config : Config
config = record { driver_name = codes "d"; cluster_uid = codes "u" }

placed_here :
    place_loop shared_answers (pos 10) (codes "cluster-u-shd") 10 1
    ≡ some (ok (shared_nas (codes "cluster-u-shd001-x")))
unfolding place_loop nifcloud_nas_csi_driver.Capacity.gb_to_bytes
placed_here = refl

same_ok : {A : Type 0} (x y : A) → ok x ≡ ok y → x ≡ y
same_ok x y e = cc

small_amounts : AreAmounts shared_answers
unfolding total IsAmount
small_amounts k key pvs h =
    subst (λ l. All (λ p. IsAmount p.storage) l × (total key l < two63)) (same_ok (pv ∷ []) pvs h)
      ((tt, tt), one (str_contains (codes "r/cluster-u-shd001-x/q") key))
  where
    one : (b : Bool) → (if b then 20 + 0 else 0) < two63
    one true = omega arith
    one false = omega arith

all_sized : AreSized shared_answers
unfolding parse_int
all_sized name n text h stored = (100, ap parse_int same, omega arith)
  where
    same : text ≡ codes "100"
    same = let e : n ≡ nas = cc h in cc (stored, ap (λ m. m.allocated_storage) e)

room_example : HasRoom shared_answers 10 (codes "cluster-u-shd") (codes "cluster-u-shd001-x")
room_example =
    place_loop-HasRoom shared_answers 10 (codes "cluster-u-shd") (codes "cluster-u-shd001-x")
      small_amounts all_sized placed_here

abbrev vol : Volume
vol = record {
  volume_id = codes "r/n/p";
  capacity_bytes = pos 10;
  ip = codes "10.0.0.1";
  path = codes "p";
  from_snapshot = none;
}

asks_shared : is_shared req ≡ true
unfolding is_shared str_eq find
asks_shared = refl

made_volume : nas_instance_to_csi_volume (codes "r") nas req ≡ some vol
unfolding nas_instance_to_csi_volume str_eq find get_request_capacity_no_minimum
made_volume = refl

id_example :
    (parse_volume_id (codes "r/n/p")
      ≡ (generate_volume_id_from_nas_instance (codes "r") nas, some (codes "p")))
    × (name_of_volume_id (parse_volume_id (codes "r/n/p")).0 ≡ ok (codes "n"))
id_example =
    parse_volume_id-nas_instance_to_csi_volume (codes "r") nas req vol (ground arith) (ground arith)
      (ground arith) asks_shared made_volume

-- The run that puts the volume there: the instance is there with its group, and the job runs.
abbrev jobs : JobAnswers
jobs = record {
  create = λ j. ok tt;
  create_again = λ j. ok tt;
  conditions = ok (codes "Complete" ∷ []) ∷ [];
}

abbrev answers : CreateAnswers
answers = record {
  region = codes "r";
  vcap = modes;
  shared = shared_answers;
  kube_system_uid = ok (codes "u");
  pvcs = ok (record { uid = codes "p"; annotations = [] } ∷ []);
  get_nas_instance = λ n name. err plain;
  polls = λ n name. [];
  list_nas_instances = ok [];
  create_nas_instance = λ i. ok nas;
  modify_nas_instance = λ name. ok nas;
  jobs = jobs;
  restore_snapshot = λ id v. ok tt;
}

abbrev server : Server
server = record {
  creating_pvs = new_operate_resource_queue;
  names = new_instance_name_holder;
  allocator = new_ip_allocator [];
  calls = [];
}

abbrev plain_req : CreateVolumeRequest
plain_req = record {
  name = codes "pvc-p";
  capabilities =
      some (record { access_mode = some multi_node_multi_writer; access_type = some (mount []) })
      ∷ [];
  parameters =
      (codes "networkId", codes "net-1") ∷ (codes "reservedIpv4Cidr", codes "10.0.0.0/30") ∷ [];
  capacity_range = none;
  content_source = none;
}

abbrev new_answers : CreateAnswers
new_answers = record answers { get_nas_instance = λ n name. err (cloud (codes "NotFound")) }

created_volume :
    (r : Outcome Volume) × (t : Server) × (create_volume config new_answers plain_req server
      ≡ some (r, t))
unfolding create_volume str_eq mem? new_instance_name_holder
    nifcloud_nas_csi_driver.Net.Notation.parse_ip nifcloud_nas_csi_driver.Allocator.search
    nifcloud_nas_csi_driver.Net.Mask.contains nifcloud_nas_csi_driver.Net.Ip.ip_eq
    nifcloud_nas_csi_driver.Net.Mask.mask_ip nifcloud_nas_csi_driver.Allocator.used new_ip_allocator
created_volume = (_, _, refl)

freed_example : Freed server created_volume.1
freed_example =
    create_volume-Freed config new_answers plain_req server created_volume.1 created_volume.0
      created_volume.2

-- The last volume of a shared instance.
abbrev last_pv : PersistentVolume
last_pv = record { name = codes "p"; volume_handle = some (codes "r/n/p"); storage = none }

abbrev delete_answers : DeleteAnswers
delete_answers = record {
  get_nas_instance = λ name. ok nas;
  persistent_volumes = ok (last_pv ∷ []);
  delete_nas_instance = λ name. ok tt;
  jobs = jobs;
}

read_id : parse_volume_id (codes "r/n/p") ≡ (codes "r/n", some (codes "p"))
unfolding parse_volume_id
read_id = refl

deleted_volume :
    (q : OperateResourceQueue) × (calls : List DeleteCall) × (delete_volume delete_answers
        new_operate_resource_queue
        (codes "r/n/p")
      ≡ some (ok tt, q, calls))
    × In (delete_nas (codes "n")) calls
unfolding delete_volume new_operate_resource_queue str_eq
deleted_volume = (_, _, refl, inr (inr (inl refl)))

delete_example : MayDelete delete_answers (codes "r/n") (codes "p") (codes "n")
delete_example =
    delete_volume-MayDelete delete_answers new_operate_resource_queue deleted_volume.0
      (codes "r/n/p") (codes "r/n") (codes "p") (ok tt) deleted_volume.1 read_id deleted_volume.2
      (codes "n") deleted_volume.3
