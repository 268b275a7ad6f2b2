-- ===== src/Configurator/Classes.antt =====
-- The storage classes of the configurator in pkg/driver/configurator.go. The Kubernetes API of the
-- classes is a record of operations on an unknown state; a panic is `none`.
use nifcloud_nas_csi_driver.Base.{
  Bool, true, false, not, ◌&&◌, ◌||◌, Option, none, some, List, [], ◌∷◌, ◌++◌, if◌then◌else◌,
}
use nifcloud_nas_csi_driver.Base.Assoc.{find, put}
use nifcloud_nas_csi_driver.Base.Text.{Str, codes, is_empty, or_empty, str_eq}
use nifcloud_nas_csi_driver.Base.Outcome.{Outcome, Done, ok, err, plain, ◌>>=◌}
use nifcloud_nas_csi_driver.Base.{String}

-- storagev1.StorageClass: no parameters at all are Go's nil map. The version and the UID that the
-- code clears are the API's.
pub record ClassObject : Type 0 where
  pub name : Str
  pub provisioner : Str
  pub parameters : Option (List (Str × Str))

pub record ClassApi : Type 1 where
  pub State : Type 0
  pub list : State → Outcome (List ClassObject)
  pub delete : State → Str → Outcome Done × State
  pub create : State → ClassObject → Outcome Done × State

abbrev pub parameters_of : Option (List (Str × Str)) → List (Str × Str)
parameters_of none = []
parameters_of (some ps) = ps

abbrev pub parameter : String → ClassObject → Str
parameter key cl = or_empty (find (codes key) (parameters_of cl.parameters))

-- What getStorageClasses reads off the classes of the driver.
pub record ClassPlace : Type 0 where
  pub must_update : Bool
  pub zone : Str
  pub network_id : Str

-- One value against the one there is: the first that is set is taken over, and one that is not set
-- or is another makes an update due.
abbrev pub differs : Str → Str → Bool
differs have value = is_empty value || (not (is_empty have) && not (str_eq have value))

abbrev pub or_have : Str → Str → Str
or_have [] value = value
or_have (c ∷ have) value = c ∷ have

abbrev pub read_class : ClassObject → ClassPlace → ClassPlace
read_class cl p = record {
  must_update =
      p.must_update
      || (differs p.zone (parameter "zone" cl) || differs p.network_id (parameter "networkId" cl));
  zone = or_have p.zone (parameter "zone" cl);
  network_id = or_have p.network_id (parameter "networkId" cl);
}

unfoldable pub read_classes : Str → List ClassObject → ClassPlace → ClassPlace
unfolding find
read_classes driver_name [] p = p
read_classes driver_name (cl ∷ cls) p =
    read_classes driver_name cls (if str_eq cl.provisioner driver_name then read_class cl p else p)

abbrev pub or_unset : ClassPlace → ClassPlace
or_unset p = record p { must_update = p.must_update || (is_empty p.zone || is_empty p.network_id) }

unfoldable pub get_storage_classes : Str → Outcome (List ClassObject) → Outcome ClassPlace
unfolding read_classes
get_storage_classes driver_name classes = do
  cls ← classes
  ok (
      or_unset
        (read_classes driver_name cls (record { must_update = false; zone = []; network_id = [] })))

-- What the configurator sets.
pub record Settings : Type 0 where
  pub driver_name : Str
  pub zone : Str
  pub network_id : Str
  pub cluster_name : Str
  pub cidr : Str

abbrev pub put_where : Bool → String → Str → List (Str × Str) → List (Str × Str)
put_where true key value ps = put (codes key) value ps
put_where false key value ps = ps

abbrev pub located : Settings → List (Str × Str) → List (Str × Str)
located c ps = put (codes "networkId") c.network_id (put (codes "zone") c.zone ps)

abbrev pub lacks_description : Settings → List (Str × Str) → Bool
lacks_description c ps =
    is_empty (or_empty (find (codes "description") ps)) && not (is_empty c.cluster_name)

abbrev pub described : Settings → List (Str × Str) → List (Str × Str)
described c ps =
    put_where (lacks_description c ps) "description"
      (codes "csi-volume of cluster:" ++ c.cluster_name) ps

-- A block that is set is kept.
abbrev pub lacks_block : Settings → List (Str × Str) → Bool
lacks_block c ps = not (is_empty c.cidr) && is_empty (or_empty (find (codes "reservedIpv4Cidr") ps))

abbrev pub in_block : Settings → List (Str × Str) → List (Str × Str)
in_block c ps = put_where (lacks_block c ps) "reservedIpv4Cidr" c.cidr ps

unfoldable pub set_parameters : Settings → List (Str × Str) → List (Str × Str)
unfolding find put
set_parameters c ps = in_block c (described c (located c ps))

-- Whether a class is another driver's, or is set already.
abbrev pub is_set : Settings → ClassObject → Bool
is_set c cl = str_eq (parameter "zone" cl) c.zone && str_eq (parameter "networkId" cl) c.network_id

abbrev pub passes : Settings → ClassObject → Bool
passes c cl = not (str_eq cl.provisioner c.driver_name) || is_set c cl

-- The four kinds of class that are installed where the driver has none of the kind.
abbrev pub bool_eq : Bool → Bool → Bool
bool_eq true b = b
bool_eq false b = not b

abbrev pub is_kind : Str → Str → Bool → ClassObject → Bool
is_kind driver_name instance_type shared cl =
    str_eq cl.provisioner driver_name
    && (str_eq (parameter "instanceType" cl) instance_type
        && bool_eq (str_eq (parameter "shared" cl) (codes "true")) shared)

unfoldable pub has_kind : Str → Str → Bool → List ClassObject → Bool
unfolding find
has_kind driver_name instance_type shared [] = false
has_kind driver_name instance_type shared (cl ∷ cls) =
    is_kind driver_name instance_type shared cl || has_kind driver_name instance_type shared cls
  where
    bool_eq : Bool → Bool → Bool
    bool_eq true b = b
    bool_eq false b = not b

abbrev pub new_class : Str → String → List (Str × Str) → ClassObject
new_class driver_name name ps = record {
  name = codes name;
  provisioner = driver_name;
  parameters = some ps;
}

abbrev pub std : Str → ClassObject
std driver_name =
    new_class driver_name "csi-nifcloud-nas-std" ((codes "instanceType", codes "0") ∷ [])

abbrev pub hi : Str → ClassObject
hi driver_name =
    new_class driver_name "csi-nifcloud-nas-hi" ((codes "instanceType", codes "1") ∷ [])

abbrev pub shrd : Str → ClassObject
shrd driver_name = new_class driver_name "csi-nifcloud-nas-shrd" (
    (codes "instanceType", codes "0")
    ∷ (codes "shared", codes "true")
    ∷ (codes "capacityParInstanceGiB", codes "500")
    ∷ [])

abbrev pub shrdhi : Str → ClassObject
shrdhi driver_name = new_class driver_name "csi-nifcloud-nas-shrdhi" (
    (codes "instanceType", codes "1")
    ∷ (codes "shared", codes "true")
    ∷ (codes "capacityParInstanceGiB", codes "1000")
    ∷ [])

module _ (api : ClassApi) where
  abbrev pub Run : Type 0
  Run = Outcome Done × api.State

  abbrev pub plain_error : Run → Run
  plain_error (ok u, s) = (ok tt, s)
  plain_error (err e, s) = (err plain, s)

  -- A class is deleted and created again.
  abbrev pub recreate : ClassObject → Run → Run
  recreate cl (err e, s) = (err plain, s)
  recreate cl (ok u, s) = plain_error (api.create s cl)

  abbrev pub set_class : Settings → ClassObject → api.State → Option (List (Str × Str)) → Option Run
  set_class c cl s none = none
  set_class c cl s (some ps) =
      some (recreate (record cl { parameters = some (set_parameters c ps) }) (api.delete s cl.name))

  abbrev pub set_unless : Bool → Settings → ClassObject → api.State → Option Run
  set_unless true c cl s = some (ok tt, s)
  set_unless false c cl s = set_class c cl s cl.parameters

  abbrev pub then_classes : Option Run → (api.State → Option Run) → Option Run
  then_classes none next = none
  then_classes (some (err e, s)) next = some (err e, s)
  then_classes (some (ok u, s)) next = next s

  unfoldable pub set_classes : Settings → List ClassObject → api.State → Option Run
  unfolding set_parameters find
  set_classes c [] s = some (ok tt, s)
  set_classes c (cl ∷ cls) s = then_classes (set_unless (passes c cl) c cl s) (set_classes c cls)

  abbrev pub set_listed : Settings → api.State → Outcome (List ClassObject) → Option Run
  set_listed c s (err e) = some (err plain, s)
  set_listed c s (ok cls) = set_classes c cls s

  unfoldable pub set_storage_classes : Settings → api.State → Option Run
  unfolding set_classes
  set_storage_classes c s = set_listed c s (api.list s)

  abbrev pub install : Bool → ClassObject → Run → Run
  install there cl (err e, s) = (err e, s)
  install true cl (ok u, s) = (ok tt, s)
  install false cl (ok u, s) = plain_error (api.create s cl)

  abbrev pub install_listed : Str → api.State → Outcome (List ClassObject) → Run
  install_listed driver_name s (err e) = (err plain, s)
  install_listed driver_name s (ok cls) =
      install (has_kind driver_name (codes "1") true cls) (shrdhi driver_name) (
        install (has_kind driver_name (codes "0") true cls) (shrd driver_name) (
          install (has_kind driver_name (codes "1") false cls) (hi driver_name)
            (install (has_kind driver_name (codes "0") false cls) (std driver_name) (ok tt, s))))

  unfoldable pub install_storage_classes : Str → api.State → Run
  unfolding has_kind
  install_storage_classes driver_name s = install_listed driver_name s (api.list s)
