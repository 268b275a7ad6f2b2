-- ===== src/Configurator/SnapshotClasses.antt =====
-- The snapshot classes of the configurator in pkg/driver/configurator.go, with the password of
-- pkg/driver/utils.go. The making of the bucket, the draws of math/rand and the Kubernetes API are
-- arguments.
use nifcloud_nas_csi_driver.Base.{
  ℕ, zero, suc, ◌%◌, ◌≡◌, refl, Bool, true, false, not, ◌&&◌, ◌||◌, Option, none, some, List, [],
  ◌∷◌, ◌++◌, if◌then◌else◌, length, drop, get_elem?,
}
use nifcloud_nas_csi_driver.Base.Assoc.{find}
use nifcloud_nas_csi_driver.Base.Text.{
  Str, codes, is_empty, or_empty, str_eq, str_eq_refl, cut, has_prefix,
}
use nifcloud_nas_csi_driver.Base.Outcome.{Outcome, Done, ok, err, plain}

pub record SnapshotClass : Type 0 where
  pub name : Str
  pub driver : Str
  pub parameters : List (Str × Str)

-- The secrets of a class, as getSecretsFromSnapshotClass reads them.
abbrev pub Secrets : Type 0
Secrets = Str → Outcome (List (Str × Str))

abbrev pub complete : Outcome (List (Str × Str)) → Bool
complete (err e) = false
complete (ok secrets) =
    not (is_empty (or_empty (find (codes "resticRepository") secrets)))
    && not (is_empty (or_empty (find (codes "resticPassword") secrets)))

unfoldable pub lacks_secrets : Str → Secrets → List SnapshotClass → Bool
unfolding find
lacks_secrets driver_name secrets [] = true
lacks_secrets driver_name secrets (cl ∷ cls) =
    not (str_eq cl.driver driver_name && complete (secrets cl.name))
    && lacks_secrets driver_name secrets cls

unfoldable pub get_snapshot_classes : Str → Secrets → Outcome (List SnapshotClass) → Outcome Bool
unfolding lacks_secrets
get_snapshot_classes driver_name secrets (err e) = err plain
get_snapshot_classes driver_name secrets (ok cls) = ok (lacks_secrets driver_name secrets cls)

-- strings.TrimPrefix
abbrev pub trim_prefix : Str → Str → Str
trim_prefix s p = if has_prefix s p then drop (length p) s else s

unfoldable pub region_from_endpoint : Str → Str
unfolding has_prefix cut
region_from_endpoint ep =
    (cut b'.' (trim_prefix (trim_prefix ep (codes "https://")) (codes "http://"))).0

abbrev pub letters : Str
letters = codes "abcdefghijklmnopqrstuvwxyz0123456789"

abbrev letter : Option ℕ → Str
letter none = []
letter (some c) = c ∷ []

-- The draws are those of rand.Intn for the seed made of the text; each is below the bound it gets.
unfoldable pub make_password : (Str → ℕ → ℕ) → Str → ℕ → Str
make_password draws text zero = []
make_password draws text (suc n) =
    make_password draws text n ++ letter (get_elem? letters (draws text n % length letters))

-- corev1.Secret of the repository.
pub record RepositorySecret : Type 0 where
  pub name : Str
  pub annotations : List (Str × Str)
  pub string_data : List (Str × Str)

pub data SecretCall : Type 0 where
  delete_creds : SecretCall
  create_creds : RepositorySecret → SecretCall
  create_bucket : Str → RepositorySecret → SecretCall

-- What the calls of one run are answered.
pub record SecretAnswers : Type 0 where
  pub get_creds : Outcome Done
  pub delete_creds : Outcome Done
  pub create_creds : RepositorySecret → Outcome Done
  pub create_bucket : Str → RepositorySecret → Outcome Done

abbrev pub creds : Str
creds = codes "restic-creds"

abbrev pub creds_namespace : Str
creds_namespace = codes "nifcloud-nas-csi-driver"

abbrev pub Handled : Type 0
Handled = Outcome Done × List SecretCall

abbrev pub bucket_made : Outcome Done → List SecretCall → Handled
bucket_made (ok u) calls = (ok tt, calls)
bucket_made (err e) calls = (err plain, calls)

abbrev pub secret_made :
    SecretAnswers → Str → RepositorySecret → List SecretCall → Outcome Done → Handled
secret_made a bucket secret calls (err e) = (err plain, calls ++ create_creds secret ∷ [])
secret_made a bucket secret calls (ok u) =
    bucket_made (a.create_bucket bucket secret)
      (calls ++ create_creds secret ∷ create_bucket bucket secret ∷ [])

abbrev pub old_deleted :
    SecretAnswers → Str → RepositorySecret → List SecretCall → Outcome Done → Handled
old_deleted a bucket secret calls (err e) = (err plain, calls ++ delete_creds ∷ [])
old_deleted a bucket secret calls (ok u) =
    secret_made a bucket secret (calls ++ delete_creds ∷ []) (a.create_creds secret)

-- A secret that is there is deleted first.
abbrev pub renew : SecretAnswers → Str → RepositorySecret → List SecretCall → Outcome Done → Handled
renew a bucket secret calls (ok u) = old_deleted a bucket secret calls a.delete_creds
renew a bucket secret calls (err e) = secret_made a bucket secret calls (a.create_creds secret)

-- Whether a class is the driver's, has no complete secrets and names the driver's secret.
abbrev pub wants_secret : Str → Secrets → SnapshotClass → Bool
wants_secret driver_name secrets cl =
    (str_eq cl.driver driver_name && not (complete (secrets cl.name)))
    && (str_eq (or_empty (find (codes "csi.storage.k8s.io/snapshotter-secret-name") cl.parameters))
          creds
        && str_eq
            (or_empty
              (find (codes "csi.storage.k8s.io/snapshotter-secret-namespace") cl.parameters))
            creds_namespace)

-- The loop: the first class that wants the secret ends it.
unfoldable pub set_wanted :
    Str
    → Secrets
    → SecretAnswers
    → Str
    → RepositorySecret
    → List SnapshotClass
    → List SecretCall
    → Handled
unfolding find
set_wanted driver_name secrets a bucket secret [] calls = (ok tt, calls)
set_wanted driver_name secrets a bucket secret (cl ∷ cls) calls =
    let rest = set_wanted driver_name secrets a bucket secret cls calls in
    if wants_secret driver_name secrets cl then renew a bucket secret calls a.get_creds else rest

abbrev pub cluster_id : Str → Str → Str
cluster_id [] uid = uid
cluster_id (c ∷ name) uid = c ∷ (name ++ b'-' ∷ uid)

unfoldable pub repository_secret : Str → Str → Str → Str → Str → Str → RepositorySecret
repository_secret driver_name cluster_name uid endpoint bucket password = record {
  name = creds;
  annotations = (driver_name ++ codes "/clusterID", cluster_id cluster_name uid) ∷ [];
  string_data =
      (codes "resticRepository", codes "s3:" ++ (endpoint ++ b'/' ∷ bucket))
      ∷ (codes "resticPassword", password)
      ∷ [];
}

-- What the run is given: the settings, the draws and the suffix of the bucket's name, and answers.
pub record SnapshotSettings : Type 0 where
  pub driver_name : Str
  pub cluster_name : Str
  pub default_snap_endpoint : Str
  pub suffix : Str
  pub draws : Str → ℕ → ℕ

abbrev pub with_classes :
    SnapshotSettings
    → Secrets
    → SecretAnswers
    → Str
    → Outcome (List SnapshotClass)
    → List SecretCall
    → Handled
with_classes c secrets a uid (err e) calls = (err plain, calls)
with_classes c secrets a uid (ok cls) calls =
    let bucket = codes "csi-snapshot-" ++ c.suffix in
    set_wanted c.driver_name secrets a bucket
      (repository_secret c.driver_name c.cluster_name uid c.default_snap_endpoint bucket
        (make_password c.draws uid 16))
      cls calls

unfoldable pub set_snapshot_classes :
    SnapshotSettings
    → Secrets
    → SecretAnswers
    → Outcome Str
    → Outcome (List SnapshotClass)
    → List SecretCall
    → Handled
unfolding set_wanted repository_secret make_password
set_snapshot_classes c secrets a (err e) classes calls = (err plain, calls)
set_snapshot_classes c secrets a (ok uid) classes calls = with_classes c secrets a uid classes calls

unfoldable pub has_class : Str → List SnapshotClass → Bool
has_class driver_name [] = false
has_class driver_name (cl ∷ cls) = str_eq cl.driver driver_name || has_class driver_name cls

-- The class that is installed where the driver has none, and the call that makes it.
abbrev pub restic_class : Str → SnapshotClass
restic_class driver_name = record {
  name = codes "csi-nifcloud-nas-restic";
  driver = driver_name;
  parameters =
      (codes "csi.storage.k8s.io/snapshotter-secret-name", creds)
      ∷ (codes "csi.storage.k8s.io/snapshotter-secret-namespace", creds_namespace)
      ∷ [];
}

abbrev pub plain_error : Outcome Done → Outcome Done
plain_error (ok u) = ok tt
plain_error (err e) = err plain

unfoldable pub install_snapshot_classes :
    (SnapshotClass → Outcome Done)
    → Str
    → Outcome (List SnapshotClass)
    → Outcome Done × List SnapshotClass
unfolding has_class
install_snapshot_classes create driver_name (err e) = (err plain, [])
install_snapshot_classes create driver_name (ok cls) =
    if has_class driver_name cls
    then (ok tt, [])
    else (plain_error (create (restic_class driver_name)), restic_class driver_name ∷ [])

-- The class that is installed is one that the configurator makes the secret for.
restic_class-wants :
    (driver_name : Str) (secrets : Secrets)
    → complete (secrets (codes "csi-nifcloud-nas-restic")) ≡ false
    → wants_secret driver_name secrets (restic_class driver_name) ≡ true
unfolding find str_eq
restic_class-wants driver_name secrets h = rw (str_eq_refl driver_name, h) refl
