-- ===== src/Configurator/Secrets.antt =====
-- The repository that the configurator of pkg/driver/configurator.go names is read by
-- pkg/driver/restic.go.
use nifcloud_nas_csi_driver.Base.{◌≡◌, refl, ◌≢◌, some, [], ◌∷◌, ◌++◌, arith}
use nifcloud_nas_csi_driver.Base.Assoc.{find}
use nifcloud_nas_csi_driver.Base.Text.{Str, codes, str_eq, Lacks}
use nifcloud_nas_csi_driver.Base.Outcome.{ok}
use nifcloud_nas_csi_driver.Restic.Repository.{parse_repositry, parse_repositry-bucket}
use nifcloud_nas_csi_driver.Configurator.SnapshotClasses.{repository_secret}

bucket-Lacks : (suffix : Str) → Lacks b'/' suffix → Lacks b'/' (codes "csi-snapshot-" ++ suffix)
bucket-Lacks suffix h = grind (arith, h)

-- The repository in the secret that setSnapshotClasses makes is read, for the check of the bucket,
-- as the driver's endpoint over https and the bucket that was made, where the endpoint is a host
-- name and not a URL.
pub repository_secret-parse_repositry :
    (driver_name cluster_name uid endpoint suffix password : Str)
    → Lacks b'/' endpoint
    → Lacks b'/' suffix
    → (endpoint ≢ [])
    → (text : Str) × (find
          (codes "resticRepository")
          (repository_secret driver_name cluster_name uid endpoint
            (codes "csi-snapshot-" ++ suffix)
            password).string_data
        ≡ some text)
      × (parse_repositry text
          ≡ ok (record {
            endpoint = endpoint;
            bucket = codes "csi-snapshot-" ++ suffix;
            prefix = [];
            scheme = codes "https";
          }))
unfolding repository_secret find str_eq
repository_secret-parse_repositry driver_name cluster_name uid endpoint suffix password he hs ne = (
  codes "s3:" ++ (endpoint ++ b'/' ∷ (codes "csi-snapshot-" ++ suffix)),
  refl,
  parse_repositry-bucket endpoint (codes "csi-snapshot-" ++ suffix) he (bucket-Lacks suffix hs) ne
      (λ e. cc e),
)
