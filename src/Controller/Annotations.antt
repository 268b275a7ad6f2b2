-- ===== src/Controller/Annotations.antt =====
-- getAnnotationsFromPVC and waitForNASInstanceAvailable of pkg/driver/controller.go, with the
-- validators that they call.
use nifcloud_nas_csi_driver.Base.{
  Bool, true, not, ◌&&◌, Option, none, some, List, [], ◌∷◌, ◌++◌, leb, ◌==◌, if◌then◌else◌, length,
}
use nifcloud_nas_csi_driver.Base.Assoc.{find}
use nifcloud_nas_csi_driver.Base.Text.{Str, codes, str_eq, cut, contains as str_contains}
use nifcloud_nas_csi_driver.Base.Outcome.{Outcome, Done, ok, err, plain, ◌>>=◌}
use nifcloud_nas_csi_driver.Cloud.{NasInstance}
use nifcloud_nas_csi_driver.Net.Notation.{Cidr, parse_cidr}
use nifcloud_nas_csi_driver.Jobs.{Attempt, finished, permanent, again, retry_notify}

pub record Pvc : Type 0 where
  pub uid : Str
  pub annotations : List (Str × Str)

-- validatePermission and validateCIDRIP.
unfoldable pub octal : Str → Bool
octal [] = true
octal (c ∷ s) = (leb b'0' c && leb c b'7') && octal s

unfoldable pub validate_permission : Str → Outcome Done
unfolding octal
validate_permission s = if length s == 3 then (if octal s then ok tt else err plain) else err plain

abbrev parsed : Option Cidr → Outcome Done
parsed none = err plain
parsed (some c) = ok tt

unfoldable pub validate_cidr_ip : Str → Outcome Done
unfolding parse_cidr
validate_cidr_ip s = parsed (parse_cidr s)

-- The two annotations of a claim; the empty text where one is missing.
abbrev pub with_mask : Str → Str
with_mask v = if str_contains v (codes "/") then v else v ++ codes "/32"

abbrev cidr_of : Option Str → Outcome Str
cidr_of none = ok []
cidr_of (some v) = do _ ← validate_cidr_ip (with_mask v); ok (with_mask v)

abbrev permission_of : Option Str → Outcome Str
permission_of none = ok []
permission_of (some v) = do _ ← validate_permission v; ok v

unfoldable pub read_annotations : Str → Pvc → Outcome (Str × Str)
unfolding find validate_cidr_ip validate_permission
read_annotations driver_name pvc = do
  cidr ← cidr_of (find (driver_name ++ codes "/reservedIPv4Cidr") pvc.annotations)
  permission ← permission_of (find (driver_name ++ codes "/permission") pvc.annotations)
  ok (cidr, permission)

unfoldable pub find_pvc : Str → List Pvc → Option Pvc
find_pvc uid [] = none
find_pvc uid (pvc ∷ pvcs) =
    let rest = find_pvc uid pvcs in if str_eq pvc.uid uid then some pvc else rest

abbrev of_pvc : Str → Option Pvc → Outcome (Str × Str)
of_pvc driver_name none = err plain
of_pvc driver_name (some pvc) = read_annotations driver_name pvc

-- The name of a volume is a prefix and the claim's UID, with a dash between.
abbrev of_uid : Str → Outcome (List Pvc) → Option Str → Outcome (Str × Str)
of_uid driver_name pvcs none = err plain
of_uid driver_name (err e) (some uid) = err plain
of_uid driver_name (ok pvcs) (some uid) = of_pvc driver_name (find_pvc uid pvcs)

unfoldable pub get_annotations_from_pvc : Str → Outcome (List Pvc) → Str → Outcome (Str × Str)
unfolding cut find_pvc read_annotations
get_annotations_from_pvc driver_name pvcs name = of_uid driver_name pvcs (cut b'-' name).1

-- One attempt of the wait, and the wait over the answers of GetNasInstance to its attempts.
abbrev by_status : Str → Attempt
by_status s =
    if str_eq s (codes "available")
    then finished
    else if not (str_eq s (codes "creating")) && not (str_eq s (codes "modifying"))
    then permanent
    else again

abbrev pub chk_nas_instance_available : Outcome NasInstance → Attempt
chk_nas_instance_available (err e) = permanent
chk_nas_instance_available (ok n) = by_status n.instance_status

unfoldable pub attempts : List (Outcome NasInstance) → List Attempt
attempts [] = []
attempts (r ∷ rs) = chk_nas_instance_available r ∷ attempts rs

unfoldable pub wait_for_nas_instance_available : List (Outcome NasInstance) → Outcome Done
unfolding attempts retry_notify
wait_for_nas_instance_available rs = retry_notify (attempts rs)
