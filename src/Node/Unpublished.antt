-- ===== src/Node/Unpublished.antt =====
-- What an unpublish of pkg/driver/node.go does to the table of mounts, also after a publish.
use nifcloud_nas_csi_driver.Base.{◌≡◌, Bool, List}
use nifcloud_nas_csi_driver.Base.Outcome.{Outcome, Done, ok}
use nifcloud_nas_csi_driver.Node.{Mounter}
use nifcloud_nas_csi_driver.Node.Mounts.{Entry, IsLawful}

module _ (m : Mounter) (lawful : IsLawful m) (windows : Bool) where
  -- An unpublish takes the last mount at its path out, where that is one by NFS.
  abbrev TakesOut : List Entry → Outcome Done × m.State → Type 0
  TakesOut entries r = (t : m.State) → r ≡ (ok tt, t) → lawful.table t ≡ entries
