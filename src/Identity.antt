-- ===== src/Identity.antt =====
-- The identity server of pkg/driver/identity.go, the capabilities of the controller and the calls
-- that pkg/driver/controller.go and pkg/driver/node.go do not support.
use nifcloud_nas_csi_driver.Base.{List, [], ◌∷◌}
use nifcloud_nas_csi_driver.Base.Text.{Str}
use nifcloud_nas_csi_driver.Base.Outcome.{Outcome, Done, ok, err, status, unimplemented}
use nifcloud_nas_csi_driver.Driver.{Driver, DriverConfig, ControllerRpc}

pub record PluginInfo : Type 0 where
  pub name : Str
  pub vendor_version : Str

unfoldable pub get_plugin_info : DriverConfig → PluginInfo
get_plugin_info config = record { name = config.name; vendor_version = config.version }

pub data PluginService : Type 0 where
  controller_service : PluginService

unfoldable pub get_plugin_capabilities : List PluginService
get_plugin_capabilities = controller_service ∷ []

unfoldable pub probe : Outcome Done
probe = ok tt

unfoldable pub controller_get_capabilities : Driver → List ControllerRpc
controller_get_capabilities driver = driver.cscap

-- The calls of the CSI services that answer codes.Unimplemented.
pub data UnsupportedController : Type 0 where
  controller_publish_volume controller_unpublish_volume list_volumes : UnsupportedController
  get_capacity controller_expand_volume controller_get_volume : UnsupportedController

unfoldable pub unsupported_controller : UnsupportedController → Outcome Done
unsupported_controller call = err (status unimplemented)

pub data UnsupportedNode : Type 0 where
  node_stage_volume node_unstage_volume node_expand_volume : UnsupportedNode

unfoldable pub unsupported_node : UnsupportedNode → Outcome Done
unsupported_node call = err (status unimplemented)
