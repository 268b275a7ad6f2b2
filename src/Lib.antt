-- ===== src/Lib.antt =====
-- The NIFCLOUD NAS CSI driver: a Container Storage Interface driver that makes NFS volumes on NAS
-- instances of the cloud, with a controller, a node server, a syncer of the cluster's NAS security
-- group and a configurator.
--
-- The parts, and the files that model them:
--   Base        Go's strings, maps, sets, int64 and `(value, error)` results. A string is its list of
--               bytes, a map an association list, a set its list of keys. Of an error the code that
--               the driver tests is kept, not the text.
--   Net         IPv4 addresses, their texts, networks by address and number of ones, with startIP,
--               endIP and incIP of pkg/driver/configurator.go and incrementIP of pkg/driver/utils.go.
--   Allocator   IPAllocator of pkg/driver/utils.go.
--   Names       InstanceNameHolder of pkg/driver/utils.go.
--   Queue       OperateResourceQueue of pkg/driver/utils.go: Steps has each of its accesses to the
--               map and the mutex as a step, so that requests interleave; Queue has its operations,
--               and their runs that no other request interrupts.
--   Capacity    pkg/util/util.go, getAllocatedStorage and getRequestCapacity of
--               pkg/driver/controller.go, on int64 with its wrap-around.
--   Divs        CidrDivs and the recommended CIDR block of pkg/driver/configurator.go.
--   Syncer      pkg/driver/securitygroup_syncer.go: Syncer has the state and the loops,
--               Syncer.Sync one run, stage by stage.
--   Driver      NewNifcloudNasDriver and the request tests of pkg/driver/driver.go.
--   Jobs        the NFS jobs of pkg/driver/shared_utils.go.
--   Cloud       the ids and filters of pkg/cloud/cloud.go.
--   Controller  pkg/driver/controller.go and the shared volumes of pkg/driver/shared_utils.go:
--               Controller has the data, Annotations the claim's annotations and the wait, Shared the
--               choice of an instance, Room and Placing what it has room for,
--               Prepare, Finish and Create the run of CreateVolume, Delete that
--               of DeleteVolume and of ValidateVolumeCapabilities.
--   Node        pkg/driver/node.go over a mounter; Mounts has the table of mounts and the laws,
--               Published and Unpublished what the calls do to it, Register the registration of the node's private address.
--   Restic      pkg/driver/restic.go: Restic has the jobs, Run the run of one in the cluster,
--               Repository the text of the repository, Calls and Cleanup what a run makes and deletes.
--   Snapshots   pkg/driver/snapshot.go: Snapshots has CreateSnapshot and DeleteSnapshot, Listing
--               ListSnapshots, Restore the secrets and restoreSnapshot, Create what a snapshot has done.
--   Configurator  pkg/driver/configurator.go: Configurator has the nodes, Search the search for their
--               network, Classes the storage classes, SnapshotClasses the snapshot classes, Run Init,
--               Update and configure; Private, Matched, Nodes, Recreated, Settled, Installed,
--               Secrets and Updated have the proofs.
--   Identity    pkg/driver/identity.go, and the calls that the servers do not support.
--   Examples    concrete inputs.
--
-- CreateVolume asks Controller.Shared for an instance, which enters the volume in a Queue; it holds
-- the instance's name in Names and an address in the Allocator, both until it returns, and the volume
-- stays in the queue until the informer sees it. DeleteVolume has a queue of its own. The syncer and
-- the configurator run beside them and share nothing with them but the cloud.
--
-- Outside code is an argument. A run takes a record of what Kubernetes, the cloud and the clock answer,
-- by the moment of the question where it is asked again, and returns the calls it makes that change
-- something, in order. The backoff library is the list of attempts that it allows. The order in which
-- Go visits a map is a function on the list of keys, or the list itself. A panic, a fatal error and a
-- lock that is never free are `none`.
--
-- Fuel: the search for an address has one round more than the block has addresses, and the proofs of
-- Allocator.Search show that this is enough. The loop on the offset has ten rounds for an offset that
-- falls from 4 to -5 at most. All other loops are structural, or have the bound of the source.
--
-- The mounter, the API of the CSI nodes and that of the storage classes have a state: they are records
-- of operations, and a theorem that needs their laws takes them as a hypothesis `IsLawful`, which
-- Examples fills with lists.
--
-- Not modelled: IPv6 addresses, the texts of errors and logs but for those of restic jobs, the bucket and
-- the file that createBucket makes, the gRPC server, the informers and the endless loops around the syncer and the configurator. CreateVolume takes
-- restoreSnapshot as an argument, since its jobs make calls of another kind; Snapshots.Restore models
-- it. net.ParseIP accepts leading zeros, as before Go 1.17.
pub mod Base
pub mod Net
pub mod Allocator
pub mod Capacity
pub mod Names
pub mod Queue
pub mod Divs
pub mod Syncer
pub mod Driver
pub mod Jobs
pub mod Cloud
pub mod Controller
pub mod Node
pub mod Identity
pub mod Restic
pub mod Snapshots
pub mod Configurator
pub mod Examples
