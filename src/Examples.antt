-- ===== src/Examples.antt =====
-- The theorems at concrete inputs, by component.
pub mod Addresses
pub mod Blocks
pub mod Sizes
pub mod Requests
pub mod Volumes
pub mod Sync
pub mod Nodes
pub mod Snapshots
pub mod Stores
pub mod Cluster
