-- ===== src/Net.antt =====
-- IPv4 addresses and networks: what the driver uses of Go's `net`, and its own helpers on them.
pub mod Ip
pub mod Notation
pub mod Mask
