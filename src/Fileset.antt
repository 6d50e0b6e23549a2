-- ===== src/Fileset.antt =====
-- The replicated configuration: what the leader publishes and what the follower stages.
pub mod Json
pub mod Sealing
pub mod Keyspace
pub mod Mock
pub mod Scan
pub mod Stored
pub mod Publisher
pub mod Paths
pub mod Parsed
pub mod Pull
pub mod Keys
pub mod Backed
pub mod Scanned
pub mod Published
pub mod Passes
pub mod History
pub mod Opening
pub mod Fetching
pub mod Contents
pub mod Building
pub mod Delivery
pub mod Replication
pub mod Codec
mod Tests
pub mod Atomic
