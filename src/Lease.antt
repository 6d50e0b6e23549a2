-- ===== src/Lease.antt =====
-- The cluster lease: custom_components/cluster_state_sync/lease.py, the Lua scripts that every
-- node runs on the server, as functions over the server's commands.
pub mod Scripts
pub mod Cluster
pub mod Exclusion
mod Tests
pub use Scripts.{truthy, lease_ttl_ms}
unfoldable pub use Scripts.{lease_script, force_script, release_script, renew_only_script}
