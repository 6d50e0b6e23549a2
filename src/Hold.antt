-- ===== src/Hold.antt =====
-- custom_components/cluster_state_sync/hold.py: the maintenance hold.
pub mod Format
pub mod Files
pub mod Lines
pub mod RoundTrip
pub mod Agreement
pub mod Auto
mod Tests
