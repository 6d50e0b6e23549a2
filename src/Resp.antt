-- ===== src/Resp.antt =====
-- custom_components/cluster_state_sync/scripts/resp.py: `RespReader`, the reader of replies that the
-- promoter's client is built on.
pub mod Reader
pub mod Chunks
pub mod Fuel
pub mod Encoding
mod Tests
