-- ===== src/Promoter.antt =====
-- custom_components/cluster_state_sync/scripts/cluster_promoter.py: one tick of the host-side
-- promoter, and the operator's commands.
pub mod World
pub mod Monad
pub mod Keys
pub mod State
pub mod Holds
pub mod Health
pub mod Tick
pub mod Frames
pub mod Promotion
pub mod Ends
pub mod Transition
pub mod Maintenance
pub mod Unheld
pub mod Demotion
pub mod Standby
pub mod Commands
pub mod Adoption
pub mod Console
mod CommandTests
mod Tests
