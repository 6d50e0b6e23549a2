-- ===== src/Leadership.antt =====
-- How the integration asks whether this node leads: backend.py's lease and hold, leadership.py.
pub mod Backend
pub mod Monitor
pub mod Answers
pub mod Shared
mod Tests
