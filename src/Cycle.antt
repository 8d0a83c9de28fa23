-- ===== src/Cycle.antt =====
-- brain/cycle.py: the heartbeat. What a tick reads and writes, and the calls it makes.
pub mod Gate
pub mod Interval
pub mod Scene
pub mod Keeps
pub mod Stages
pub mod Tick
mod Tests
