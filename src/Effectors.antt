-- ===== src/Effectors.antt =====
-- The effectors (brain/effectors) and the Conscience that vets them (brain/agents/conscience.py).
pub mod Tools
pub mod Conscience
pub mod Dispatch
pub mod SafeHttp
pub mod Scheduler
mod Tests
