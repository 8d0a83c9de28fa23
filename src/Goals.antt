-- ===== src/Goals.antt =====
-- brain/goals: the goals that urges become, their store and the arbiter that promotes them.
pub mod Store
pub mod Arbiter
mod Tests
