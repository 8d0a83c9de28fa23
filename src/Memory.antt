-- ===== src/Memory.antt =====
-- brain/memory: the stores of what the being holds in mind.
pub mod Working
pub mod Rows
pub mod Base
pub mod Stores
pub mod Tables
pub mod Consolidator
pub mod Format
pub mod Snapshot
pub mod Decay
mod Tests
