-- ===== src/Affect.antt =====
-- brain/affect: the appraisal of a tick and the mood that it moves.
pub mod Appraisal
pub mod Rules
pub mod Agent
mod Tests
