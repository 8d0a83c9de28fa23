-- ===== src/Deliberation.antt =====
-- brain/agents/deliberation.py: from the active goal to an action.
pub mod Plan
pub mod Agent
mod Tests
