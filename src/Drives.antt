-- ===== src/Drives.antt =====
-- The drives (brain/drives): the readings and urges that the other parts take from them, and the engine.
pub mod Parameters
pub mod Engine
