-- ===== src/Engine.antt =====
-- engine.py: engine configurations, and the bounded cache of engines that a session keeps.
pub mod Config
pub mod Cache
mod Tests
