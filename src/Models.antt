-- ===== src/Models.antt =====
-- `models.py`: requests as they are prepared, and responses with their bodies.
pub mod Content
pub mod Lines
pub mod Raw
pub mod Reasons
pub mod Request
pub mod Head
mod Tests
