-- ===== src/Errors.antt =====
-- `exceptions.py`: the hierarchy, and how a failure of the Core is named and classified.
pub mod Classes
pub mod Table
pub mod Mapping
pub mod Laws
mod Tests
