-- ===== src/Structures.antt =====
-- structures.py: the mappings whose keys ignore case.
pub mod CaseInsensitive
pub mod Headers
mod Tests
