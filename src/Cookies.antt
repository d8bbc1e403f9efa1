-- ===== src/Cookies.antt =====
-- cookies.py: cookies, and the jar that has the interface of a dict.
pub mod Cookie
pub mod Store
pub mod Jar
pub mod Reading
pub mod Merging
mod Tests
