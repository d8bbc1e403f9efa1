-- ===== src/Utils.antt =====
-- `utils.py`: percent-escapes, proxies that are bypassed, header values, and the encodings of bodies.
pub mod Quoting
pub mod Bypass
pub mod Values
pub mod Encodings
mod Tests
