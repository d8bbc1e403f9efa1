-- ===== src/Impersonation.antt =====
-- `impersonate.py`: which profile and which protocol a request asks the Core for.
pub mod Versions
pub mod Profiles
pub mod Fingerprints
mod Tests
