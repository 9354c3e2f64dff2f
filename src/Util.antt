-- ===== src/Util.antt =====
-- util.c: addresses, fingerprints and times.
pub mod Address
pub mod Fingerprint
pub mod Time
pub mod Tests
