-- ===== src/ConfDiff.antt =====
-- confdiff.c: changing the running configuration into a new one.
pub mod Entries
pub mod Swap
pub mod Tests
