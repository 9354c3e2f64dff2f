-- ===== src/Diff.antt =====
-- Differences: avl_diff of util.c, and lsa_diff.c, which compares advertisements by it.
pub mod Trees
pub mod Merge
pub mod Attrs
pub mod Content
pub mod Zero
mod Tests
