-- ===== src/Dgp.antt =====
-- The protocol between neighbours: dgp_reader.c and dgp_writer.c.
pub mod Reader
pub mod Cut
pub mod Writer
pub mod Hop
pub mod Tests
