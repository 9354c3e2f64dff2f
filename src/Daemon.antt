-- ===== src/Daemon.antt =====
-- dvpn.c: the advertisement of this node itself, and the routes to its neighbours.
pub mod Own
pub mod Version
pub mod Peers
pub mod Tests
