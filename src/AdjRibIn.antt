-- ===== src/AdjRibIn.antt =====
-- adj_rib_in.c: the advertisements that a neighbour has sent.
pub mod Accept
pub mod Settled
pub mod Valid
pub mod Rib
pub mod Account
pub mod Notify
pub mod Keep
pub mod Add
pub mod Truncate
mod Tests
