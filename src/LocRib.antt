-- ===== src/LocRib.antt =====
-- loc_rib.c: all advertisements that this node knows, and the best of each node.
pub mod State
pub mod Cost
pub mod Update
pub mod Best
pub mod Eligible
pub mod Table
pub mod Changes
pub mod Views
pub mod Choose
pub mod Settled
pub mod Paths
pub mod Total
pub mod Tests
pub mod ChangeTests
