-- ===== src/Lsa.antt =====
-- lsa.h and lsa_type.h: link state advertisements. The functions of lsa.c are in the modules below.
pub mod Types
pub mod Compare
pub mod Platform
pub mod Size
pub mod Build
pub mod Totals
pub mod Free
pub mod Insert
pub mod Child
pub mod View
pub mod Change
pub mod AdvPath
pub mod Peer
pub mod Answer
pub mod Clone
pub mod Last
pub mod Alike
pub mod Copy
mod Tests
