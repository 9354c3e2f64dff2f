-- ===== src/Deserialise.antt =====
-- lsa_deserialise.c: reading a message of a neighbour.
pub mod Src
pub mod Varint
pub mod Decoder
pub mod ReadAttr
pub mod Step
pub mod Loop
pub mod RoundTrip
pub mod Leaves
pub mod Total
pub mod Errors
pub mod Prefix
mod Tests
