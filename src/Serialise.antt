-- ===== src/Serialise.antt =====
-- lsa_serialise.c: the message that carries an advertisement to a neighbour.
pub mod Dst
pub mod Varint
pub mod Append
pub mod Encoder
pub mod Encoding
pub mod Message
pub mod Bound
