-- ===== src/Lib.antt =====
-- Verification of dvpn, a multipoint VPN: the data that its routing protocol is about, and the
-- messages that carry it.
--
-- Nodes describe themselves by link state advertisements (lsa.h, lsa.c): a node id and a tree of
-- attributes, which may hold trees of attributes themselves. An advertisement is written to a
-- neighbour by lsa_serialise.c and read by lsa_deserialise.c, and counts an upper bound of the
-- length of its message, which later parts of the program rely on. What a neighbour sent is kept in
-- an adj_rib_in (adj_rib_in.c), which tells listeners of what it accepts; lsa_diff.c finds what has
-- changed.
-- A loc_rib (loc_rib.c) has the advertisements of all neighbours, and chooses the best of each node.
--
-- Files:
--   Base        names of the library; Result, the outcome of a C function: a value, the error it
--               returns, a call of abort, a read through a null pointer, or fuel that ran out
--   Bytes       byte strings, memcmp, and the bounds of C integers
--   Avl         lists and trees in order, and iv_avl of the ivykis library as a record of operations
--               and laws (Avl/Interface), with an implementation by which examples run (Avl/Spine)
--   Lsa         lsa.h, lsa_type.h (Types); lsa.c: lsa_attr_compare_keys (Compare), lsa_attr_size and
--               attr_tree_free (Size), everything that makes, searches and changes (Build), lsa_clone
--               (Clone); lsa_path.c (AdvPath); lsa_peer.c (Peer; Answer); sizes of C structs and the tree
--               library are in the record Platform
--   Serialise   lsa_serialise.c: dst_append and dst_append_int (Dst), the rest (Encoder); the bytes
--               that are to be written, without a buffer (Encoding, Message)
--   Diff        avl_diff of util.c (Trees), lsa_diff.c (Attrs)
--   AdjRibIn    adj_rib_in.c: map, which accepts or refuses what a neighbour sent (Accept), and the
--               operations on the table of what it sent (Rib)
--   LocRib      loc_rib.c: state and searches (State), the cost of a path (Cost), choosing the best and
--               the operations (Update); proofs: Best, Choose, Views, Settled, Table, Changes, Paths, Total
--   Deserialise lsa_deserialise.c: the SRC_ macros (Src), the rest (Decoder)
--   RtBuilder   rt_builder.c, and rib_listener_to_loc.c, which passes the events of an adj_rib_in on to
--               the loc_rib; Util: util.c, addresses made of a key id
--               (Address), node ids in base 32 (Fingerprint), times (Time)
--   ConfDiff    confdiff.c (Entries)
--   Spf         spf.c, and cspf.c (Cspf), which nothing else of the program calls; proofs: Heap, Total,
--               Ways, Moves, Walks; the values of a C int (Int)
--   Daemon      dvpn.c: the advertisement of this node (Own)
--   Dgp         dgp_reader.c (Reader) and dgp_writer.c (Writer), without their timers
--
-- C pointers: an advertisement is a value, and a function that changes it returns the new one. A
-- pointer into it, as lsa_attr_set_add_attr_set returns, is the set beside it, which put_child writes
-- back where the pointer leads. A null pointer for a key or data is the empty string.
--
-- Numbers: size_t and uint64_t have 64 bits and int has 32; sums that C lets wrap are taken modulo
-- 2 ^ 64, and a sum of costs in spf_run that is no int is a fault. Attribute types are not negative:
-- all that the program and the deserialiser make are not.
--
-- Fuel: the loop of lsa_deserialise_attr_set takes as much fuel as there are bytes left; a round
-- takes a byte at least, so that it never runs out; avl_diff takes the number of items,
-- adj_rib_in_truncate the number of nodes, lsa_path_cost the bytes of the path, and spf_run the
-- number of nodes. Nesting is limited to 8 by the code.
--
-- Memory: malloc may fail in lsa_alloc and in adj_rib_in_add_lsa; where failing is an abort, as in
-- attr_alloc, it does not fail. The text printed before an abort is left out.
--
-- Cryptography: SHA-256 of nettle, and reading keys and verifying signatures in GnuTLS, are the
-- record Crypto, of which nothing is assumed.
--
-- References: in adj_rib_in.c and loc_rib.c advertisements are shared. They are not
-- changed while they are, so that the model has a pointer as an address beside the contents, and the
-- counts in a table of the state; what listeners are told is a list of calls, and what they do then
-- is not modelled.
--
-- Not modelled: reading configuration files, sessions and secure connections, and
-- what is calls of the kernel or of the event loop.
pub mod Base
pub mod Bytes
pub mod Avl
pub mod Lsa
pub mod Serialise
pub mod Deserialise
pub mod Diff
pub mod AdjRibIn
pub mod LocRib
pub mod Util
pub mod RtBuilder
pub mod Dgp
pub mod ConfDiff
pub mod Daemon
pub mod Int
pub mod Spf
