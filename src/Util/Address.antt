-- ===== src/Util/Address.antt =====
-- The addresses that util.c makes of a key id.
use dvpn.Base.{◌≤◌, ◌≡◌, ◌∷◌, length, length-take, length-drop, take, drop, arith}
use dvpn.Bytes.{Bytes}

unfoldable pub v6_global_addr_from_key_id : Bytes → Bytes
v6_global_addr_from_key_id id = 0x20 ∷ 0x01 ∷ 0x00 ∷ 0x2f ∷ take 12 (drop 10 id)

unfoldable pub v6_linklocal_addr_from_key_id : Bytes → Bytes
v6_linklocal_addr_from_key_id id = 0xfe ∷ 0x80 ∷ take 14 (drop 9 id)

pub length-v6_global : (id : Bytes) → 22 ≤ length id → length (v6_global_addr_from_key_id id) ≡ 16
unfolding v6_global_addr_from_key_id
length-v6_global id h = omega (arith, length-take 12 (drop 10 id), length-drop 10 id)
