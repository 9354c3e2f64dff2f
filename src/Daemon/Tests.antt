-- ===== src/Daemon/Tests.antt =====
-- An advertisement of this node with a version, and what the theorems say of it.
use dvpn.Base.{
  ℕ, ◌*◌, ◌<◌, ◌≤◌, ◌≡◌, refl, true, false, [], ◌∷◌, ◌++◌, none, some, ok, aborted, ◌%◌, ◌^◌, arith,
  replicate,
}
use dvpn.Bytes.{Bytes, big_endian, memcmp, is_eq}
use dvpn.Avl.Order.{first_eq}
use dvpn.Avl.Walk.{in_order}
use dvpn.Lsa.Types.{
  Attr, attr, attr_set, bytes, empty, branch, Lsa, nodes, attr_type_peer, attr_type_version,
}
use dvpn.Lsa.Compare.{lsa_attr_compare_keys}
use dvpn.Lsa.Totals.{tree_total, own_total}
use dvpn.Lsa.Build.{search_key}
use dvpn.Lsa.Platform.{lp64}
use dvpn.Lsa.Insert.{attrs, IsKeyed, lookup_attr}
use dvpn.Lsa.Change.{IsWell}
use dvpn.LocRib.State.{lsa_get_version}
use dvpn.ConfDiff.Entries.{epeer, customer}
use dvpn.Lsa.Peer.{LsaPeerInfo, lsa_get_peer_info}
use dvpn.Daemon.Own.{conf_peer_type_to_lsa_peer_flags, with_peer, lsa_update_version}
use dvpn.Daemon.Peers.{with_peer-get_peer_info, with_peer_taken}
use dvpn.Daemon.Version.{update_version-IsWell}

abbrev two : Bytes
two = replicate 7 0 ++ 2 ∷ []

abbrev version : Attr
version = attr attr_type_version true [] (bytes two)

abbrev mine : Lsa
mine = record { refcount = 1; size = 80; id = replicate 32 9; root = branch empty version empty }

total : tree_total mine.root ≡ 38
unfolding tree_total own_total
total = refl

mine-IsWell : IsWell mine
unfolding nodes in_order
mine-IsWell = (refl, (tt, tt), omega (arith, total))

version_found : lookup_attr attr_type_version [] (attrs mine.root) ≡ some version
unfolding nodes in_order first_eq lsa_attr_compare_keys memcmp
version_found = refl

version_read : lsa_get_version lp64 mine ≡ 2
unfolding lsa_get_version dvpn.Lsa.Build.lsa_find_attr dvpn.Lsa.Peer.signed_number
    lsa_attr_compare_keys memcmp big_endian dvpn.Lsa.Build.attr_data
version_read = refl

update_version-IsWell_example :
    (lsa' : Lsa) × (lsa_update_version lp64 1 mine ≡ ok lsa')
    × IsWell lsa'
    × (lsa_get_version lp64 mine < lsa_get_version lp64 lsa')
    × (1 * 256 ≤ lsa_get_version lp64 lsa')
    × ((t : ℕ) (k : Bytes)
        → is_eq (lsa_attr_compare_keys (search_key t k) (search_key attr_type_version [])) ≡ false
        → lookup_attr t k (attrs lsa'.root) ≡ lookup_attr t k (attrs mine.root))
update_version-IsWell_example =
    update_version-IsWell lp64 1 mine two mine-IsWell (omega arith) version_found refl
      (omega (arith, version_read)) (omega arith)

abbrev far : Bytes
far = replicate 32 5

far_new : lookup_attr attr_type_peer far (attrs mine.root) ≡ none
unfolding nodes in_order first_eq lsa_attr_compare_keys
far_new = refl

one_flag : conf_peer_type_to_lsa_peer_flags customer ≡ ok 1
unfolding conf_peer_type_to_lsa_peer_flags
one_flag = refl

with_peer-get_peer_info_example :
    (lsa' : Lsa) × (with_peer lp64 mine far customer 70000 ≡ ok lsa')
    × IsWell lsa'
    × (lsa_get_peer_info lp64 lsa' far ≡ some (record { metric = 70000 % 2 ^ 16; flags = 1 }))
    × ((t : ℕ) (k : Bytes)
        → is_eq (lsa_attr_compare_keys (search_key t k) (search_key attr_type_peer far)) ≡ false
        → lookup_attr t k (attrs lsa'.root) ≡ lookup_attr t k (attrs mine.root))
with_peer-get_peer_info_example =
    with_peer-get_peer_info lp64 mine far customer 70000 1 mine-IsWell (omega arith) refl far_new
      one_flag

abbrev peer_attr : Attr
peer_attr = attr attr_type_peer true far (attr_set empty)

abbrev connected : Lsa
connected = record {
  refcount = 1;
  size = 114;
  id = replicate 32 9;
  root = branch empty peer_attr empty;
}

connected-IsKeyed : IsKeyed connected.root
unfolding nodes in_order
connected-IsKeyed = (tt, tt)

far_found : lookup_attr attr_type_peer far (attrs connected.root) ≡ some peer_attr
unfolding nodes in_order first_eq lsa_attr_compare_keys memcmp
far_found = refl

with_peer_taken_example : with_peer lp64 connected far epeer 1 ≡ aborted
with_peer_taken_example =
    with_peer_taken lp64 connected far epeer 1 peer_attr refl connected-IsKeyed refl far_found
