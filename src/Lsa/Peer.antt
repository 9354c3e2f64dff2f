-- ===== src/Lsa/Peer.antt =====
-- lsa_peer.c: what an advertisement says of a neighbour of its node.
use dvpn.Base.{
  ℕ, ◌≡◌, refl, true, false, ◌&&◌, ◌==◌, if◌then◌else◌, [], length, Option, none, some, arith,
}
use dvpn.Bytes.{Bytes, big_endian}
use dvpn.Lsa.Types.{Attr, attr, attr_signed, bytes, attr_set, Lsa, node_id_len, attr_type_peer}
use dvpn.Lsa.Platform.{Platform}
use dvpn.Lsa.Build.{attr_data, lsa_find_attr, lsa_attr_set_find_attr}
use dvpn.Lsa.Insert.{attrs, IsKeyed, lookup_attr, find_attr-lookup_attr}

-- struct lsa_peer_info
pub record LsaPeerInfo : Type 0 where
  pub metric : ℕ
  pub flags : ℕ

-- LSA_PEER_ATTR_TYPE_METRIC and LSA_PEER_ATTR_TYPE_PEER_FLAGS
abbrev pub peer_attr_type_metric : ℕ
peer_attr_type_metric = 1

abbrev pub peer_attr_type_peer_flags : ℕ
peer_attr_type_peer_flags = 2

module _ (p : Platform) where
  -- The number in network order that a signed attribute of `len` bytes holds, or else `default`.
  unfoldable pub signed_number : ℕ → ℕ → Option Attr → ℕ
  signed_number len default none = default
  signed_number len default (some a) =
      if attr_signed a && (length (attr_data p a) == len)
      then big_endian 0 (attr_data p a)
      else default

  -- -1 is `none`.
  unfoldable pub peer_info : Option Attr → Option LsaPeerInfo
  peer_info none = none
  peer_info (some (attr type sign key (bytes d))) = none
  peer_info (some (attr type sign key (attr_set set))) =
      if sign
      then some (record {
        metric = signed_number 2 1 (lsa_attr_set_find_attr set peer_attr_type_metric []);
        flags = signed_number 1 0 (lsa_attr_set_find_attr set peer_attr_type_peer_flags []);
      })
      else none

  unfoldable pub lsa_get_peer_info : Lsa → Bytes → Option LsaPeerInfo
  unfolding peer_info
  lsa_get_peer_info lsa peerid = peer_info (lsa_find_attr lsa attr_type_peer peerid)

  -- What the attributes of a peer say, in whatever shape their tree is.
  abbrev pub InfoOf : Option Attr → Option LsaPeerInfo → Type 0
  InfoOf none info = info ≡ none
  InfoOf (some (attr type sign key (bytes d))) info = info ≡ none
  InfoOf (some (attr type false key (attr_set set))) info = info ≡ none
  InfoOf (some (attr type true key (attr_set set))) info =
      IsKeyed set
      → info
        ≡ some (record {
          metric = signed_number 2 1 (lookup_attr peer_attr_type_metric [] (attrs set));
          flags = signed_number 1 0 (lookup_attr peer_attr_type_peer_flags [] (attrs set));
        })

  peer_info-InfoOf : (a : Option Attr) → InfoOf a (peer_info a)
  unfolding peer_info
  peer_info-InfoOf none = refl
  peer_info-InfoOf (some (attr type sign key (bytes d))) = refl
  peer_info-InfoOf (some (attr type false key (attr_set set))) = refl
  peer_info-InfoOf (some (attr type true key (attr_set set))) = λ s.
      rw
        (
          find_attr-lookup_attr set peer_attr_type_metric [] s (omega arith),
          find_attr-lookup_attr set peer_attr_type_peer_flags [] s (omega arith),
        )
        refl

  -- lsa_get_peer_info answers for the peer attribute that stands under the id, and for none if there
  -- is none, if it is not signed, or if it is no set. The metric is that of a signed attribute of two
  -- bytes, or else 1, and the flags are those of a signed attribute of one byte, or else 0.
  pub get_peer_info-InfoOf :
      (lsa : Lsa) (peerid : Bytes)
      → IsKeyed lsa.root
      → length peerid ≡ node_id_len
      → InfoOf (lookup_attr attr_type_peer peerid (attrs lsa.root)) (lsa_get_peer_info lsa peerid)
  unfolding lsa_get_peer_info lsa_find_attr
  get_peer_info-InfoOf lsa peerid s i =
      rw (find_attr-lookup_attr lsa.root attr_type_peer peerid s (omega arith))
        (peer_info-InfoOf (lookup_attr attr_type_peer peerid (attrs lsa.root)))
