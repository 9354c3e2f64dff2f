-- ===== src/Lsa/Answer.antt =====
-- The answers of lsa_peer.c, told from the shape of the attributes of a peer.
use dvpn.Base.{ℕ, ◌+◌, ◌*◌, ◌<◌, ◌≡◌, refl, true, false, [], ◌∷◌, length, Option, none, some, arith}
use dvpn.Bytes.{Bytes, big_endian}
use dvpn.Avl.Order.{Each, Each-first_eq}
use dvpn.Lsa.Types.{Attr, attr, bytes, attr_set, Lsa, node_id_len, attr_type_peer}
use dvpn.Lsa.Compare.{lsa_attr_compare_keys}
use dvpn.Lsa.Platform.{Platform}
use dvpn.Lsa.Build.{attr_data, search_key}
use dvpn.Lsa.Insert.{attrs, IsKeyed, lookup_attr}
use dvpn.Lsa.Peer.{
  LsaPeerInfo, signed_number, InfoOf, lsa_get_peer_info, get_peer_info-InfoOf,
  peer_attr_type_metric, peer_attr_type_peer_flags,
}

-- The metric is that of a signed attribute of two bytes, the higher one first, or else 1.
abbrev pub MetricIs : Option Attr → ℕ → Type 0
MetricIs (some (attr type true key (bytes (high ∷ low ∷ [])))) m = m ≡ high * 256 + low
MetricIs none m = m ≡ 1
MetricIs (some (attr type false key d)) m = m ≡ 1
MetricIs (some (attr type true key (attr_set set))) m = m ≡ 1
MetricIs (some (attr type true key (bytes []))) m = m ≡ 1
MetricIs (some (attr type true key (bytes (a ∷ [])))) m = m ≡ 1
MetricIs (some (attr type true key (bytes (a ∷ b ∷ c ∷ more)))) m = m ≡ 1

-- The flags are the byte that a signed attribute holds alone, or else 0.
abbrev pub FlagsAre : Option Attr → ℕ → Type 0
FlagsAre (some (attr type true key (bytes (flags ∷ [])))) n = n ≡ flags
FlagsAre none n = n ≡ 0
FlagsAre (some (attr type false key d)) n = n ≡ 0
FlagsAre (some (attr type true key (attr_set set))) n = n ≡ 0
FlagsAre (some (attr type true key (bytes []))) n = n ≡ 0
FlagsAre (some (attr type true key (bytes (a ∷ b ∷ more)))) n = n ≡ 0

-- The answer for the attribute that stands under the id of the peer.
abbrev pub Answers : Option Attr → Option LsaPeerInfo → Type 0
Answers (some (attr type true key (attr_set set))) answer =
    (info : LsaPeerInfo) × (answer ≡ some info)
    × MetricIs (lookup_attr peer_attr_type_metric [] (attrs set)) info.metric
    × FlagsAre (lookup_attr peer_attr_type_peer_flags [] (attrs set)) info.flags
Answers (some (attr type false key (attr_set set))) answer = answer ≡ none
Answers (some (attr type sign key (bytes d))) answer = answer ≡ none
Answers none answer = answer ≡ none

-- A set that the attribute holds is in order.
abbrev pub HoldsKeyed : Attr → Type 0
HoldsKeyed (attr type sign key (bytes d)) = Unit
HoldsKeyed (attr type sign key (attr_set set)) = IsKeyed set

abbrev FoundKeyed : Option Attr → Type 0
FoundKeyed none = Unit
FoundKeyed (some a) = HoldsKeyed a

module _ (p : Platform) (big : 2 < p.set_bytes) where
  number-MetricIs : (a : Option Attr) → MetricIs a (signed_number p 2 1 a)
  unfolding signed_number attr_data big_endian
  number-MetricIs none = refl
  number-MetricIs (some (attr type false key d)) = refl
  number-MetricIs (some (attr type true key (attr_set set))) =
      ground (arith, p.length-set_image set)
  number-MetricIs (some (attr type true key (bytes []))) = refl
  number-MetricIs (some (attr type true key (bytes (a ∷ [])))) = refl
  number-MetricIs (some (attr type true key (bytes (a ∷ b ∷ [])))) = omega arith
  number-MetricIs (some (attr type true key (bytes (a ∷ b ∷ c ∷ more)))) = ground arith

  number-FlagsAre : (a : Option Attr) → FlagsAre a (signed_number p 1 0 a)
  unfolding signed_number attr_data big_endian
  number-FlagsAre none = refl
  number-FlagsAre (some (attr type false key d)) = refl
  number-FlagsAre (some (attr type true key (attr_set set))) =
      ground (arith, p.length-set_image set)
  number-FlagsAre (some (attr type true key (bytes []))) = refl
  number-FlagsAre (some (attr type true key (bytes (a ∷ [])))) = omega arith
  number-FlagsAre (some (attr type true key (bytes (a ∷ b ∷ more)))) = ground arith

  InfoOf-Answers :
      (a : Option Attr) (answer : Option LsaPeerInfo)
      → FoundKeyed a
      → InfoOf p a answer
      → Answers a answer
  InfoOf-Answers none answer s h = h
  InfoOf-Answers (some (attr type sign key (bytes d))) answer s h = h
  InfoOf-Answers (some (attr type false key (attr_set set))) answer s h = h
  InfoOf-Answers (some (attr type true key (attr_set set))) answer s h = (
    record {
      metric = signed_number p 2 1 (lookup_attr peer_attr_type_metric [] (attrs set));
      flags = signed_number p 1 0 (lookup_attr peer_attr_type_peer_flags [] (attrs set));
    },
    h s,
    number-MetricIs (lookup_attr peer_attr_type_metric [] (attrs set)),
    number-FlagsAre (lookup_attr peer_attr_type_peer_flags [] (attrs set)),
  )

  found_keyed :
      (lsa : Lsa) (id : Bytes) (a : Option Attr)
      → Each HoldsKeyed (attrs lsa.root)
      → lookup_attr attr_type_peer id (attrs lsa.root) ≡ a
      → FoundKeyed a
  found_keyed lsa id none k e = tt
  found_keyed lsa id (some a) k e =
      Each-first_eq HoldsKeyed (lsa_attr_compare_keys (search_key attr_type_peer id))
        (attrs lsa.root) a k e

  -- In an advertisement that is in order, as are the sets that its attributes hold, lsa_get_peer_info
  -- answers for the peer attribute that stands under an id of 32 bytes. It finds nothing if there is
  -- none, if it is not signed, or if it is no set. The metric is the number, in network order, that a
  -- signed attribute of two bytes in the set holds, and 1 if there is none such; the flags are the byte
  -- that a signed attribute of one byte holds, and 0 if there is none such. A struct lsa_attr_set must
  -- have more than two bytes.
  pub get_peer_info-Answers :
      (lsa : Lsa) (peerid : Bytes)
      → IsKeyed lsa.root
      → Each HoldsKeyed (attrs lsa.root)
      → length peerid ≡ node_id_len
      → Answers
          (lookup_attr attr_type_peer peerid (attrs lsa.root))
          (lsa_get_peer_info p lsa peerid)
  get_peer_info-Answers lsa peerid s k i =
      let found = lookup_attr attr_type_peer peerid (attrs lsa.root) in
      InfoOf-Answers found (lsa_get_peer_info p lsa peerid) (found_keyed lsa peerid found k refl)
        (get_peer_info-InfoOf p lsa peerid s i)
