-- ===== src/LocRib/Cost.antt =====
-- lsa_path_cost and lsa_has_shorter_adv_path of loc_rib.c.
use dvpn.Base.{
  ℕ, zero, suc, ◌+◌, ◌/◌, ◌%◌, ◌^◌, ◌==◌, Bool, true, false, not, ◌&&◌, ltb, if◌then◌else◌, Option,
  none, some, [], ◌∷◌, length, take, drop, Result, ok, aborted, stuck,
}
use dvpn.Bytes.{Bytes}
use dvpn.Lsa.Types.{Attr, Lsa, node_id_len, attr_type_adv_path}
use dvpn.Lsa.Platform.{Platform}
use dvpn.Lsa.Build.{attr_data, lsa_find_attr}
use dvpn.Lsa.Peer.{LsaPeerInfo, lsa_get_peer_info}
use dvpn.AdjRibIn.Rib.{rib_cost_unreachable}
use dvpn.LocRib.State.{LocRib, RibId, rib_cost_ineligible, lsa_get_version, find_recent_lsa}

-- flags & LSA_PEER_FLAGS_CUSTOMER and flags & LSA_PEER_FLAGS_TRANSIT
abbrev pub is_customer : ℕ → Bool
is_customer flags = flags % 2 == 1

abbrev pub is_transit : ℕ → Bool
is_transit flags = flags / 2 % 2 == 1

-- What a hop does to traversing_transits; `none` is a hop that the path may not take.
unfoldable pub traverse : Bool → LsaPeerInfo → LsaPeerInfo → Option Bool
traverse true forward reverse = some (is_transit forward.flags && is_customer reverse.flags)
traverse false forward reverse =
    if is_customer forward.flags && is_transit reverse.flags then some false else none

-- The rest of the path after a hop that costs `metric`; `none` is RIB_COST_UNREACHABLE.
abbrev pub with_hop :
    Option LsaPeerInfo → Option LsaPeerInfo → Bool → (Bool → ℕ → Result ℕ) → Result ℕ
with_hop none reverse transits rest = ok rib_cost_unreachable
with_hop (some forward) none transits rest = ok rib_cost_unreachable
with_hop (some forward) (some reverse) transits rest = elim (traverse transits forward reverse) [
  | none ↦ ok rib_cost_unreachable
  | some transits' ↦ rest transits' forward.metric
]

module _ (p : Platform) where
  -- The body of the loop: `from` is none at the first hop of a path when this node has no id.
  abbrev pub with_next : Option Lsa → Option Lsa → Bool → (Lsa → Bool → ℕ → Result ℕ) → Result ℕ
  with_next none from transits rest = ok rib_cost_unreachable
  with_next (some to) none transits rest = rest to transits 0
  with_next (some to) (some from) transits rest =
      with_hop (lsa_get_peer_info p from to.id) (lsa_get_peer_info p to from.id) transits (rest to)

  -- The loop over the path, whose length is a multiple of node_id_len; the fuel is for its hops.
  unfoldable pub hops_cost : LocRib → ℕ → Bytes → Option Lsa → Bool → ℕ → Result ℕ
  unfolding traverse
  hops_cost rib fuel [] from transits cost = ok cost
  hops_cost rib zero (b ∷ path) from transits cost = stuck
  hops_cost rib (suc fuel) (b ∷ path) from transits cost =
      with_next (find_recent_lsa p rib (take node_id_len (b ∷ path))) from transits
        (λ to transits' metric.
          hops_cost rib fuel (drop node_id_len (b ∷ path)) (some to) transits'
            ((cost + metric) % 2 ^ 32))

  -- Where the path starts: at this node, if it has an id.
  abbrev pub from_me : LocRib → Bytes → Option Bytes → Result ℕ
  from_me rib path none = hops_cost rib (length path) path none true 0
  from_me rib path (some me) = elim (find_recent_lsa p rib me) [
    | none ↦ ok rib_cost_unreachable
    | some from ↦ hops_cost rib (length path) path (some from) true 0
  ]

  abbrev pub along : LocRib → Option Attr → Result ℕ
  along rib none = aborted
  along rib (some path) =
      if not (length (attr_data p path) % node_id_len == 0)
      then aborted
      else from_me rib (attr_data p path) rib.myid

  unfoldable pub lsa_path_cost : LocRib → RibId → Lsa → Result ℕ
  unfolding hops_cost
  lsa_path_cost rib rid lsa =
      if ltb (lsa_get_version p lsa) rid.highest_version_seen
      then ok rib_cost_ineligible
      else along rib (lsa_find_attr lsa attr_type_adv_path [])

  abbrev pub shorter : Option Attr → Option Attr → Result Bool
  shorter none b = aborted
  shorter (some a) none = aborted
  shorter (some a) (some b) = ok (ltb (length (attr_data p a)) (length (attr_data p b)))

  abbrev pub has_path : Option Attr → Result Bool
  has_path none = aborted
  has_path (some a) = ok false

  unfoldable pub lsa_has_shorter_adv_path : Lsa → Option Lsa → Result Bool
  lsa_has_shorter_adv_path a none = has_path (lsa_find_attr a attr_type_adv_path [])
  lsa_has_shorter_adv_path a (some b) =
      shorter (lsa_find_attr a attr_type_adv_path []) (lsa_find_attr b attr_type_adv_path [])
