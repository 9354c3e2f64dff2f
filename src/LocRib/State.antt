-- ===== src/LocRib/State.antt =====
-- The state of loc_rib.c, and its searches.
use dvpn.Base.{ℕ, Bool, Option, none, some, List, [], if◌then◌else◌, ltb, compare, Ordering}
use dvpn.Bytes.{Bytes, memcmp, then_by}
use dvpn.Avl.Walk.{Tree, leaf, node, walk}
use dvpn.Lsa.Types.{Lsa, node_id_len, attr_type_version}
use dvpn.Lsa.Platform.{Platform}
use dvpn.Lsa.Build.{lsa_find_attr}
use dvpn.Lsa.Peer.{signed_number}
use dvpn.AdjRibIn.Rib.{Obj, RibEvent}

-- RIB_COST_INELIGIBLE
abbrev pub rib_cost_ineligible : ℕ
rib_cost_ineligible = 0xffff_ffff

-- struct loc_rib_lsa_ref
pub record LsaRef : Type 0 where
  pub obj : Obj
  pub cost : ℕ

-- struct loc_rib_id
pub record RibId : Type 0 where
  pub id : Bytes
  pub highest_version_seen : ℕ
  pub lsas : Tree LsaRef
  pub best : Option Obj
  pub bestcost : ℕ

-- struct loc_rib: `recompute` says whether the task is registered; the reference counts and what
-- listeners have been told are as in adj_rib_in.
pub record LocRib : Type 0 where
  pub myid : Option Bytes
  pub ids : Tree RibId
  pub recompute : Bool
  pub listeners : List ℕ
  pub counts : ℕ → ℕ
  pub calls : List (ℕ × RibEvent)

unfoldable pub compare_ids : RibId → RibId → Ordering
compare_ids a b = memcmp node_id_len a.id b.id

unfoldable pub loc_rib_find_id : LocRib → Bytes → Option RibId
unfolding walk
loc_rib_find_id rib id = walk (λ rid. memcmp node_id_len id rid.id) rib.ids

-- iv_avl_tree_max
unfoldable pub last : Tree LsaRef → Option LsaRef
last leaf = none
last (node l a leaf) = some a
last (node l a (node rl b rr)) = last (node rl b rr)

module _ (p : Platform) where
  -- Two numbers of 32 bits in network order, one after the other, are one of 64 bits.
  unfoldable pub lsa_get_version : Lsa → ℕ
  lsa_get_version lsa = signed_number p 8 0 (lsa_find_attr lsa attr_type_version [])

  abbrev pub if_recent : ℕ → Option LsaRef → Option Lsa
  if_recent seen none = none
  if_recent seen (some ref) =
      if ltb (lsa_get_version ref.obj.lsa) seen then none else some ref.obj.lsa

  abbrev pub recent_of : Option RibId → Option Lsa
  recent_of none = none
  recent_of (some rid) = if_recent rid.highest_version_seen (last rid.lsas)

  unfoldable pub find_recent_lsa : LocRib → Bytes → Option Lsa
  unfolding last loc_rib_find_id lsa_get_version
  find_recent_lsa rib id = recent_of (loc_rib_find_id rib id)

  -- By version, and then by address.
  unfoldable pub compare_lsas : Obj → Obj → Ordering
  unfolding lsa_get_version
  compare_lsas a b =
      then_by (compare (lsa_get_version a.lsa) (lsa_get_version b.lsa)) (compare a.addr b.addr)

  -- compare_lsa_refs, which aborts where this is a tie.
  unfoldable pub compare_lsa_refs : LsaRef → LsaRef → Ordering
  unfolding compare_lsas
  compare_lsa_refs a b = compare_lsas a.obj b.obj

  unfoldable pub find_lsa_ref : RibId → Obj → Option LsaRef
  unfolding walk compare_lsas
  find_lsa_ref rid lsa = walk (λ ref. compare_lsas lsa ref.obj) rid.lsas
