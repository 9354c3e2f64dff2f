-- ===== src/RtBuilder.antt =====
-- rt_builder.c: routes from the best advertisements; and rib_listener_to_loc.c.
pub mod Tracks
pub mod Tests
use dvpn.Base.{
  ℕ, ◌==◌, Bool, true, false, not, ◌&&◌, ltb, if◌then◌else◌, List, [], ◌∷◌, ◌++◌, length, drop,
  Option, none, some, Result, ok, aborted, fault, ◌>>=◌,
}
use dvpn.Bytes.{Bytes, memcmp, is_eq}
use dvpn.Lsa.Types.{Attr, Lsa, node_id_len, attr_type_adv_path}
use dvpn.Lsa.Platform.{Platform}
use dvpn.Lsa.Build.{attr_data, lsa_find_attr}
use dvpn.Util.Address.{v6_global_addr_from_key_id}
use dvpn.AdjRibIn.Rib.{Obj, RibEvent, lsa_add, lsa_mod, lsa_del, rib_cost_unreachable}
use dvpn.LocRib.State.{LocRib, rib_cost_ineligible}
use dvpn.LocRib.Update.{loc_rib_add_lsa, loc_rib_mod_lsa, loc_rib_del_lsa}

-- A call of one of the three callbacks of struct rt_builder.
pub data RtCall : Type 0 where
  rt_add rt_del : Bytes → Option Bytes → RtCall
  rt_mod : Bytes → Option Bytes → Option Bytes → RtCall

-- Whether the data starts with the id of this node.
abbrev pub starts_at_me : Option Bytes → Bytes → Bool
starts_at_me none path = false
starts_at_me (some me) path =
    not (ltb (length path) node_id_len) && is_eq (memcmp node_id_len path me)

abbrev pub is_me : Option Bytes → Bytes → Bool
is_me none path = false
is_me (some me) path = (length path == node_id_len) && is_eq (memcmp node_id_len path me)

abbrev pub same_addr : Option Bytes → Option Bytes → Bool
same_addr none none = true
same_addr (some a) (some b) = is_eq (memcmp 16 a b)
same_addr _ _ = false

module _ (p : Platform) (myid : Option Bytes) where
  abbrev pub mapped_path : Lsa → Option Attr → Result (Option Lsa)
  mapped_path lsa none = aborted
  mapped_path lsa (some a) =
      let path = attr_data p a in
      if length path == 0 then ok none else if is_me myid path then ok none else ok (some lsa)

  -- map; a null pointer is `none`.
  unfoldable pub mapped_lsa : Lsa → ℕ → Result (Option Lsa)
  mapped_lsa lsa cost =
      if cost == rib_cost_ineligible
      then aborted
      else if cost == rib_cost_unreachable
      then ok none
      else mapped_path lsa (lsa_find_attr lsa attr_type_adv_path [])

  -- A path that is shorter than what the address is made of would be read past its end.
  abbrev pub nh_of : Bytes → Result (Option Bytes)
  nh_of path =
      if length path == 0
      then aborted
      else if length path == node_id_len
      then ok none
      else if ltb (length path) 22
      then fault
      else ok (some (v6_global_addr_from_key_id path))

  abbrev pub nh_at : Option Attr → Result (Option Bytes)
  nh_at none = aborted
  nh_at (some a) =
      let path = attr_data p a in
      nh_of (if starts_at_me myid path then drop node_id_len path else path)

  -- A null pointer, for a destination that is a neighbour, is `none`.
  unfoldable pub getnh : Lsa → Result (Option Bytes)
  getnh lsa = nh_at (lsa_find_attr lsa attr_type_adv_path [])

  unfoldable pub add_route : Lsa → Result (List RtCall)
  unfolding getnh
  add_route lsa = do nh ← getnh lsa; ok (rt_add (v6_global_addr_from_key_id lsa.id) nh ∷ [])

  unfoldable pub mod_route : Lsa → Lsa → Result (List RtCall)
  unfolding getnh
  mod_route old new = do
    nhold ← getnh old
    nhnew ← getnh new
    ok (
        if same_addr nhold nhnew
        then []
        else rt_mod (v6_global_addr_from_key_id new.id) nhold nhnew ∷ [])

  unfoldable pub del_route : Lsa → Result (List RtCall)
  unfolding getnh
  del_route lsa = do nh ← getnh lsa; ok (rt_del (v6_global_addr_from_key_id lsa.id) nh ∷ [])

  abbrev pub to_route : Option Lsa → Option Lsa → Result (List RtCall)
  to_route none none = ok []
  to_route none (some b) = add_route b
  to_route (some a) (some b) = mod_route a b
  to_route (some a) none = del_route a

  -- lsa_add, lsa_mod and lsa_del of rt_builder.c.
  unfoldable pub on_rib_event : RibEvent → Result (List RtCall)
  unfolding mapped_lsa add_route mod_route del_route
  on_rib_event (lsa_add a cost) = do a' ← mapped_lsa a.lsa cost; to_route none a'
  on_rib_event (lsa_mod a acost b bcost) = do
    a' ← mapped_lsa a.lsa acost
    b' ← mapped_lsa b.lsa bcost
    to_route a' b'
  on_rib_event (lsa_del a cost) = do a' ← mapped_lsa a.lsa cost; to_route a' none

  unfoldable pub on_rib_events : List RibEvent → Result (List RtCall)
  unfolding on_rib_event
  on_rib_events [] = ok []
  on_rib_events (e ∷ es) = do calls ← on_rib_event e; more ← on_rib_events es; ok (calls ++ more)

-- lsa_add, lsa_mod and lsa_del of rib_listener_to_loc.c.
unfoldable pub feed : Platform → LocRib → RibEvent → Result LocRib
feed p rib (lsa_add a cost) = loc_rib_add_lsa p rib a
feed p rib (lsa_mod a acost b bcost) = loc_rib_mod_lsa p rib a b
feed p rib (lsa_del a cost) = loc_rib_del_lsa p rib a
