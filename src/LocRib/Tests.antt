-- ===== src/LocRib/Tests.antt =====
-- A node with a transit, and what it knows.
use dvpn.Base.{◌≡◌, refl, true, false, ltb, none, some, [], ◌∷◌, ok, replicate, ℕ}
use dvpn.Bytes.{memcmp, big_endian, Bytes}
use dvpn.Avl.Order.{Each, Sorted}
use dvpn.Avl.Walk.{leaf, node, in_order}
use dvpn.Lsa.Types.{
  Attr, attr, bytes, attr_set, empty, branch, Lsa, attr_type_adv_path, attr_type_peer,
}
use dvpn.Lsa.Platform.{lp64}
use dvpn.Lsa.Build.{lsa_find_attr, lsa_attr_set_find_attr, attr_data}
use dvpn.Lsa.Compare.{lsa_attr_compare_keys}
use dvpn.Lsa.Peer.{signed_number}
use dvpn.LocRib.State.{RibId, LocRib, compare_ids, lsa_get_version, find_recent_lsa}
use dvpn.LocRib.Cost.{lsa_path_cost}
use dvpn.LocRib.Update.{recompute_rib}
use dvpn.LocRib.Total.{Returns, lsa_path_cost-Returns}
use dvpn.LocRib.Paths.{hops_through, Priced, lsa_path_cost-Priced}
use dvpn.LocRib.Choose.{IsReady}
use dvpn.LocRib.Settled.{SameContents, IsSettled, recompute_rib_settles}

abbrev pub me : Bytes
me = replicate 32 1

abbrev pub near : Bytes
near = replicate 32 2

-- What a node says of a neighbour: a metric of 3, and flags.
abbrev pub peer : Bytes → ℕ → Attr
peer id flags = attr attr_type_peer true id (
    attr_set (
      branch empty (attr 1 true [] (bytes (0 ∷ 3 ∷ [])))
        (branch empty (attr 2 true [] (bytes (flags ∷ []))) empty)))

abbrev pub path_attr : Bytes → Attr
path_attr path = attr attr_type_adv_path true [] (bytes path)

abbrev pub my_lsa : Lsa
my_lsa = record {
  refcount = 1;
  size = 300;
  id = me;
  root = branch empty (path_attr []) (branch empty (peer near 2) empty);
}

abbrev pub near_lsa : Lsa
near_lsa = record {
  refcount = 1;
  size = 239;
  id = near;
  root = branch empty (path_attr near) (branch empty (peer me 1) empty);
}

abbrev pub rib_id : Bytes → ℕ → Lsa → RibId
rib_id id addr lsa = record {
  id = id;
  highest_version_seen = 0;
  lsas = node leaf (record { obj = record { addr = addr; lsa = lsa }; cost = 0 }) leaf;
  best = none;
  bestcost = 0;
}

abbrev pub rib : LocRib
rib = record {
  myid = some me;
  ids = node leaf (rib_id me 1 my_lsa) (node leaf (rib_id near 2 near_lsa) leaf);
  recompute = true;
  listeners = 0 ∷ [];
  counts = λ a. 1;
  calls = [];
}

near_new : ltb (lsa_get_version lp64 near_lsa) 0 ≡ false
unfolding lsa_get_version lsa_find_attr signed_number lsa_attr_compare_keys memcmp
near_new = refl

near_path : lsa_find_attr near_lsa attr_type_adv_path [] ≡ some (path_attr near)
unfolding lsa_find_attr lsa_attr_compare_keys memcmp
near_path = refl

near_path_data : attr_data lp64 (path_attr near) ≡ near
unfolding attr_data
near_path_data = refl

me_recent : find_recent_lsa lp64 rib me ≡ some my_lsa
unfolding find_recent_lsa lsa_find_attr signed_number lsa_attr_compare_keys memcmp
me_recent = refl

lsa_path_cost-Priced_example :
    (c : ℕ) × (lsa_path_cost lp64 rib (rib_id near 2 near_lsa) near_lsa ≡ ok c)
    × Priced lp64 rib c (hops_through lp64 rib my_lsa (near ∷ []))
lsa_path_cost-Priced_example =
    lsa_path_cost-Priced lp64 rib (rib_id near 2 near_lsa) near_lsa (path_attr near) (near ∷ []) me
      my_lsa near_new near_path near_path_data (refl, tt) refl me_recent

lsa_path_cost-Returns_example : Returns (lsa_path_cost lp64 rib (rib_id near 2 near_lsa) near_lsa)
unfolding lsa_find_attr lsa_attr_compare_keys memcmp attr_data
lsa_path_cost-Returns_example =
    lsa_path_cost-Returns lp64 rib (rib_id near 2 near_lsa) near_lsa refl

-- The way over the transit costs its metric.
near_costs : lsa_path_cost lp64 rib (rib_id near 2 near_lsa) near_lsa ≡ ok 3
unfolding lsa_path_cost find_recent_lsa lsa_find_attr signed_number lsa_attr_compare_keys memcmp
    lsa_get_version attr_data dvpn.Lsa.Peer.lsa_get_peer_info lsa_attr_set_find_attr big_endian
near_costs = refl

ids-Sorted : Sorted compare_ids (in_order rib.ids)
unfolding in_order compare_ids memcmp
ids-Sorted = ((refl, tt), (tt, tt))

ids-IsReady : Each (IsReady lp64) (in_order rib.ids)
unfolding in_order lsa_find_attr lsa_attr_compare_keys memcmp attr_data
ids-IsReady = (((refl, tt), tt, (tt, tt)), (((refl, tt), tt, (tt, tt)), tt))

recompute_rib_settles_example :
    (rib' : LocRib) × (recompute_rib lp64 rib ≡ ok rib')
    × (rib'.recompute ≡ false)
    × SameContents lp64 (in_order rib.ids) (in_order rib'.ids)
    × Each (IsSettled lp64 rib') (in_order rib'.ids)
recompute_rib_settles_example = recompute_rib_settles lp64 rib ids-Sorted ids-IsReady
