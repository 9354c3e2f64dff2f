-- ===== src/RtBuilder/Tests.antt =====
-- A route to a neighbour, and one that goes over it.
use dvpn.Base.{◌≡◌, refl, none, some, List, [], ◌∷◌, ◌++◌, ok, arith, replicate}
use dvpn.Bytes.{memcmp}
use dvpn.Lsa.Types.{empty, branch, Lsa}
use dvpn.Lsa.Platform.{lp64}
use dvpn.Lsa.Build.{lsa_find_attr, attr_data}
use dvpn.Lsa.Compare.{lsa_attr_compare_keys}
use dvpn.Util.Address.{v6_global_addr_from_key_id}
use dvpn.LocRib.Update.{Best, best_event}
use dvpn.LocRib.Tests.{me, near, path_attr, near_lsa}
use dvpn.RtBuilder.{RtCall, rt_mod, on_rib_events}
use dvpn.RtBuilder.Tracks.{IsRoutable, route, replay, on_rib_events-replay}

-- The same node, over another.
abbrev far_lsa : Lsa
far_lsa = record {
  refcount = 1;
  size = 200;
  id = near;
  root = branch empty (path_attr (replicate 32 3 ++ near)) empty;
}

abbrev direct : Best
direct = record { best = some (record { addr = 1; lsa = near_lsa }); bestcost = 3 }

abbrev indirect : Best
indirect = record { best = some (record { addr = 2; lsa = far_lsa }); bestcost = 2 }

direct-IsRoutable : IsRoutable lp64 (some me) near direct
unfolding lsa_find_attr lsa_attr_compare_keys memcmp attr_data
direct-IsRoutable = (refl, refl, λ e. omega arith)

indirect-IsRoutable : IsRoutable lp64 (some me) near indirect
unfolding lsa_find_attr lsa_attr_compare_keys memcmp attr_data
indirect-IsRoutable = (refl, refl, λ e. omega arith)

on_rib_events-replay_example :
    (calls : List RtCall) × (on_rib_events lp64 (some me) (best_event direct indirect) ≡ ok calls)
    × (replay (v6_global_addr_from_key_id near) (route lp64 (some me) direct) calls
        ≡ some (route lp64 (some me) indirect))
on_rib_events-replay_example =
    on_rib_events-replay lp64 (some me) near direct indirect direct-IsRoutable indirect-IsRoutable

-- The route that is changed from a direct one to one over the other node.
changed :
    on_rib_events lp64 (some me) (best_event direct indirect)
    ≡ ok (
        rt_mod
          (v6_global_addr_from_key_id near)
          none
          (some (v6_global_addr_from_key_id (replicate 32 3)))
        ∷ [])
unfolding on_rib_events lsa_find_attr lsa_attr_compare_keys memcmp attr_data
    v6_global_addr_from_key_id
changed = refl
