-- ===== src/Spf/Cspf.antt =====
-- cspf.c: shortest paths that the kinds of the neighbours allow. A node is two nodes of spf.c: `a`, to
-- which the path has come through transits only, and `b`. An edge that is deleted is not modelled.
use dvpn.Base.{ℕ, ◌+◌, [], length, Option, none, some, Result, ok, ◌>>=◌, ◌==◌, if◌then◌else◌}
use dvpn.Bytes.{Bytes}
use dvpn.ConfDiff.Entries.{PeerType, invalid, dbonly, epeer, customer, transit, ipeer}
use dvpn.Int.{ℤ, pos, max_int}
use dvpn.Spf.{SpfNode, Spf, node_at, spf_node_add, spf_edge_add, spf_run}

-- struct cspf_node, as the places of its two nodes; the cookie is the place.
pub record CspfNode : Type 0 where
  pub a : ℕ
  pub b : ℕ

abbrev fresh_node : Bytes → SpfNode
fresh_node id = record { id = id; edges = []; parent = none; cost = max_int; heapidx = none }

unfoldable pub cspf_node_add : Spf → Bytes → Result (Spf × CspfNode)
unfolding spf_node_add spf_edge_add
cspf_node_add s id =
    let n : CspfNode = record { a = length s.nodes; b = length s.nodes + 1 } in
    spf_edge_add (spf_node_add (spf_node_add s (fresh_node id)) (fresh_node id)) n.a
      (record { to = n.b; cost = pos 0 })
    >>= λ s₁. ok (s₁, n)

-- Where the type is another, a line is printed, and no edge is added.
unfoldable pub cspf_edge_add : Spf → CspfNode → CspfNode → PeerType → ℤ → Result Spf
unfolding spf_edge_add
cspf_edge_add s from to epeer cost = spf_edge_add s from.a (record { to = to.b; cost = cost })
cspf_edge_add s from to customer cost = spf_edge_add s from.b (record { to = to.b; cost = cost })
cspf_edge_add s from to transit cost = spf_edge_add s from.a (record { to = to.a; cost = cost })
cspf_edge_add s from to ipeer cost = do
  s₁ ← spf_edge_add s from.a (record { to = to.a; cost = cost })
  spf_edge_add s₁ from.b (record { to = to.b; cost = cost })
cspf_edge_add s from to invalid cost = ok s
cspf_edge_add s from to dbonly cost = ok s

unfoldable pub cspf_run : Spf → CspfNode → Result Spf
unfolding spf_run
cspf_run s source = spf_run s source.a

abbrev pub parent_or : Spf → CspfNode → Option ℕ → Result (Option ℕ)
parent_or s node none = ok none
parent_or s node (some parent) =
    if parent == node.a then (node_at s node.a >>= λ a. ok a.parent) else ok (some parent)

unfoldable pub cspf_node_parent : Spf → CspfNode → Result (Option ℕ)
cspf_node_parent s node = do b ← node_at s node.b; parent_or s node b.parent

unfoldable pub cspf_node_cost : Spf → CspfNode → Result ℤ
cspf_node_cost s node = do b ← node_at s node.b; ok b.cost
