-- ===== src/Spf/Tests.antt =====
-- Shortest paths through small graphs.
use dvpn.Base.{
  ℕ, [], ◌∷◌, List, none, some, Option, Result, ok, fault, ◌>>=◌, ◌≡◌, refl, map, replicate,
}
use dvpn.ConfDiff.Entries.{customer, transit}
use dvpn.Int.{ℤ, pos, negsuc, max_int}
use dvpn.Spf.{SpfEdge, SpfNode, Spf, spf_init, spf_run}
use dvpn.Spf.Cspf.{
  CspfNode, cspf_node_add, cspf_edge_add, cspf_run, cspf_node_cost, cspf_node_parent,
}
use dvpn.Spf.Heap.{Ends}
use dvpn.Spf.Total.{spf_run-Ends}
use dvpn.Spf.Ways.{Walked}
use dvpn.Spf.Walks.{spf_run-Walked}

abbrev graph_node : ℕ → List SpfEdge → SpfNode
graph_node id edges = record {
  id = replicate 32 id;
  edges = edges;
  parent = none;
  cost = pos 0;
  heapidx = none;
}

abbrev edge : ℕ → ℕ → SpfEdge
edge to cost = record { to = to; cost = pos cost }

-- The way to the third node is shorter through the second, and the fourth is not reached.
abbrev graph : Spf
graph = record {
  nodes =
      graph_node 1 (edge 2 4 ∷ edge 1 1 ∷ [])
      ∷ graph_node 2 (edge 2 1 ∷ [])
      ∷ graph_node 3 []
      ∷ graph_node 4 []
      ∷ [];
  heap = [];
}

abbrev seen : Spf → Result (List (ℤ × Option ℕ))
seen s = ok (map (λ n. (n.cost, n.parent)) s.nodes)

graph_run :
    (spf_run graph 0 >>= seen)
    ≡ ok ((pos 0, none) ∷ (pos 1, some 0) ∷ (pos 2, some 1) ∷ (max_int, none) ∷ [])
unfolding spf_run
graph_run = refl

spf_run-Ends_example : Ends (λ s'. s'.heap ≡ []) (spf_run graph 0)
spf_run-Ends_example = spf_run-Ends graph 0

-- A way of cost 0 back to the source, which has no parent that could be compared.
abbrev circle : Spf
circle = record {
  nodes = graph_node 1 (edge 1 0 ∷ []) ∷ graph_node 2 (edge 0 0 ∷ []) ∷ [];
  heap = [];
}

circle_run : spf_run circle 0 ≡ fault
unfolding spf_run
circle_run = refl

-- An edge of cost -2 to a node that was taken out of the heap before it, by which the node would cost
-- less: it has no place in the heap from which it could be pulled up.
abbrev back : Spf
back = record {
  nodes =
      graph_node 1 (edge 1 1 ∷ edge 2 2 ∷ [])
      ∷ graph_node 2 []
      ∷ graph_node 3 (record { to = 1; cost = negsuc 1 } ∷ [])
      ∷ [];
  heap = [];
}

back_run : spf_run back 0 ≡ fault
unfolding spf_run
back_run = refl

-- The same graph without the edge of cost 1: a cost below 0 that is that of a way.
abbrev ahead : Spf
ahead = record {
  nodes =
      graph_node 1 (edge 2 1 ∷ [])
      ∷ graph_node 2 []
      ∷ graph_node 3 (record { to = 1; cost = negsuc 1 } ∷ [])
      ∷ [];
  heap = [];
}

ahead_run :
    (spf_run ahead 0 >>= seen) ≡ ok ((pos 0, none) ∷ (negsuc 0, some 2) ∷ (pos 1, some 0) ∷ [])
unfolding spf_run
ahead_run = refl

-- Two nodes that are both customers of a third one, and the way from the first to the second.
abbrev two_customers : Result (Spf × (CspfNode × CspfNode))
two_customers = cspf_node_add spf_init (replicate 32 1) >>= λ r₁.
    cspf_node_add r₁.0 (replicate 32 2) >>= λ r₂. cspf_node_add r₂.0 (replicate 32 3) >>= λ r₃.
    cspf_edge_add r₃.0 r₁.1 r₃.1 transit (pos 3) >>= λ s₁.
    cspf_edge_add s₁ r₃.1 r₂.1 customer (pos 4) >>= λ s₂. ok (s₂, (r₁.1, r₂.1))

abbrev way : Result (ℤ × Option ℕ)
way = two_customers >>= λ r. cspf_run r.0 r.1.0 >>= λ s.
    cspf_node_cost s r.1.1 >>= λ cost. cspf_node_parent s r.1.1 >>= λ parent. ok (cost, parent)

way_lem : way ≡ ok (pos 7, some 5)
unfolding spf_init cspf_node_add cspf_edge_add cspf_run cspf_node_cost cspf_node_parent
way_lem = refl

spf_run-Walked_example : Ends (λ s'. Walked graph.nodes 0 s'.nodes) (spf_run graph 0)
spf_run-Walked_example = spf_run-Walked graph 0
