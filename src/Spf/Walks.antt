-- ===== src/Spf/Walks.antt =====
-- The costs that spf_run leaves are those of ways through the graph.
use dvpn.Base.{
  ℕ, zero, suc, ◌≤◌, ◌≡◌, refl, sym, subst, not, true, List, [], ◌∷◌, length, get_elem?, set, map,
  Option, none, some, Result, ok, err, fault, aborted, stuck, ◌⊎◌, inl, inr, Bool-cases, arith,
}
use dvpn.Bytes.{int_max}
use dvpn.Avl.Order.{Each, Each-map, Each-append}
use dvpn.Int.{ℤ, pos, negsuc, above, ◌+ℤ◌, ◌<ℤ◌, ltb_ℤ, eqb_ℤ, max_int, is_int}
use dvpn.Spf.{
  SpfEdge, SpfNode, Spf, node_at, put_node, nl, reach, improve, with_parent, relax, relax_all, pop,
  run_loop, unreached, spf_run,
}
use dvpn.Spf.Heap.{Ends}
use dvpn.Spf.Moves.{Goes, pull_from-Goes, pop-Goes}
use dvpn.Spf.Total.{spf_run-Ends}
use dvpn.Spf.Ways.{
  Yields, Yields-bind, item-Yields, anything, Occurs, Each-Occurs, Walk, start, along, Low, Low-set,
  Low-new, IsWalked, Walked, Walked-set, IsOnWay, IsOnWay-set,
}

above_le : (cost : ℤ) → cost <ℤ max_int → above cost ≤ int_max
above_le (pos k) h = omega arith
above_le (negsuc k) h = omega arith

module _ (g : List SpfNode) (source : ℕ) where
  -- The node `n` is in the heap, and was perhaps not reached before.
  abbrev IsReaching : ℕ → ℕ → Spf → Type 0
  IsReaching from n s =
      Walked g source s.nodes × Low s.nodes from × Each (λ m. Low s.nodes m ⊎ (m ≡ n)) s.heap

  reach-IsReaching :
      (s : Spf) (from n : ℕ) (node : SpfNode)
      → IsOnWay g source from s
      → Yields (IsReaching from n) (reach s n node)
  unfolding reach
  reach-IsReaching s from n node (w, low, lows) = elim (Bool-cases (eqb_ℤ node.cost max_int)) [
    | inl f ↦ rw f (
        Yields-bind _ (node_at s n) _ (item-Yields (get_elem? s.nodes n)) (λ o e.
          let new : SpfNode = record o { heapidx = some (length s.heap) } in
          (
            Walked-set g source s.nodes n o new e w (w n o e),
            Low-set s.nodes n o new from e (λ h. h) low,
            Each-append (λ m. Low (set s.nodes n new) m ⊎ (m ≡ n)) s.heap (n ∷ [])
                (Each-map s.heap (λ m h. inl (Low-set s.nodes n o new m e (λ q. q) h)) lows)
                (inr refl, tt),
          )))
    | inr f ↦ rw f (w, low, Each-map s.heap (λ m h. inl h) lows)
  ]

  improve-Goes :
      (s : Spf) (from n : ℕ) (node : SpfNode) (cost : ℤ)
      → cost <ℤ max_int
      → Walk g source n cost
      → IsOnWay g source from s
      → Goes g source from (improve s from n node cost)
  unfolding improve
  improve-Goes s from n node cost less way w =
      Yields-bind _ (reach s n node) _ (reach-IsReaching s from n node w) (λ s₁ r.
        Yields-bind _ (node_at s₁ n) _ (item-Yields (get_elem? s₁.nodes n)) (λ to e.
          let new : SpfNode = record to { parent = some from; cost = cost } in
          pull_from-Goes g source from (put_node s₁ n new) to.heapidx (
            Walked-set g source s₁.nodes n to new e r.0
                ((r.0 n to e).0, above_le cost less, λ h. way),
            Low-set s₁.nodes n to new from e (λ h. less) r.1,
            Each-map s₁.heap
                (λ m h. elim h [
                  | inl q ↦ Low-set s₁.nodes n to new m e (λ h. less) q
                  | inr q ↦
                      subst (Low (set s₁.nodes n new)) (sym q) (Low-new s₁.nodes n to new e less)
                ])
                r.2,
          )))

  with_parent-Goes :
      (s : Spf) (from n : ℕ) (node : SpfNode) (parent : Option ℕ)
      → get_elem? s.nodes n ≡ some node
      → IsOnWay g source from s
      → Goes g source from (with_parent s from n node parent)
  with_parent-Goes s from n node none e w = tt
  with_parent-Goes s from n node (some parent) e w =
      Yields-bind _ (node_at s from) _ (anything (node_at s from)) (λ f u.
        Yields-bind _ (node_at s parent) _ (anything (node_at s parent)) (λ q v.
          Yields-bind _ (nl f q) _ (anything (nl f q)) (λ less t. elim (Bool-cases less) [
            | inl k ↦ rw k (
                IsOnWay-set g source from s n node (record node { parent = some from }) e
                  (w.0 n node e) (λ h. h) w)
            | inr k ↦ rw k w
          ])))

  -- An edge of the graph.
  abbrev IsEdge : ℕ → SpfEdge → Type 0
  IsEdge from e = (o : SpfNode) × (get_elem? g from ≡ some o) × Occurs e o.edges

  relax-Goes :
      (s : Spf) (from : ℕ) (edge : SpfEdge)
      → IsOnWay g source from s
      → IsEdge from edge
      → Goes g source from (relax s from edge)
  unfolding relax
  relax-Goes s from edge w (o, eo, has) =
      Yields-bind _ (node_at s from) _ (item-Yields (get_elem? s.nodes from)) (λ f u.
        Yields-bind _ (node_at s edge.to) _ (item-Yields (get_elem? s.nodes edge.to)) (λ to e.
          let cost : ℤ = f.cost +ℤ edge.cost in
          elim (Bool-cases (not (is_int cost))) [
            | inl a ↦ rw a tt
            | inr a ↦ rw a (elim (Bool-cases (ltb_ℤ cost to.cost)) [
              | inl b ↦ rw b (
                  improve-Goes s from edge.to to cost
                    (below_max cost to.cost b (w.0 edge.to to e).1)
                    (along from f.cost o edge ((w.0 from f u).2 (w.1 f u)) eo has) w)
              | inr b ↦ rw b (elim (Bool-cases (eqb_ℤ cost to.cost)) [
                | inl c ↦ rw c (with_parent-Goes s from edge.to to to.parent e w)
                | inr c ↦ rw c w
              ])
            ])
          ]))
    where
      below_max : (x y : ℤ) → ltb_ℤ x y ≡ true → above y ≤ int_max → x <ℤ max_int
      below_max x y h k = ground arith

  relax_all-Goes :
      (s : Spf) (from : ℕ) (edges : List SpfEdge)
      → IsOnWay g source from s
      → Each (IsEdge from) edges
      → Goes g source from (relax_all s from edges)
  unfolding relax_all
  relax_all-Goes s from [] w h = w
  relax_all-Goes s from (edge ∷ edges) w (k, h) =
      Yields-bind _ (relax s from edge) _ (relax-Goes s from edge w k)
        (λ s₁ w₁. relax_all-Goes s₁ from edges w₁ h)

  run_loop-Walked :
      (fuel : ℕ) (s : Spf) (heap : List ℕ)
      → Walked g source s.nodes
      → Each (Low s.nodes) s.heap
      → Each (Low s.nodes) heap
      → Yields (λ s'. Walked g source s'.nodes) (run_loop fuel s heap)
  unfolding run_loop
  run_loop-Walked fuel s [] w lows h = w
  run_loop-Walked zero s (from ∷ rest) w lows h = tt
  run_loop-Walked (suc fuel) s (from ∷ rest) w lows (low, h) =
      Yields-bind _ (pop s from (length rest)) _
        (pop-Goes g source from s (length rest) (w, low, lows))
        (λ s₁ a. Yields-bind _ (node_at s₁ from) _ (item-Yields (get_elem? s₁.nodes from)) (λ f u.
          let (o, eo, same) = (a.0 from f u).0 in
          Yields-bind _ (relax_all s₁ from f.edges) _
            (relax_all-Goes s₁ from f.edges a (
              Each-map f.edges (λ x h. (o, eo, subst (Occurs x) (sym same) h))
                (Each-Occurs f.edges)))
            (λ s₂ b. run_loop-Walked fuel s₂ s₂.heap b.0 b.2 b.2)))

map-unreached :
    (g : List SpfNode) (n : ℕ) (node : SpfNode)
    → get_elem? (map unreached g) n ≡ some node
    → (o : SpfNode) × (get_elem? g n ≡ some o) × (some (unreached o) ≡ some node)
map-unreached [] n node e = absurd (ground arith)
map-unreached (x ∷ g) zero node e = (x, refl, e)
map-unreached (x ∷ g) (suc n) node e = map-unreached g n node e

unreached-Walked : (g : List SpfNode) (source : ℕ) → Walked g source (map unreached g)
unreached-Walked g source n node e =
    let (o, eo, is) = map-unreached g n node e in
    subst (IsOne g source n) is ((o, eo, refl), omega arith, λ h. absurd (omega arith))
  where
    IsOne : List SpfNode → ℕ → ℕ → Option SpfNode → Type 0
    IsOne g source n none = Unit
    IsOne g source n (some node) = IsWalked g source n node

Ends-both {ℓ} : {A : Type ℓ} (Q R : A → Type 0) (m : Result A) → Ends Q m → Yields R m → Ends R m
Ends-both Q R err h k = tt
Ends-both Q R aborted h k = tt
Ends-both Q R fault h k = tt
Ends-both Q R stuck h k = absurd h
Ends-both Q R (ok a) h k = k

-- Where spf_run returns, each node has the edges that it had, and costs INT_MAX at most; where its cost
-- is below INT_MAX, it is the sum of the costs along a way through the graph from the source to it. The
-- costs of the edges may be negative. The run does not go on for ever.
pub spf_run-Walked :
    (s : Spf) (source : ℕ) → Ends (λ s'. Walked s.nodes source s'.nodes) (spf_run s source)
unfolding spf_run
spf_run-Walked s source =
    let nodes = map unreached s.nodes in
    Ends-both _ _ (spf_run s source) (spf_run-Ends s source) (
      Yields-bind _ (node_at (record s { nodes = nodes }) source) _
        (item-Yields (get_elem? nodes source))
        (λ node e.
          let first : SpfNode = record node { cost = pos 0; heapidx = some 0 } in
          let low : Low (set nodes source first) source =
            Low-new nodes source node first e (omega arith) in
          run_loop-Walked s.nodes source (length nodes)
            (record { nodes = set nodes source first; heap = source ∷ [] }) (source ∷ [])
            (Walked-set s.nodes source nodes source node first e (unreached-Walked s.nodes source)
              ((unreached-Walked s.nodes source source node e).0, omega arith, λ h. start))
            (low, tt) (low, tt)))
