-- ===== src/Spf/Total.antt =====
-- spf_run takes out each node once at most, so that it ends.
use dvpn.Base.{
  not, ℕ, zero, suc, ◌+◌, ◌≤◌, ◌≡◌, refl, sym, ap, ◌∙◌, if◌then◌else◌, List, [], ◌∷◌, length,
  length-set, length-append, length-take, get_elem?, set, take, map, Option, none, some, inl, inr,
  Bool-cases, Ordering, arith,
}
use dvpn.Bytes.{memcmp}
use dvpn.Lsa.Types.{node_id_len}
use dvpn.Int.{ℤ, pos, ◌+ℤ◌, ◌<ℤ◌, ltb_ℤ, eqb_ℤ, max_int, is_int}
use dvpn.Spf.{
  SpfEdge, SpfNode, Spf, item, node_at, put_node, set_heapidx, push_down, is_less, nl, pull_from,
  reach, improve, with_parent, relax, relax_all, pop, run_loop, unreached, spf_run,
}
use dvpn.Spf.Heap.{
  Ends, Ends-bind, Ends-map, item-Ends, unseen, unseen-set, get-set_self, Same, set_heapidx-Ends,
  push_down-Ends, pull_up-Ends,
}

abbrev weight : Spf → ℕ
weight s = unseen s.nodes + length s.heap

abbrev cost_of : Option SpfNode → ℤ
cost_of none = pos 0
cost_of (some node) = node.cost

-- After reach, the node costs what it did, and the heap has grown if it was not reached before.
abbrev Reached : Spf → ℕ → SpfNode → Spf → Type 0
Reached s n node s' =
    (unseen s'.nodes ≡ unseen s.nodes)
    × (length s'.heap ≡ length s.heap + (if eqb_ℤ node.cost max_int then 1 else 0))
    × ((to : SpfNode) → get_elem? s'.nodes n ≡ some to → to.cost ≡ node.cost)

reach-Ends :
    (s : Spf) (n : ℕ) (node : SpfNode)
    → get_elem? s.nodes n ≡ some node
    → Ends (Reached s n node) (reach s n node)
unfolding reach
reach-Ends s n node e = elim (Bool-cases (eqb_ℤ node.cost max_int)) [
  | inl f ↦ rw f (
      rw (e, f)
        (
          omega
              (arith, unseen-set s.nodes n node (record node { heapidx = some (length s.heap) }) e),
          omega (arith, length-append s.heap (n ∷ [])),
          λ to g. ap cost_of (
              sym g
              ∙ get-set_self s.nodes n node (record node { heapidx = some (length s.heap) }) e),
        ))
  | inr f ↦ rw f (refl, rw f (omega arith), λ to g. ap cost_of (sym g ∙ e))
]

pull_from-Ends : (s : Spf) (i : Option ℕ) → Ends (Same s) (pull_from s i)
pull_from-Ends s none = tt
pull_from-Ends s (some i) = pull_up-Ends i s i (omega arith)

improve-Ends :
    (s : Spf) (from n : ℕ) (node : SpfNode) (cost : ℤ)
    → get_elem? s.nodes n ≡ some node
    → cost <ℤ node.cost
    → Ends (λ s'. weight s' ≤ weight s) (improve s from n node cost)
unfolding improve
improve-Ends s from n node cost e h =
    Ends-bind _ (reach s n node) _ (reach-Ends s n node e) (λ s₁ r.
      Ends-bind _ (node_at s₁ n) _ (item-Ends (get_elem? s₁.nodes n)) (λ to g.
        let new : SpfNode = record to { parent = some from; cost = cost } in
        Ends-map (pull_from (put_node s₁ n new) to.heapidx)
          (pull_from-Ends (put_node s₁ n new) to.heapidx)
          (λ s₂ q. ground (arith, r.0, r.1, r.2 to g, unseen-set s₁.nodes n to new g, q.0, q.1))))

is_less-Ends : (o : Ordering) → Ends (λ b. Unit) (is_less o)
is_less-Ends Ordering.lt = tt
is_less-Ends Ordering.eq = tt
is_less-Ends Ordering.gt = tt

nl-Ends : (a b : SpfNode) → Ends (λ less. Unit) (nl a b)
unfolding nl
nl-Ends a b = is_less-Ends (memcmp node_id_len a.id b.id)

with_parent-Ends :
    (s : Spf) (from n : ℕ) (node : SpfNode) (parent : Option ℕ)
    → get_elem? s.nodes n ≡ some node
    → Ends (λ s'. weight s' ≤ weight s) (with_parent s from n node parent)
with_parent-Ends s from n node none e = tt
with_parent-Ends s from n node (some parent) e =
    Ends-bind _ (node_at s from) _ (item-Ends (get_elem? s.nodes from)) (λ f u.
      Ends-bind _ (node_at s parent) _ (item-Ends (get_elem? s.nodes parent)) (λ q v.
        Ends-bind _ (nl f q) _ (nl-Ends f q) (λ less w. elim (Bool-cases less) [
          | inl k ↦
              rw k (omega (arith, unseen-set s.nodes n node (record node { parent = some from }) e))
          | inr k ↦ rw k (omega arith)
        ])))

relax-Ends :
    (s : Spf) (from : ℕ) (edge : SpfEdge) → Ends (λ s'. weight s' ≤ weight s) (relax s from edge)
unfolding relax
relax-Ends s from edge = Ends-bind _ (node_at s from) _ (item-Ends (get_elem? s.nodes from)) (λ f u.
    Ends-bind _ (node_at s edge.to) _ (item-Ends (get_elem? s.nodes edge.to)) (λ to e.
      elim (Bool-cases (not (is_int (f.cost +ℤ edge.cost)))) [
        | inl a ↦ rw a tt
        | inr a ↦ rw a (elim (Bool-cases (ltb_ℤ (f.cost +ℤ edge.cost) to.cost)) [
          | inl b ↦ rw b (improve-Ends s from edge.to to (f.cost +ℤ edge.cost) e (ground arith))
          | inr b ↦ rw b (elim (Bool-cases (eqb_ℤ (f.cost +ℤ edge.cost) to.cost)) [
            | inl c ↦ rw c (with_parent-Ends s from edge.to to to.parent e)
            | inr c ↦ rw c (omega arith)
          ])
        ])
      ]))

relax_all-Ends :
    (s : Spf) (from : ℕ) (edges : List SpfEdge)
    → Ends (λ s'. weight s' ≤ weight s) (relax_all s from edges)
unfolding relax_all
relax_all-Ends s from [] = omega arith
relax_all-Ends s from (edge ∷ edges) =
    Ends-bind _ (relax s from edge) _ (relax-Ends s from edge) (λ s₁ h.
      Ends-map (relax_all s₁ from edges) (relax_all-Ends s₁ from edges)
        (λ s₂ k. omega (arith, h, k)))

pop-Ends :
    (s : Spf) (from n : ℕ)
    → length s.heap ≡ suc n
    → Ends (λ s'. weight s' ≤ unseen s.nodes + n) (pop s from n)
unfolding pop
pop-Ends s from zero h =
    Ends-map (set_heapidx (record s { heap = [] }) from none)
      (set_heapidx-Ends (record s { heap = [] }) from none) (λ s₁ q. omega (arith, q.0, q.1))
pop-Ends s from (suc n) h =
    Ends-bind _ (item (get_elem? s.heap (suc n))) _ (item-Ends (get_elem? s.heap (suc n)))
      (λ last e.
        let short = take (suc n) (set s.heap 0 last) in
        let size : length short ≡ suc n =
          omega (arith, length-take (suc n) (set s.heap 0 last), length-set s.heap 0 last, h) in
        let s₀ : Spf = record s { heap = short } in
        Ends-bind _ (set_heapidx s₀ from none) _ (set_heapidx-Ends s₀ from none) (λ s₁ a.
          Ends-bind _ (set_heapidx s₁ last (some 0)) _ (set_heapidx-Ends s₁ last (some 0)) (λ s₂ b.
            Ends-map (push_down (suc n) s₂ 0)
              (push_down-Ends (suc n) s₂ 0 (omega (arith, a.1, b.1, size)) (omega arith))
              (λ s₃ c. omega (arith, a.0, a.1, b.0, b.1, c.0, c.1, size)))))

run_loop-Ends :
    (fuel : ℕ) (s : Spf) (heap : List ℕ)
    → heap ≡ s.heap
    → weight s ≤ fuel
    → Ends (λ s'. s'.heap ≡ []) (run_loop fuel s heap)
unfolding run_loop
run_loop-Ends fuel s [] e h = sym e
run_loop-Ends zero s (from ∷ rest) e h = absurd (omega (arith, ap length e))
run_loop-Ends (suc fuel) s (from ∷ rest) e h =
    Ends-bind _ (pop s from (length rest)) _ (pop-Ends s from (length rest) (sym (ap length e)))
      (λ s₁ a. Ends-bind _ (node_at s₁ from) _ (item-Ends (get_elem? s₁.nodes from)) (λ f u.
        Ends-bind _ (relax_all s₁ from f.edges) _ (relax_all-Ends s₁ from f.edges)
          (λ s₂ b. run_loop-Ends fuel s₂ s₂.heap refl (omega (arith, a, b, ap length e)))))

unseen-unreached : (nodes : List SpfNode) → unseen (map unreached nodes) ≡ length nodes
unfolding unseen
unseen-unreached [] = refl
unseen-unreached (node ∷ nodes) = omega (arith, unseen-unreached nodes)

length-unreached : (nodes : List SpfNode) → length (map unreached nodes) ≡ length nodes
length-unreached [] = refl
length-unreached (node ∷ nodes) = omega (arith, length-unreached nodes)

get-unreached :
    (nodes : List SpfNode) (n : ℕ) (node : SpfNode)
    → get_elem? (map unreached nodes) n ≡ some node
    → node.cost ≡ max_int
get-unreached [] n node e = absurd (ground arith)
get-unreached (x ∷ nodes) zero node e = ap cost_of (sym e)
get-unreached (x ∷ nodes) (suc n) node e = get-unreached nodes n node e

-- spf_run comes to an end for every graph and source, whatever the edges cost: each round of its loop
-- takes a node out of the heap, and no node is put in twice, so that as many rounds as there are nodes
-- are enough. Where it returns, the heap is empty.
pub spf_run-Ends : (s : Spf) (source : ℕ) → Ends (λ s'. s'.heap ≡ []) (spf_run s source)
unfolding spf_run
spf_run-Ends s source =
    let nodes = map unreached s.nodes in
    Ends-bind _ (node_at (record s { nodes = nodes }) source) _ (item-Ends (get_elem? nodes source))
      (λ node e.
        let first : SpfNode = record node { cost = pos 0; heapidx = some 0 } in
        run_loop-Ends (length nodes) (record { nodes = set nodes source first; heap = source ∷ [] })
          (source ∷ []) refl
          (ground (
            arith,
            unseen-set nodes source node first e,
            get-unreached s.nodes source node e,
            unseen-unreached s.nodes,
            length-unreached s.nodes,
          )))
