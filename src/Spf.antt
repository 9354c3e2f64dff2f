-- ===== src/Spf.antt =====
-- spf.c: shortest paths from one node to all others, with a heap of the nodes that are reached.
pub mod Cspf
pub mod Heap
pub mod Moves
pub mod Total
pub mod Ways
pub mod Walks
pub mod Tests
use dvpn.Base.{
  ℕ, zero, suc, ◌+◌, ◌-◌, ◌*◌, ◌/◌, Bool, true, false, ltb, not, leb, ◌==◌, if◌then◌else◌, List, [],
  ◌∷◌, ◌++◌, length, get_elem?, set, take, map, Option, none, some, Result, ok, fault, aborted,
  stuck, ◌>>=◌, Ordering,
}
use dvpn.Bytes.{Bytes, memcmp, int_max}
use dvpn.Int.{ℤ, pos, ◌+ℤ◌, ltb_ℤ, leb_ℤ, eqb_ℤ, max_int, is_int}
use dvpn.Lsa.Types.{node_id_len}

-- struct spf_edge. A node is its place in the list of the context.
pub record SpfEdge : Type 0 where
  pub to : ℕ
  pub cost : ℤ

-- struct spf_node; a heapidx of -1 is `none`.
pub record SpfNode : Type 0 where
  pub id : Bytes
  pub edges : List SpfEdge
  pub parent : Option ℕ
  pub cost : ℤ
  pub heapidx : Option ℕ

-- struct spf_context, and the first heapsize items of the array of spf_run.
pub record Spf : Type 0 where
  pub nodes : List SpfNode
  pub heap : List ℕ

unfoldable pub spf_init : Spf
spf_init = record { nodes = []; heap = [] }

unfoldable pub spf_node_add : Spf → SpfNode → Spf
spf_node_add s node = record s { nodes = s.nodes ++ record node { edges = [] } ∷ [] }

abbrev pub item {ℓ} : {A : Type ℓ} → Option A → Result A
item none = fault
item (some a) = ok a

abbrev pub node_at : Spf → ℕ → Result SpfNode
node_at s n = item (get_elem? s.nodes n)

abbrev pub put_node : Spf → ℕ → SpfNode → Spf
put_node s n node = record s { nodes = set s.nodes n node }

unfoldable pub spf_edge_add : Spf → ℕ → SpfEdge → Result Spf
spf_edge_add s from edge = do
  node ← node_at s from
  ok (put_node s from (record node { edges = node.edges ++ edge ∷ [] }))

-- heap[i]->cost
abbrev pub heap_cost : Spf → ℕ → Result ℤ
heap_cost s i = do n ← item (get_elem? s.heap i); node ← node_at s n; ok node.cost

abbrev pub set_heapidx : Spf → ℕ → Option ℕ → Result Spf
set_heapidx s n i = do node ← node_at s n; ok (put_node s n (record node { heapidx = i }))

-- Two items of the heap change places.
unfoldable pub swap : Spf → ℕ → ℕ → Result Spf
swap s i j = do
  a ← item (get_elem? s.heap i)
  b ← item (get_elem? s.heap j)
  s₁ ← set_heapidx (record s { heap = set (set s.heap i b) j a }) b (some i)
  set_heapidx s₁ a (some j)

-- The one of two places whose item costs less, where the second is in the heap.
unfoldable pub cheaper : Spf → ℕ → ℕ → Result ℕ
cheaper s min child =
    if ltb child (length s.heap)
    then (do a ← heap_cost s min; b ← heap_cost s child; ok (if ltb_ℤ b a then child else min))
    else ok min

-- The fuel is for the rounds; the index grows with each, up to the length of the heap.
unfoldable pub push_down : ℕ → Spf → ℕ → Result Spf
unfolding swap cheaper
push_down zero s index = stuck
push_down (suc fuel) s index = cheaper s index (2 * index + 1) >>= λ left.
    cheaper s left (2 * index + 2) >>= λ min.
    if index == min then ok s else (swap s index min >>= λ s₁. push_down fuel s₁ min)

-- The index gets less with each round.
unfoldable pub pull_up : ℕ → Spf → ℕ → Result Spf
unfolding swap
pull_up fuel s zero = ok s
pull_up zero s (suc i) = stuck
pull_up (suc fuel) s (suc i) = heap_cost s (i / 2) >>= λ parent. heap_cost s (suc i) >>= λ child.
    if leb_ℤ parent child then ok s else (swap s (suc i) (i / 2) >>= λ s₁. pull_up fuel s₁ (i / 2))

-- nl, which aborts where two nodes have the same id.
abbrev pub is_less : Ordering → Result Bool
is_less Ordering.lt = ok true
is_less Ordering.eq = aborted
is_less Ordering.gt = ok false

unfoldable pub nl : SpfNode → SpfNode → Result Bool
nl a b = is_less (memcmp node_id_len a.id b.id)

-- pull_up from heap[heapidx]; with -1, what stands before the array would be read.
abbrev pub pull_from : Spf → Option ℕ → Result Spf
pull_from s none = fault
pull_from s (some i) = pull_up i s i

-- A node that was not reached before is put at the end of the heap.
unfoldable pub reach : Spf → ℕ → SpfNode → Result Spf
reach s n node =
    if eqb_ℤ node.cost max_int
    then set_heapidx (record s { heap = s.heap ++ n ∷ [] }) n (some (length s.heap))
    else ok s

unfoldable pub improve : Spf → ℕ → ℕ → SpfNode → ℤ → Result Spf
unfolding reach pull_up
improve s from n node cost = do
  s₁ ← reach s n node
  to ← node_at s₁ n
  pull_from (put_node s₁ n (record to { parent = some from; cost = cost })) to.heapidx

-- Of two parents over which a node costs the same, the one with the lesser id is taken. That the node
-- has no parent, as the source, is not tested.
abbrev pub with_parent : Spf → ℕ → ℕ → SpfNode → Option ℕ → Result Spf
with_parent s from n node none = fault
with_parent s from n node (some parent) = do
  f ← node_at s from
  q ← node_at s parent
  less ← nl f q
  ok (if less then put_node s n (record node { parent = some from }) else s)

-- A sum that is no int, which C leaves undefined, is a fault.
unfoldable pub relax : Spf → ℕ → SpfEdge → Result Spf
unfolding improve nl ◌+ℤ◌
relax s from edge = do
  f ← node_at s from
  to ← node_at s edge.to
  let cost = f.cost +ℤ edge.cost
  if not (is_int cost)
      then fault
      else if ltb_ℤ cost to.cost
      then improve s from edge.to to cost
      else if eqb_ℤ cost to.cost
      then with_parent s from edge.to to to.parent
      else ok s

unfoldable pub relax_all : Spf → ℕ → List SpfEdge → Result Spf
unfolding relax
relax_all s from [] = ok s
relax_all s from (edge ∷ edges) = relax s from edge >>= λ s₁. relax_all s₁ from edges

-- heap[0] is taken out, and the last item put there and pushed down.
unfoldable pub pop : Spf → ℕ → ℕ → Result Spf
unfolding push_down
pop s from zero = set_heapidx (record s { heap = [] }) from none
pop s from (suc n) = do
  last ← item (get_elem? s.heap (suc n))
  s₁ ← set_heapidx (record s { heap = take (suc n) (set s.heap 0 last) }) from none
  s₂ ← set_heapidx s₁ last (some 0)
  push_down (suc n) s₂ 0

-- The loop over the heap, which is an argument beside the state; the fuel is for its rounds, each of
-- which takes a node out.
unfoldable pub run_loop : ℕ → Spf → List ℕ → Result Spf
unfolding pop relax_all
run_loop fuel s [] = ok s
run_loop zero s (from ∷ rest) = stuck
run_loop (suc fuel) s (from ∷ rest) = pop s from (length rest) >>= λ s₁.
    node_at s₁ from >>= λ f. relax_all s₁ from f.edges >>= λ s₂. run_loop fuel s₂ s₂.heap

abbrev pub unreached : SpfNode → SpfNode
unreached node = record node { parent = none; cost = max_int; heapidx = none }

unfoldable pub spf_run : Spf → ℕ → Result Spf
unfolding run_loop
spf_run s source = do
  let nodes = map unreached s.nodes
  node ← node_at (record s { nodes = nodes }) source
  let start = set nodes source (record node { cost = pos 0; heapidx = some 0 })
  run_loop (length nodes) (record { nodes = start; heap = source ∷ [] }) (source ∷ [])
