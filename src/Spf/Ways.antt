-- ===== src/Spf/Ways.antt =====
-- Ways through a graph, and nodes whose costs are those of ways.
use dvpn.Base.{
  ℕ, zero, suc, ◌≤◌, ◌≡◌, refl, sym, ◌∙◌, subst, ◌==◌, List, [], ◌∷◌, get_elem?, get_elem?-set_ne,
  set, take, Option, none, some, Result, ok, err, fault, aborted, stuck, ◌>>=◌, ◌⊎◌, inl, inr,
  Bool-cases, arith,
}
use dvpn.Bytes.{int_max}
use dvpn.Int.{ℤ, pos, above, ◌+ℤ◌, ◌<ℤ◌, max_int}
use dvpn.Avl.Order.{Each, Each-map}
use dvpn.Spf.{SpfEdge, SpfNode, Spf, item, node_at, put_node, set_heapidx}
use dvpn.Spf.Heap.{get-set_self}

-- A result, if there is one, is one of `Q`.
abbrev pub Yields {ℓ} : {A : Type ℓ} → (A → Type 0) → Result A → Type 0
Yields Q err = Unit
Yields Q aborted = Unit
Yields Q fault = Unit
Yields Q stuck = Unit
Yields Q (ok a) = Q a

pub Yields-bind {ℓ κ} :
    {A : Type ℓ} {B : Type κ} {Q : A → Type 0} (R : B → Type 0) (m : Result A) (f : A → Result B)
    → Yields Q m
    → ((a : A) → Q a → Yields R (f a))
    → Yields R (m >>= f)
Yields-bind R err f h k = tt
Yields-bind R aborted f h k = tt
Yields-bind R fault f h k = tt
Yields-bind R stuck f h k = tt
Yields-bind R (ok a) f h k = k a h

pub item-Yields : {A : Type 0} → (o : Option A) → Yields (λ a. o ≡ some a) (item o)
item-Yields none = tt
item-Yields (some a) = refl

pub anything {ℓ} : {A : Type ℓ} → (m : Result A) → Yields (λ a. Unit) m
anything err = tt
anything aborted = tt
anything fault = tt
anything stuck = tt
anything (ok a) = tt

abbrev pub Occurs : SpfEdge → List SpfEdge → Type 0
Occurs e [] = ⊥
Occurs e (x ∷ xs) = (x ≡ e) ⊎ Occurs e xs

pub Each-Occurs : (edges : List SpfEdge) → Each (λ e. Occurs e edges) edges
Each-Occurs [] = tt
Each-Occurs (x ∷ xs) = (inl refl, Each-map xs (λ e h. inr h) (Each-Occurs xs))

-- A way through the graph from the source to a node, with the sum of the costs of its edges.
pub data Walk (g : List SpfNode) (source : ℕ) : ℕ → ℤ → Type 0 where
  start : Walk g source source (pos 0)
  along :
      (n : ℕ) (c : ℤ) (node : SpfNode) (e : SpfEdge)
      → Walk g source n c
      → get_elem? g n ≡ some node
      → Occurs e node.edges
      → Walk g source e.to (c +ℤ e.cost)

module _ {A : Type 0} (P : A → Type 0) where
  pub Each-set : (xs : List A) (i : ℕ) (v : A) → Each P xs → P v → Each P (set xs i v)
  Each-set [] i v h k = tt
  Each-set (x ∷ xs) zero v (q, h) k = (k, h)
  Each-set (x ∷ xs) (suc i) v (q, h) k = (q, Each-set xs i v h k)

  pub Each-get : (xs : List A) (i : ℕ) (a : A) → Each P xs → get_elem? xs i ≡ some a → P a
  Each-get [] i a h e = absurd (ground arith)
  Each-get (x ∷ xs) zero a (q, h) e = subst HoldsFor e q
    where
      HoldsFor : Option A → Type 0
      HoldsFor none = Unit
      HoldsFor (some b) = P b
  Each-get (x ∷ xs) (suc i) a (q, h) e = Each-get xs i a h e

  pub Each-take : (n : ℕ) (xs : List A) → Each P xs → Each P (take n xs)
  Each-take zero xs h = tt
  Each-take (suc n) [] h = tt
  Each-take (suc n) (x ∷ xs) (q, h) = (q, Each-take n xs h)

-- The node of a place costs less than INT_MAX: it was reached.
abbrev pub Low : List SpfNode → ℕ → Type 0
Low nodes n = (node : SpfNode) → get_elem? nodes n ≡ some node → node.cost <ℤ max_int

-- What holds of the node that was written, and of the others.
module _ (P : ℕ → SpfNode → Type 0) where
  abbrev At : ℕ → Option SpfNode → Type 0
  At n none = Unit
  At n (some node) = P n node

  pub set_elsewhere :
      (nodes : List SpfNode) (n : ℕ) (old new : SpfNode) (m : ℕ) (node : SpfNode)
      → get_elem? nodes n ≡ some old
      → P n new
      → ((node : SpfNode) → get_elem? nodes m ≡ some node → P m node)
      → get_elem? (set nodes n new) m ≡ some node
      → P m node
  set_elsewhere nodes n old new m node e h w k = elim (Bool-cases (m == n)) [
    | inl q ↦
        let same : m ≡ n = ground arith in
        let is : some new ≡ some node =
          sym (get-set_self nodes n old new e)
          ∙ subst (λ i. get_elem? (set nodes n new) i ≡ some node) same k in
        subst (λ i. P i node) (sym same) (subst (λ o. At n o) is h)
    | inr q ↦ w node (sym (get_elem?-set_ne nodes new (λ d. absurd (ground arith))) ∙ k)
  ]

pub Low-set :
    (nodes : List SpfNode) (n : ℕ) (old new : SpfNode) (m : ℕ)
    → get_elem? nodes n ≡ some old
    → (old.cost <ℤ max_int → new.cost <ℤ max_int)
    → Low nodes m
    → Low (set nodes n new) m
Low-set nodes n old new m e f low node k = elim (Bool-cases (m == n)) [
  | inl q ↦
      let same : m ≡ n = ground arith in
      set_elsewhere (λ i x. x.cost <ℤ max_int) nodes n old new m node e
        (f (low old (subst (λ i. get_elem? nodes i ≡ some old) (sym same) e))) low k
  | inr q ↦ low node (sym (get_elem?-set_ne nodes new (λ d. absurd (ground arith))) ∙ k)
]

pub Low-new :
    (nodes : List SpfNode) (n : ℕ) (old new : SpfNode)
    → get_elem? nodes n ≡ some old
    → new.cost <ℤ max_int
    → Low (set nodes n new) n
Low-new nodes n old new e h node k = subst CostsLess (sym (get-set_self nodes n old new e) ∙ k) h
  where
    CostsLess : Option SpfNode → Type 0
    CostsLess none = Unit
    CostsLess (some x) = x.cost <ℤ max_int

module _ (g : List SpfNode) (source : ℕ) where
  -- The node has the edges that it had, and costs INT_MAX at most; if it costs less, that is the cost of
  -- a way.
  abbrev pub IsWalked : ℕ → SpfNode → Type 0
  IsWalked n node =
      ((o : SpfNode) × (get_elem? g n ≡ some o) × (o.edges ≡ node.edges))
      × (above node.cost ≤ int_max)
      × (node.cost <ℤ max_int → Walk g source n node.cost)

  abbrev pub Walked : List SpfNode → Type 0
  Walked nodes = (n : ℕ) (node : SpfNode) → get_elem? nodes n ≡ some node → IsWalked n node

  pub Walked-set :
      (nodes : List SpfNode) (n : ℕ) (old new : SpfNode)
      → get_elem? nodes n ≡ some old
      → Walked nodes
      → IsWalked n new
      → Walked (set nodes n new)
  Walked-set nodes n old new e w h m node k =
      set_elsewhere IsWalked nodes n old new m node e h (w m) k

  -- While the edges of `from` are looked at: `from` and all nodes of the heap were reached.
  abbrev pub IsOnWay : ℕ → Spf → Type 0
  IsOnWay from s = Walked s.nodes × Low s.nodes from × Each (Low s.nodes) s.heap

  pub IsOnWay-set :
      (from : ℕ) (s : Spf) (n : ℕ) (old new : SpfNode)
      → get_elem? s.nodes n ≡ some old
      → IsWalked n new
      → (old.cost <ℤ max_int → new.cost <ℤ max_int)
      → IsOnWay from s
      → IsOnWay from (put_node s n new)
  IsOnWay-set from s n old new e h f (w, low, lows) = (
    Walked-set s.nodes n old new e w h,
    Low-set s.nodes n old new from e f low,
    Each-map s.heap (λ m k. Low-set s.nodes n old new m e f k) lows,
  )

  pub set_heapidx-IsOnWay :
      (from : ℕ) (s : Spf) (n : ℕ) (i : Option ℕ)
      → IsOnWay from s
      → Yields (IsOnWay from) (set_heapidx s n i)
  set_heapidx-IsOnWay from s n i w =
      Yields-bind _ (node_at s n) _ (item-Yields (get_elem? s.nodes n)) (λ node e.
        IsOnWay-set from s n node (record node { heapidx = i }) e (w.0 n node e) (λ h. h) w)
