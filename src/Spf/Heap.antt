-- ===== src/Spf/Heap.antt =====
-- The operations on the heap of spf_run end, and change neither its length nor what was reached.
use dvpn.Base.{
  ℕ, zero, suc, ◌+◌, ◌*◌, ◌/◌, ◌≤◌, ◌<◌, ◌≡◌, refl, ◌∙◌, ltb, ◌==◌, if◌then◌else◌, List, [], ◌∷◌,
  length, length-set, get_elem?, set, Option, none, some, Result, ok, err, fault, aborted, stuck,
  ◌>>=◌, ◌⊎◌, inl, inr, Bool-cases, arith,
}
use dvpn.Int.{leb_ℤ, ltb_ℤ, max_int}
use dvpn.Spf.{
  SpfNode, Spf, item, node_at, heap_cost, set_heapidx, swap, cheaper, push_down, pull_up,
}

-- There is fuel enough, and a result is one of `Q`.
abbrev pub Ends {ℓ} : {A : Type ℓ} → (A → Type 0) → Result A → Type 0
Ends Q err = Unit
Ends Q aborted = Unit
Ends Q fault = Unit
Ends Q stuck = ⊥
Ends Q (ok a) = Q a

pub Ends-bind {ℓ κ} :
    {A : Type ℓ} {B : Type κ} {Q : A → Type 0} (R : B → Type 0) (m : Result A) (f : A → Result B)
    → Ends Q m
    → ((a : A) → Q a → Ends R (f a))
    → Ends R (m >>= f)
Ends-bind R err f h k = tt
Ends-bind R aborted f h k = tt
Ends-bind R fault f h k = tt
Ends-bind R stuck f h k = absurd h
Ends-bind R (ok a) f h k = k a h

pub Ends-map {ℓ} :
    {A : Type ℓ} {Q R : A → Type 0} (m : Result A) → Ends Q m → ((a : A) → Q a → R a) → Ends R m
Ends-map err h k = tt
Ends-map aborted h k = tt
Ends-map fault h k = tt
Ends-map stuck h k = absurd h
Ends-map (ok a) h k = k a h

pub item-Ends : {A : Type 0} → (o : Option A) → Ends (λ a. o ≡ some a) (item o)
item-Ends none = tt
item-Ends (some a) = refl

-- The nodes that were not reached yet, and those in the heap.
abbrev pub one : SpfNode → ℕ
one node = if leb_ℤ max_int node.cost then 1 else 0

unfoldable pub unseen : List SpfNode → ℕ
unseen [] = 0
unseen (node ∷ nodes) = one node + unseen nodes

pub unseen-set :
    (nodes : List SpfNode) (n : ℕ) (node new : SpfNode)
    → get_elem? nodes n ≡ some node
    → unseen (set nodes n new) + one node ≡ unseen nodes + one new
unfolding unseen
unseen-set [] n node new e = absurd (ground arith)
unseen-set (x ∷ nodes) zero node new e = ground arith
unseen-set (x ∷ nodes) (suc n) node new e = omega (arith, unseen-set nodes n node new e)

pub get-set_self :
    (nodes : List SpfNode) (n : ℕ) (node new : SpfNode)
    → get_elem? nodes n ≡ some node
    → get_elem? (set nodes n new) n ≡ some new
get-set_self [] n node new e = absurd (ground arith)
get-set_self (x ∷ nodes) zero node new e = refl
get-set_self (x ∷ nodes) (suc n) node new e = get-set_self nodes n node new e

-- Neither number is changed.
abbrev pub Same : Spf → Spf → Type 0
Same s s' = (unseen s'.nodes ≡ unseen s.nodes) × (length s'.heap ≡ length s.heap)

pub set_heapidx-Ends : (s : Spf) (n : ℕ) (i : Option ℕ) → Ends (Same s) (set_heapidx s n i)
set_heapidx-Ends s n i =
    Ends-bind _ (node_at s n) _ (item-Ends (get_elem? s.nodes n))
      (λ node e. (omega (arith, unseen-set s.nodes n node (record node { heapidx = i }) e), refl))

swap-Ends : (s : Spf) (i j : ℕ) → Ends (Same s) (swap s i j)
unfolding swap
swap-Ends s i j =
    Ends-bind _ (item (get_elem? s.heap i)) _ (item-Ends (get_elem? s.heap i)) (λ a ea.
      Ends-bind _ (item (get_elem? s.heap j)) _ (item-Ends (get_elem? s.heap j)) (λ b eb.
        let s₀ : Spf = record s { heap = set (set s.heap i b) j a } in
        Ends-bind _ (set_heapidx s₀ b (some i)) _ (set_heapidx-Ends s₀ b (some i)) (λ s₁ h.
          Ends-map (set_heapidx s₁ a (some j)) (set_heapidx-Ends s₁ a (some j)) (λ s₂ k.
            (k.0 ∙ h.0, k.1 ∙ h.1 ∙ length-set (set s.heap i b) j a ∙ length-set s.heap i b)))))

heap_cost-Ends : (s : Spf) (i : ℕ) → Ends (λ c. Unit) (heap_cost s i)
heap_cost-Ends s i =
    Ends-bind _ (item (get_elem? s.heap i)) _ (item-Ends (get_elem? s.heap i))
      (λ n e. Ends-bind _ (node_at s n) _ (item-Ends (get_elem? s.nodes n)) (λ node k. tt))

cheaper-Ends :
    (s : Spf) (min child : ℕ)
    → Ends (λ m. (m ≡ min) ⊎ ((m ≡ child) × (child < length s.heap))) (cheaper s min child)
unfolding cheaper
cheaper-Ends s min child = elim (Bool-cases (ltb child (length s.heap))) [
  | inl e ↦ rw e (
      Ends-bind _ (heap_cost s min) _ (heap_cost-Ends s min) (λ a u.
        Ends-bind _ (heap_cost s child) _ (heap_cost-Ends s child) (λ b v.
          elim (Bool-cases (ltb_ℤ b a)) [
            | inl f ↦ rw f (inr (refl, ground arith))
            | inr f ↦ rw f (inl refl)
          ])))
  | inr e ↦ rw e (inl refl)
]

pub push_down-Ends :
    (fuel : ℕ) (s : Spf) (index : ℕ)
    → length s.heap ≤ fuel + index
    → 1 ≤ fuel
    → Ends (Same s) (push_down fuel s index)
unfolding push_down
push_down-Ends zero s index h k = absurd (omega arith)
push_down-Ends (suc fuel) s index h k =
    Ends-bind _ (cheaper s index (2 * index + 1)) _ (cheaper-Ends s index (2 * index + 1))
      (λ left l.
        Ends-bind _ (cheaper s left (2 * index + 2)) _ (cheaper-Ends s left (2 * index + 2))
          (λ min m. elim (Bool-cases (index == min)) [
            | inl e ↦ rw e (refl, refl)
            | inr e ↦ rw e (
                Ends-bind _ (swap s index min) _ (swap-Ends s index min) (λ s₁ g.
                  Ends-map (push_down fuel s₁ min)
                    (push_down-Ends fuel s₁ min (ground (arith, g.1)) (ground arith))
                    (λ s₂ q. (q.0 ∙ g.0, q.1 ∙ g.1))))
          ]))

pub pull_up-Ends : (fuel : ℕ) (s : Spf) (i : ℕ) → i ≤ fuel → Ends (Same s) (pull_up fuel s i)
unfolding pull_up
pull_up-Ends fuel s zero h = (refl, refl)
pull_up-Ends zero s (suc i) h = absurd (omega arith)
pull_up-Ends (suc fuel) s (suc i) h =
    Ends-bind _ (heap_cost s (i / 2)) _ (heap_cost-Ends s (i / 2)) (λ parent u.
      Ends-bind _ (heap_cost s (suc i)) _ (heap_cost-Ends s (suc i)) (λ child v.
        elim (Bool-cases (leb_ℤ parent child)) [
          | inl e ↦ rw e (refl, refl)
          | inr e ↦ rw e (
              Ends-bind _ (swap s (suc i) (i / 2)) _ (swap-Ends s (suc i) (i / 2)) (λ s₁ g.
                Ends-map (pull_up fuel s₁ (i / 2)) (pull_up-Ends fuel s₁ (i / 2) (omega arith))
                  (λ s₂ q. (q.0 ∙ g.0, q.1 ∙ g.1))))
        ]))
