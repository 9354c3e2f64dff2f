-- ===== src/Spf/Moves.antt =====
-- The operations on the heap of spf_run move only nodes that were reached.
use dvpn.Base.{
  ℕ, zero, suc, ◌+◌, ◌*◌, ◌/◌, ◌==◌, List, [], get_elem?, set, take, Option, none, some, Result,
  inl, inr, Bool-cases,
}
use dvpn.Avl.Order.{Each}
use dvpn.Int.{leb_ℤ}
use dvpn.Spf.{
  SpfNode, Spf, item, heap_cost, set_heapidx, swap, cheaper, push_down, pull_up, pull_from, pop,
}
use dvpn.Spf.Ways.{
  Yields, Yields-bind, item-Yields, anything, Each-set, Each-get, Each-take, Low, IsOnWay,
  set_heapidx-IsOnWay,
}

module _ (g : List SpfNode) (source from : ℕ) where
  abbrev pub Goes : Result Spf → Type 0
  Goes r = Yields (IsOnWay g source from) r

  swap-Goes : (s : Spf) (i j : ℕ) → IsOnWay g source from s → Goes (swap s i j)
  unfolding swap
  swap-Goes s i j (w, low, lows) =
      Yields-bind _ (item (get_elem? s.heap i)) _ (item-Yields (get_elem? s.heap i)) (λ a ea.
        Yields-bind _ (item (get_elem? s.heap j)) _ (item-Yields (get_elem? s.heap j)) (λ b eb.
          let s₀ : Spf = record s { heap = set (set s.heap i b) j a } in
          let kept : Each (Low s.nodes) s₀.heap =
            Each-set (Low s.nodes) (set s.heap i b) j a
              (Each-set (Low s.nodes) s.heap i b lows (Each-get (Low s.nodes) s.heap j b lows eb))
              (Each-get (Low s.nodes) s.heap i a lows ea) in
          Yields-bind _ (set_heapidx s₀ b (some i)) _
            (set_heapidx-IsOnWay g source from s₀ b (some i) (w, low, kept))
            (λ s₁ h. set_heapidx-IsOnWay g source from s₁ a (some j) h)))

  push_down-Goes :
      (fuel : ℕ) (s : Spf) (index : ℕ) → IsOnWay g source from s → Goes (push_down fuel s index)
  unfolding push_down
  push_down-Goes zero s index w = tt
  push_down-Goes (suc fuel) s index w =
      Yields-bind _ (cheaper s index (2 * index + 1)) _ (anything (cheaper s index (2 * index + 1)))
        (λ left l.
          Yields-bind _ (cheaper s left (2 * index + 2)) _
            (anything (cheaper s left (2 * index + 2)))
            (λ min m. elim (Bool-cases (index == min)) [
              | inl e ↦ rw e w
              | inr e ↦ rw e (
                  Yields-bind _ (swap s index min) _ (swap-Goes s index min w)
                    (λ s₁ g. push_down-Goes fuel s₁ min g))
            ]))

  pull_up-Goes : (fuel : ℕ) (s : Spf) (i : ℕ) → IsOnWay g source from s → Goes (pull_up fuel s i)
  unfolding pull_up
  pull_up-Goes fuel s zero w = w
  pull_up-Goes zero s (suc i) w = tt
  pull_up-Goes (suc fuel) s (suc i) w =
      Yields-bind _ (heap_cost s (i / 2)) _ (anything (heap_cost s (i / 2))) (λ parent u.
        Yields-bind _ (heap_cost s (suc i)) _ (anything (heap_cost s (suc i))) (λ child v.
          elim (Bool-cases (leb_ℤ parent child)) [
            | inl e ↦ rw e w
            | inr e ↦ rw e (
                Yields-bind _ (swap s (suc i) (i / 2)) _ (swap-Goes s (suc i) (i / 2) w)
                  (λ s₁ g. pull_up-Goes fuel s₁ (i / 2) g))
          ]))

  pub pull_from-Goes : (s : Spf) (i : Option ℕ) → IsOnWay g source from s → Goes (pull_from s i)
  pull_from-Goes s none w = tt
  pull_from-Goes s (some i) w = pull_up-Goes i s i w

  pub pop-Goes : (s : Spf) (n : ℕ) → IsOnWay g source from s → Goes (pop s from n)
  unfolding pop
  pop-Goes s zero (w, low, lows) =
      set_heapidx-IsOnWay g source from (record s { heap = [] }) from none (w, low, tt)
  pop-Goes s (suc n) (w, low, lows) =
      Yields-bind _ (item (get_elem? s.heap (suc n))) _ (item-Yields (get_elem? s.heap (suc n)))
        (λ last e.
          let s₀ : Spf = record s { heap = take (suc n) (set s.heap 0 last) } in
          let kept : Each (Low s.nodes) s₀.heap =
            Each-take (Low s.nodes) (suc n) (set s.heap 0 last) (
              Each-set (Low s.nodes) s.heap 0 last lows
                (Each-get (Low s.nodes) s.heap (suc n) last lows e)) in
          Yields-bind _ (set_heapidx s₀ from none) _
            (set_heapidx-IsOnWay g source from s₀ from none (w, low, kept))
            (λ s₁ a.
              Yields-bind _ (set_heapidx s₁ last (some 0)) _
                (set_heapidx-IsOnWay g source from s₁ last (some 0) a)
                (λ s₂ b. push_down-Goes (suc n) s₂ 0 b)))
