-- ===== src/Avl/Walk.antt =====
-- Walking down a tree in order finds what a search of its items in order finds.
use dvpn.Base.{Option, none, some, List, [], ◌∷◌, ◌++◌, ◌≡◌, ◌≢◌, refl, Ordering, arith}
use dvpn.Avl.Order.{
  IsProbe, first_eq, Each, Sorted, Sorted-append, first_eq-append, first_eq-append_left,
}

-- A node has its left subtree, what it stands in, and its right subtree; the height that the
-- library keeps in a node is its own.
pub data Tree {ℓ} (A : Type ℓ) : Type ℓ where
  leaf : Tree A
  node : Tree A → A → Tree A → Tree A

module _ {ℓ} {A : Type ℓ} where
  unfoldable pub in_order : Tree A → List A
  in_order leaf = []
  in_order (node l a r) = in_order l ++ a ∷ in_order r

  -- The loop by which the program searches its trees: left if the answer is negative, right if it
  -- is positive, and stop at 0 or at a null pointer.
  unfoldable pub walk : (A → Ordering) → Tree A → Option A
  walk probe leaf = none
  walk probe (node l a r) = elim (probe a) [
    | Ordering.eq ↦ some a
    | Ordering.lt ↦ walk probe l
    | Ordering.gt ↦ walk probe r
  ]

module _ {ℓ} {A : Type ℓ} (cmp : A → A → Ordering) (probe : A → Ordering) where
  pub none_before :
      (a : A) (xs : List A)
      → IsProbe cmp probe
      → Each (λ x. cmp x a ≡ Ordering.lt) xs
      → probe a ≢ Ordering.lt
      → first_eq probe xs ≡ none
  unfolding first_eq
  none_before a [] pr h n = refl
  none_before a (x ∷ xs) pr (k, h) n = ground (arith, pr.down x a k n, none_before a xs pr h n)

  pub none_after :
      (a : A) (ys : List A)
      → IsProbe cmp probe
      → Each (λ y. cmp a y ≡ Ordering.lt) ys
      → probe a ≢ Ordering.gt
      → first_eq probe ys ≡ none
  unfolding first_eq
  none_after a [] pr h n = refl
  none_after a (y ∷ ys) pr (k, h) n = ground (arith, pr.up a y k n, none_after a ys pr h n)

  -- On a tree in order the search loop finds exactly the item that stands there.
  pub walk-first_eq :
      (t : Tree A)
      → IsProbe cmp probe
      → Sorted cmp (in_order t)
      → walk probe t ≡ first_eq probe (in_order t)
  unfolding walk in_order first_eq
  walk-first_eq leaf pr s = refl
  walk-first_eq (node l a r) pr s =
      let (sl, before, after, sr) = Sorted-append cmp (in_order l) a (in_order r) s in
      ground (
        arith,
        walk-first_eq l pr sl,
        walk-first_eq r pr sr,
        none_before a (in_order l) pr before,
        none_after a (in_order r) pr after,
        first_eq-append probe (in_order l) (a ∷ in_order r),
        first_eq-append_left probe (in_order l) (a ∷ in_order r),
      )
