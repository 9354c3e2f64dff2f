-- ===== src/Avl/Insert.antt =====
-- Ordered insertion and removal keep a list in order, and what a search finds afterwards.
use dvpn.Base.{
  none, some, List, [], ◌∷◌, ◌≡◌, refl, Ordering, if◌then◌else◌, arith, Bool-cases, inl, inr,
}
use dvpn.Bytes.{is_eq, is_lt}
use dvpn.Avl.Order.{IsOrder, IsProbe, first_eq, Each, Sorted, insert_in, erase_in, Each-map}

module _ {ℓ} {A : Type ℓ} (cmp : A → A → Ordering) (order : IsOrder cmp) where
  open order use {swap, trans, same}

  pub cmp_self : (a : A) → cmp a a ≡ Ordering.eq
  cmp_self a = ground (arith, swap a a)

  -- Comparing with a fixed item is a search.
  pub cmp-IsProbe : (a : A) → IsProbe cmp (cmp a)
  cmp-IsProbe a = record {
    up = λ x y h n. ground (arith, trans a x y, same a x y);
    down = λ x y h n.
        ground (arith, swap y a, swap x a, swap x y, swap a x, swap a y, trans x y a, same a y x);
  }

  pub Each-insert_in :
      (P : A → Type 0) (a : A) (xs : List A) → P a → Each P xs → Each P (insert_in cmp a xs)
  unfolding insert_in
  Each-insert_in P a [] p h = (p, tt)
  Each-insert_in P a (x ∷ xs) p (q, h) = elim (Bool-cases (is_lt (cmp a x))) [
    | inl e ↦ rw e (p, (q, h))
    | inr e ↦ rw e (q, Each-insert_in P a xs p h)
  ]

  pub Sorted-insert_in :
      (a : A) (xs : List A)
      → Sorted cmp xs
      → first_eq (cmp a) xs ≡ none
      → Sorted cmp (insert_in cmp a xs)
  unfolding insert_in first_eq
  Sorted-insert_in a [] s n = (tt, tt)
  Sorted-insert_in a (x ∷ xs) (h, s) n = elim (Bool-cases (is_lt (cmp a x))) [
    | inl e ↦ rw e ((ground arith, Each-map xs (λ y k. trans a x y (ground arith) k) h), (h, s))
    | inr e ↦
        rw e (
          Each-insert_in _ a xs (ground (arith, swap a x)) h,
          Sorted-insert_in a xs s (ground arith),
        )
  ]

  -- After an insertion a search stops at the new item, or else where it stopped before.
  pub first_eq-insert_in :
      (probe : A → Ordering) (a : A) (xs : List A)
      → IsProbe cmp probe
      → Sorted cmp xs
      → first_eq (cmp a) xs ≡ none
      → first_eq probe (insert_in cmp a xs)
        ≡ (if is_eq (probe a) then some a else first_eq probe xs)
  unfolding insert_in first_eq
  first_eq-insert_in probe a [] pr s n = refl
  first_eq-insert_in probe a (x ∷ xs) pr (h, s) n =
      ground (arith, swap a x, pr.up x a, pr.down x a, first_eq-insert_in probe a xs pr s)

  pub Each-erase_in :
      (P : A → Type 0) (probe : A → Ordering) (xs : List A) → Each P xs → Each P (erase_in probe xs)
  unfolding erase_in
  Each-erase_in P probe [] h = tt
  Each-erase_in P probe (x ∷ xs) (p, h) = elim (Bool-cases (is_eq (probe x))) [
    | inl e ↦ rw e h
    | inr e ↦ rw e (p, Each-erase_in P probe xs h)
  ]

  pub Sorted-erase_in :
      (probe : A → Ordering) (xs : List A) → Sorted cmp xs → Sorted cmp (erase_in probe xs)
  unfolding erase_in
  Sorted-erase_in probe [] s = tt
  Sorted-erase_in probe (x ∷ xs) (h, s) = elim (Bool-cases (is_eq (probe x))) [
    | inl e ↦ rw e s
    | inr e ↦ rw e (Each-erase_in _ probe xs h, Sorted-erase_in probe xs s)
  ]

  -- What lies behind an item at which a search stops is not found by it.
  first_eq_behind :
      (probe : A → Ordering) (x : A) (xs : List A)
      → IsProbe cmp probe
      → probe x ≡ Ordering.eq
      → Each (λ y. cmp x y ≡ Ordering.lt) xs
      → first_eq probe xs ≡ none
  unfolding first_eq
  first_eq_behind probe x [] pr e h = refl
  first_eq_behind probe x (y ∷ ys) pr e (k, h) =
      ground (arith, pr.up x y, first_eq_behind probe x ys pr e h)

  -- After a removal the search that found the item finds nothing.
  pub first_eq-erase_in_self :
      (probe : A → Ordering) (xs : List A)
      → IsProbe cmp probe
      → Sorted cmp xs
      → first_eq probe (erase_in probe xs) ≡ none
  unfolding erase_in first_eq
  first_eq-erase_in_self probe [] pr s = refl
  first_eq-erase_in_self probe (x ∷ xs) pr (h, s) = elim (Bool-cases (is_eq (probe x))) [
    | inl e ↦ rw e (first_eq_behind probe x xs pr (ground arith) h)
    | inr e ↦ rw (e, e) (first_eq-erase_in_self probe xs pr s)
  ]
