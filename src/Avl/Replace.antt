-- ===== src/Avl/Replace.antt =====
-- Changing the item that a search stops at, and adding an item behind all others.
use dvpn.Base.{
  none, List, [], ◌∷◌, ◌++◌, ◌≡◌, refl, Ordering, arith, if◌then◌else◌, Bool-cases, inl, inr,
}
use dvpn.Bytes.{is_eq}
use dvpn.Avl.Order.{IsOrder, first_eq, Each, Each-map, Sorted, insert_in}

module _ {ℓ} {A : Type ℓ} where
  unfoldable pub replace_in : (A → Ordering) → (A → A) → List A → List A
  replace_in probe f [] = []
  replace_in probe f (x ∷ xs) = (if is_eq (probe x) then f x else x) ∷ replace_in probe f xs

  pub replace_in-append :
      (probe : A → Ordering) (f : A → A) (xs ys : List A)
      → replace_in probe f (xs ++ ys) ≡ replace_in probe f xs ++ replace_in probe f ys
  unfolding replace_in
  replace_in-append probe f [] ys = refl
  replace_in-append probe f (x ∷ xs) ys = rw (replace_in-append probe f xs ys) refl

  pub replace_in-none :
      (probe : A → Ordering) (f : A → A) (xs : List A)
      → first_eq probe xs ≡ none
      → replace_in probe f xs ≡ xs
  unfolding replace_in first_eq
  replace_in-none probe f [] h = refl
  replace_in-none probe f (x ∷ xs) h = ground (arith, replace_in-none probe f xs)

  -- `a` comes after all items of the list.
  abbrev pub IsLast : (A → A → Ordering) → List A → A → Type 0
  IsLast cmp xs a = Each (λ x. cmp x a ≡ Ordering.lt) xs

  pub Each-snoc : (P : A → Type 0) (xs : List A) (a : A) → Each P xs → P a → Each P (xs ++ a ∷ [])
  Each-snoc P [] a h p = (p, tt)
  Each-snoc P (x ∷ xs) a (q, h) p = (q, Each-snoc P xs a h p)

  pub Sorted-snoc :
      (cmp : A → A → Ordering) (xs : List A) (a : A)
      → Sorted cmp xs
      → IsLast cmp xs a
      → Sorted cmp (xs ++ a ∷ [])
  Sorted-snoc cmp [] a s h = (tt, tt)
  Sorted-snoc cmp (x ∷ xs) a (k, s) (l, h) =
      (Each-snoc (λ y. cmp x y ≡ Ordering.lt) xs a k l, Sorted-snoc cmp xs a s h)

module _ {ℓ} {A : Type ℓ} (cmp : A → A → Ordering) (order : IsOrder cmp) where
  open order use {swap}

  pub first_eq_last : (xs : List A) (a : A) → IsLast cmp xs a → first_eq (cmp a) xs ≡ none
  unfolding first_eq
  first_eq_last [] a h = refl
  first_eq_last (x ∷ xs) a (k, h) = ground (arith, swap x a, first_eq_last xs a h)

  pub insert_in_last : (xs : List A) (a : A) → IsLast cmp xs a → insert_in cmp a xs ≡ xs ++ a ∷ []
  unfolding insert_in
  insert_in_last [] a h = refl
  insert_in_last (x ∷ xs) a (k, h) = ground (arith, swap x a, insert_in_last xs a h)

  module _ (c : A) where
    pub Each-replace_in :
        (P : A → Type 0) (xs : List A)
        → ((x : A) → cmp c x ≡ Ordering.eq → P x → P c)
        → Each P xs
        → Each P (replace_in (cmp c) (λ x. c) xs)
    unfolding replace_in
    Each-replace_in P [] f h = tt
    Each-replace_in P (x ∷ xs) f (q, h) = elim (Bool-cases (is_eq (cmp c x))) [
      | inl e ↦ rw e (f x (ground arith) q, Each-replace_in P xs f h)
      | inr e ↦ rw e (q, Each-replace_in P xs f h)
    ]

    below_new : (x y : A) → cmp c y ≡ Ordering.eq → cmp x y ≡ Ordering.lt → cmp x c ≡ Ordering.lt
    below_new x y e h = ground (arith, order.same c y x e, swap x y, swap c x)

    -- The item takes the place of its equal in the order.
    pub Sorted-replace_in :
        (xs : List A) → Sorted cmp xs → Sorted cmp (replace_in (cmp c) (λ x. c) xs)
    unfolding replace_in
    Sorted-replace_in [] s = tt
    Sorted-replace_in (x ∷ xs) (k, s) = elim (Bool-cases (is_eq (cmp c x))) [
      | inl e ↦ rw e (
        Each-replace_in (λ z. cmp c z ≡ Ordering.lt) xs (λ z f h. absurd (ground arith))
            (Each-map xs (λ z h. ground (arith, order.same c x z)) k),
        Sorted-replace_in xs s,
      )
      | inr e ↦ rw e (
        Each-replace_in (λ z. cmp x z ≡ Ordering.lt) xs (λ z f h. below_new x z f h) k,
        Sorted-replace_in xs s,
      )
    ]
