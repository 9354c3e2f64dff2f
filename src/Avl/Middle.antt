-- ===== src/Avl/Middle.antt =====
-- Taking the item in the middle of a list in order out, and putting one in its place.
use dvpn.Base.{List, [], ◌∷◌, ◌++◌, none, some, ◌≡◌, refl, ◌∙◌, Ordering, arith}
use dvpn.Avl.Order.{
  IsOrder, first_eq, Each, Each-map, Each-append, Each-append_left, Each-append_right, Sorted,
  insert_in, erase_in,
}

module _ {ℓ} {A : Type ℓ} (cmp : A → A → Ordering) (order : IsOrder cmp) where
  open order use {swap, same}

  module _ (a c : A) (e : cmp c a ≡ Ordering.eq) where
    -- `c` stands where `a` does.
    pub Sorted-in_place : (xs ys : List A) → Sorted cmp (xs ++ a ∷ ys) → Sorted cmp (xs ++ c ∷ ys)
    Sorted-in_place [] ys (h, s) = (Each-map ys (λ y k. same c a y e ∙ k) h, s)
    Sorted-in_place (x ∷ xs) ys (h, s) =
        let at = Each-append_right _ xs (a ∷ ys) h in
        (
          Each-append _ xs (c ∷ ys) (Each-append_left _ xs (a ∷ ys) h)
              (ground (arith, at.0, swap x a, swap x c, same c a x), at.1),
          Sorted-in_place xs ys s,
        )

    pub Sorted-without : (xs ys : List A) → Sorted cmp (xs ++ a ∷ ys) → Sorted cmp (xs ++ ys)
    Sorted-without [] ys (h, s) = s
    Sorted-without (x ∷ xs) ys (h, s) = (
      Each-append _ xs ys (Each-append_left _ xs (a ∷ ys) h) (Each-append_right _ xs (a ∷ ys) h).1,
      Sorted-without xs ys s,
    )

    pub erase_in_place :
        (xs ys : List A) → Sorted cmp (xs ++ a ∷ ys) → erase_in (cmp c) (xs ++ a ∷ ys) ≡ xs ++ ys
    unfolding erase_in
    erase_in_place [] ys s = rw e refl
    erase_in_place (x ∷ xs) ys (h, s) =
        let at = Each-append_right _ xs (a ∷ ys) h in
        ground (arith, at.0, swap x a, same c a x, erase_in_place xs ys s)

    pub first_eq_in_place :
        (xs ys : List A) → Sorted cmp (xs ++ a ∷ ys) → first_eq (cmp c) (xs ++ a ∷ ys) ≡ some a
    unfolding first_eq
    first_eq_in_place [] ys s = rw e refl
    first_eq_in_place (x ∷ xs) ys (h, s) =
        let at = Each-append_right _ xs (a ∷ ys) h in
        ground (arith, at.0, swap x a, same c a x, first_eq_in_place xs ys s)

    none_behind : (ys : List A) → Each (λ y. cmp a y ≡ Ordering.lt) ys → first_eq (cmp c) ys ≡ none
    unfolding first_eq
    none_behind [] h = refl
    none_behind (y ∷ ys) (k, h) = ground (arith, same c a y, none_behind ys h)

    pub first_eq_without :
        (xs ys : List A) → Sorted cmp (xs ++ a ∷ ys) → first_eq (cmp c) (xs ++ ys) ≡ none
    unfolding first_eq
    first_eq_without [] ys (h, s) = none_behind ys h
    first_eq_without (x ∷ xs) ys (h, s) =
        let at = Each-append_right _ xs (a ∷ ys) h in
        ground (arith, at.0, swap x a, same c a x, first_eq_without xs ys s)

    insert_front :
        (ys : List A) → Each (λ y. cmp a y ≡ Ordering.lt) ys → insert_in cmp c ys ≡ c ∷ ys
    unfolding insert_in
    insert_front [] h = refl
    insert_front (y ∷ ys) (k, h) = ground (arith, same c a y)

    pub insert_in_place :
        (xs ys : List A) → Sorted cmp (xs ++ a ∷ ys) → insert_in cmp c (xs ++ ys) ≡ xs ++ c ∷ ys
    unfolding insert_in
    insert_in_place [] ys (h, s) = insert_front ys h
    insert_in_place (x ∷ xs) ys (h, s) =
        let at = Each-append_right _ xs (a ∷ ys) h in
        ground (arith, at.0, swap x a, same c a x, insert_in_place xs ys s)
