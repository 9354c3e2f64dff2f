-- ===== src/Avl/Order.antt =====
-- Comparison functions, and lists kept in their order.
use dvpn.Base.{
  Option, none, some, List, [], ◌∷◌, ◌++◌, ◌≡◌, ◌≢◌, refl, Ordering, if◌then◌else◌, arith,
  Bool-cases, inl, inr, subst,
}
use dvpn.Bytes.{opposite, is_eq, is_lt}

-- A comparison function that a tree may be ordered by.
pub record IsOrder {ℓ} {A : Type ℓ} (cmp : A → A → Ordering) : Type ℓ where
  pub swap : (a b : A) → cmp b a ≡ opposite (cmp a b)
  pub trans : (a b c : A) → cmp a b ≡ Ordering.lt → cmp b c ≡ Ordering.lt → cmp a c ≡ Ordering.lt
  pub same : (a b c : A) → cmp a b ≡ Ordering.eq → cmp a c ≡ cmp b c

-- A search: `probe x` says on which side of `x` the thing sought lies.
pub record IsProbe {ℓ} {A : Type ℓ} (cmp : A → A → Ordering) (probe : A → Ordering) : Type ℓ where
  pub up : (x y : A) → cmp x y ≡ Ordering.lt → probe x ≢ Ordering.gt → probe y ≡ Ordering.lt
  pub down : (x y : A) → cmp x y ≡ Ordering.lt → probe y ≢ Ordering.lt → probe x ≡ Ordering.gt

module _ {ℓ} {A : Type ℓ} where
  -- The first item that the search stops at.
  unfoldable pub first_eq : (A → Ordering) → List A → Option A
  first_eq probe [] = none
  first_eq probe (x ∷ xs) = if is_eq (probe x) then some x else first_eq probe xs

  abbrev pub Each : (A → Type 0) → List A → Type 0
  Each P [] = Unit
  Each P (x ∷ xs) = P x × Each P xs

  abbrev pub Sorted : (A → A → Ordering) → List A → Type 0
  Sorted cmp [] = Unit
  Sorted cmp (x ∷ xs) = Each (λ y. cmp x y ≡ Ordering.lt) xs × Sorted cmp xs

  unfoldable pub insert_in : (A → A → Ordering) → A → List A → List A
  insert_in cmp a [] = a ∷ []
  insert_in cmp a (x ∷ xs) = if is_lt (cmp a x) then a ∷ x ∷ xs else x ∷ insert_in cmp a xs

  unfoldable pub erase_in : (A → Ordering) → List A → List A
  erase_in probe [] = []
  erase_in probe (x ∷ xs) = if is_eq (probe x) then xs else x ∷ erase_in probe xs

  pub Each-map : {P Q : A → Type 0} (xs : List A) → ((x : A) → P x → Q x) → Each P xs → Each Q xs
  Each-map [] f h = tt
  Each-map (x ∷ xs) f (p, h) = (f x p, Each-map xs f h)

  pub Each-append : (P : A → Type 0) (xs ys : List A) → Each P xs → Each P ys → Each P (xs ++ ys)
  Each-append P [] ys h k = k
  Each-append P (x ∷ xs) ys (p, h) k = (p, Each-append P xs ys h k)

  pub Each-append_left : (P : A → Type 0) (xs ys : List A) → Each P (xs ++ ys) → Each P xs
  Each-append_left P [] ys h = tt
  Each-append_left P (x ∷ xs) ys (p, h) = (p, Each-append_left P xs ys h)

  pub Each-append_right : (P : A → Type 0) (xs ys : List A) → Each P (xs ++ ys) → Each P ys
  Each-append_right P [] ys h = h
  Each-append_right P (x ∷ xs) ys (p, h) = Each-append_right P xs ys h

  -- The items that come before and after the one in the middle.
  pub Sorted-append :
      (cmp : A → A → Ordering) (xs : List A) (a : A) (ys : List A)
      → Sorted cmp (xs ++ a ∷ ys)
      → Sorted cmp xs
        × Each (λ x. cmp x a ≡ Ordering.lt) xs
        × Each (λ y. cmp a y ≡ Ordering.lt) ys
        × Sorted cmp ys
  Sorted-append cmp [] a ys (h, s) = (tt, tt, h, s)
  Sorted-append cmp (x ∷ xs) a ys (h, s) =
      let (s₁, b, c, s₂) = Sorted-append cmp xs a ys s in
      ((Each-append_left _ xs (a ∷ ys) h, s₁), ((Each-append_right _ xs (a ∷ ys) h).0, b), c, s₂)

  pub first_eq-append :
      (probe : A → Ordering) (xs ys : List A)
      → first_eq probe xs ≡ none
      → first_eq probe (xs ++ ys) ≡ first_eq probe ys
  unfolding first_eq
  first_eq-append probe [] ys h = refl
  first_eq-append probe (x ∷ xs) ys h = ground (arith, first_eq-append probe xs ys)

  pub first_eq-append_left :
      (probe : A → Ordering) (xs ys : List A)
      → first_eq probe ys ≡ none
      → first_eq probe (xs ++ ys) ≡ first_eq probe xs
  unfolding first_eq
  first_eq-append_left probe [] ys h = h
  first_eq-append_left probe (x ∷ xs) ys h = ground (arith, first_eq-append_left probe xs ys h)

  pub first_eq-none :
      (probe : A → Ordering) (xs : List A)
      → Each (λ x. probe x ≢ Ordering.eq) xs
      → first_eq probe xs ≡ none
  unfolding first_eq
  first_eq-none probe [] h = refl
  first_eq-none probe (x ∷ xs) (p, h) = ground (arith, p, first_eq-none probe xs h)

  -- What a search finds.
  pub first_eq-is_eq :
      (probe : A → Ordering) (xs : List A) (a : A)
      → first_eq probe xs ≡ some a
      → probe a ≡ Ordering.eq
  unfolding first_eq
  first_eq-is_eq probe [] a h = absurd (ground arith)
  first_eq-is_eq probe (x ∷ xs) a h = ground (arith, first_eq-is_eq probe xs a)

  pub Each-first_eq :
      (P : A → Type 0) (probe : A → Ordering) (xs : List A) (a : A)
      → Each P xs
      → first_eq probe xs ≡ some a
      → P a
  unfolding first_eq
  Each-first_eq P probe [] a h e = absurd (ground arith)
  Each-first_eq P probe (x ∷ xs) a (q, h) e = elim (Bool-cases (is_eq (probe x))) [
    | inl t ↦ subst P (ground arith) q
    | inr t ↦ Each-first_eq P probe xs a h (ground arith)
  ]
