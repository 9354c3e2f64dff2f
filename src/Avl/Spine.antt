-- ===== src/Avl/Spine.antt =====
-- An implementation of the library's tree operations by trees that lean to the right, which shows
-- that the laws can hold and lets examples run.
use dvpn.Base.{Option, none, some, List, [], ◌∷◌, ◌≡◌, refl, ap, ◌∙◌, Ordering}
use dvpn.Avl.Order.{first_eq, insert_in, erase_in}
use dvpn.Avl.Walk.{Tree, leaf, node, in_order}
use dvpn.Avl.Interface.{AvlLib}

module _ {A : Type 0} where
  build : List A → Tree A
  build [] = leaf
  build (x ∷ xs) = node leaf x (build xs)

  in_order-build : (xs : List A) → in_order (build xs) ≡ xs
  unfolding build in_order
  in_order-build [] = refl
  in_order-build (x ∷ xs) = ap (λ l. x ∷ l) (in_order-build xs)

insert_if : (A : Type 0) → (A → A → Ordering) → A → Tree A → Option A → Option (Tree A)
insert_if A cmp a t (some b) = none
insert_if A cmp a t none = some (build (insert_in cmp a (in_order t)))

unfoldable pub spine_insert : (A : Type 0) → (A → A → Ordering) → A → Tree A → Option (Tree A)
unfolding build insert_if first_eq insert_in in_order
spine_insert A cmp a t = insert_if A cmp a t (first_eq (cmp a) (in_order t))

unfoldable pub spine_delete : (A : Type 0) → (A → A → Ordering) → A → Tree A → Tree A
unfolding build erase_in in_order
spine_delete A cmp a t = build (erase_in (cmp a) (in_order t))

spine_insert_lem :
    (A : Type 0) (cmp : A → A → Ordering) (a : A) (t : Tree A)
    → spine_insert A cmp a t ≡ insert_if A cmp a t (first_eq (cmp a) (in_order t))
unfolding spine_insert
spine_insert_lem A cmp a t = refl

spine_delete_lem :
    (A : Type 0) (cmp : A → A → Ordering) (a : A) (t : Tree A)
    → spine_delete A cmp a t ≡ build (erase_in (cmp a) (in_order t))
unfolding spine_delete
spine_delete_lem A cmp a t = refl

pub spine_fresh :
    (A : Type 0) (cmp : A → A → Ordering) (a : A) (t : Tree A)
    → first_eq (cmp a) (in_order t) ≡ none
    → (t' : Tree A) × (spine_insert A cmp a t ≡ some t')
      × (in_order t' ≡ insert_in cmp a (in_order t))
unfolding insert_if
spine_fresh A cmp a t n =
    let xs = insert_in cmp a (in_order t) in
    (build xs, spine_insert_lem A cmp a t ∙ ap (insert_if A cmp a t) n, in_order-build xs)

pub spine_taken :
    (A : Type 0) (cmp : A → A → Ordering) (a b : A) (t : Tree A)
    → first_eq (cmp a) (in_order t) ≡ some b
    → spine_insert A cmp a t ≡ none
unfolding insert_if
spine_taken A cmp a b t e = spine_insert_lem A cmp a t ∙ ap (insert_if A cmp a t) e

pub in_order-spine_delete :
    (A : Type 0) (cmp : A → A → Ordering) (a : A) (t : Tree A)
    → in_order (spine_delete A cmp a t) ≡ erase_in (cmp a) (in_order t)
in_order-spine_delete A cmp a t = rw spine_delete_lem (in_order-build _)

abbrev pub spine : AvlLib
spine = record {
  insert = spine_insert;
  delete = spine_delete;
  insert_fresh = λ A cmp o a t s n. spine_fresh A cmp a t n;
  insert_taken = λ A cmp o a b t s e. spine_taken A cmp a b t e;
  in_order-delete = λ A cmp o a t s. in_order-spine_delete A cmp a t;
}
