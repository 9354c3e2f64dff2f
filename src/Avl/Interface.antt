-- ===== src/Avl/Interface.antt =====
-- iv_avl_tree_insert and iv_avl_tree_delete of the ivykis library.
use dvpn.Base.{Option, none, some, ◌≡◌, Ordering}
use dvpn.Avl.Order.{IsOrder, Sorted, first_eq, insert_in, erase_in}
use dvpn.Avl.Walk.{Tree, in_order}

-- `insert` is `none` where iv_avl_tree_insert returns -1: the tree holds an equal node. The laws
-- say what the nodes in order are afterwards, which is what iv_avl_tree_for_each walks; how the
-- library balances the tree is not fixed.
pub record AvlLib : Type 1 where
  pub insert : (A : Type 0) → (A → A → Ordering) → A → Tree A → Option (Tree A)
  pub delete : (A : Type 0) → (A → A → Ordering) → A → Tree A → Tree A
  pub insert_fresh :
      (A : Type 0) (cmp : A → A → Ordering)
      → IsOrder cmp
      → (a : A) (t : Tree A) → Sorted cmp (in_order t)
      → first_eq (cmp a) (in_order t) ≡ none
      → (t' : Tree A) × (insert A cmp a t ≡ some t') × (in_order t' ≡ insert_in cmp a (in_order t))
  pub insert_taken :
      (A : Type 0) (cmp : A → A → Ordering)
      → IsOrder cmp
      → (a b : A) (t : Tree A) → Sorted cmp (in_order t)
      → first_eq (cmp a) (in_order t) ≡ some b
      → insert A cmp a t ≡ none
  pub in_order-delete :
      (A : Type 0) (cmp : A → A → Ordering)
      → IsOrder cmp
      → (a : A) (t : Tree A) → Sorted cmp (in_order t)
      → in_order (delete A cmp a t) ≡ erase_in (cmp a) (in_order t)
