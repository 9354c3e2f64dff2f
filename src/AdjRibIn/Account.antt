-- ===== src/AdjRibIn/Account.antt =====
-- The size of an adj_rib_in is the sum over the advertisements in it that were accepted, and bounded.
use dvpn.Base.{
  ℕ, ◌+◌, ◌≡◌, refl, ap, ◌∙◌, sym, List, [], ◌∷◌, take, some, arith, Ordering, Bool-cases, inl, inr,
}
use dvpn.Bytes.{is_eq, opposite}
use dvpn.Bytes.Lex.{lex, lex-eq, lex-swap, lex_trans}
use dvpn.Bytes.Memcmp.{memcmp-lex-take}
use dvpn.Avl.Replace.{replace_in, replace_in-none}
use dvpn.Avl.Order.{IsOrder, IsProbe, Sorted, first_eq, insert_in, erase_in}
use dvpn.Avl.Walk.{none_after}
use dvpn.AdjRibIn.Rib.{Obj, compare_refs}

id_order : Obj → Obj → Ordering
id_order a b = lex (take 32 a.lsa.id) (take 32 b.lsa.id)

compare_refs-eq-id_order : (a b : Obj) → compare_refs a b ≡ id_order a b
unfolding compare_refs id_order
compare_refs-eq-id_order a b = memcmp-lex-take 32 a.lsa.id b.lsa.id

id_order_same : (a b c : Obj) → id_order a b ≡ Ordering.eq → id_order a c ≡ id_order b c
unfolding id_order
id_order_same a b c h = rw (lex-eq (take 32 a.lsa.id) (take 32 b.lsa.id) h) refl

-- The comparison of ids is an order that a tree can be kept in.
pub compare_refs-IsOrder : IsOrder compare_refs
unfolding id_order
compare_refs-IsOrder = record {
  swap = λ a b.
      compare_refs-eq-id_order b a
      ∙ lex-swap (take 32 a.lsa.id) (take 32 b.lsa.id)
      ∙ ap opposite (sym (compare_refs-eq-id_order a b));
  trans = λ a b c h k.
      compare_refs-eq-id_order a c
      ∙ lex_trans (take 32 a.lsa.id) (take 32 b.lsa.id) (take 32 c.lsa.id)
          (sym (compare_refs-eq-id_order a b) ∙ h) (sym (compare_refs-eq-id_order b c) ∙ k);
  same = λ a b c h.
      compare_refs-eq-id_order a c
      ∙ id_order_same a b c (sym (compare_refs-eq-id_order a b) ∙ h)
      ∙ sym (compare_refs-eq-id_order b c);
}

-- A sum over the items of a list.
unfoldable pub total : (Obj → ℕ) → List Obj → ℕ
total weight [] = 0
total weight (o ∷ os) = weight o + total weight os

pub total-insert_in :
    (weight : Obj → ℕ) (o : Obj) (os : List Obj)
    → total weight (insert_in compare_refs o os) ≡ weight o + total weight os
unfolding total insert_in
total-insert_in weight o [] = refl
total-insert_in weight o (q ∷ os) = ground (arith, total-insert_in weight o os)

pub total-erase_in :
    (weight : Obj → ℕ) (probe : Obj → Ordering) (o : Obj) (os : List Obj)
    → first_eq probe os ≡ some o
    → total weight (erase_in probe os) + weight o ≡ total weight os
unfolding total erase_in first_eq
total-erase_in weight probe o [] h = absurd (ground arith)
total-erase_in weight probe o (q ∷ os) h = ground (arith, total-erase_in weight probe o os)

-- Replacing the item that a search stops at.
pub total-replace_in :
    (weight : Obj → ℕ) (probe : Obj → Ordering) (new : Obj) (os : List Obj) (o : Obj)
    → Sorted compare_refs os
    → IsProbe compare_refs probe
    → first_eq probe os ≡ some o
    → total weight (replace_in probe (λ q. new) os) + weight o ≡ total weight os + weight new
unfolding total replace_in first_eq
total-replace_in weight probe new [] o s pr h = absurd (ground arith)
total-replace_in weight probe new (q ∷ os) o (k, s) pr h = elim (Bool-cases (is_eq (probe q))) [
  | inl e ↦
      let none_left = none_after compare_refs probe q os pr k (λ g. absurd (ground arith)) in
      let same = replace_in-none probe (λ q. new) os none_left in ground (arith, same)
  | inr e ↦ ground (arith, total-replace_in weight probe new os o s pr)
]
