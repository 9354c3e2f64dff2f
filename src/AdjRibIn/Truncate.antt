-- ===== src/AdjRibIn/Truncate.antt =====
-- adj_rib_in_truncate empties the table.
use dvpn.Base.{
  ℕ, zero, suc, ◌≤◌, ◌≡◌, refl, ap, ◌∙◌, List, [], ◌∷◌, length, some, ok, ◌>>=◌, arith, Ordering,
  subst, stuck, ◌⊎◌, inl, inr, ◌<◌, length-append,
}
use dvpn.Avl.Order.{Sorted, Sorted-append, first_eq, first_eq-append, erase_in}
use dvpn.Avl.Insert.{cmp_self, cmp-IsProbe}
use dvpn.Avl.Walk.{Tree, leaf, node, in_order, none_before}
use dvpn.Lsa.Platform.{Platform}
use dvpn.AdjRibIn.Accept.{Crypto}
use dvpn.AdjRibIn.Rib.{
  Obj, AdjRibIn, compare_refs, adj_rib_in_del_lsa, at_root, truncate_loop, adj_rib_in_truncate,
}
use dvpn.AdjRibIn.Account.{compare_refs-IsOrder, total}
use dvpn.AdjRibIn.Notify.{weight}
use dvpn.AdjRibIn.Keep.{Accounted, del_lsa-Accounted}

-- The root is what a search for its id finds.
root_found :
    (l r : Tree Obj) (o : Obj)
    → Sorted compare_refs (in_order (node l o r))
    → first_eq (compare_refs o) (in_order (node l o r)) ≡ some o
unfolding in_order first_eq
root_found l r o s =
    let (sl, before, after, sr) = Sorted-append compare_refs (in_order l) o (in_order r) s in
    let self = cmp_self compare_refs compare_refs-IsOrder o in
    let pr = cmp-IsProbe compare_refs compare_refs-IsOrder o in
    let n =
      none_before compare_refs (compare_refs o) o (in_order l) pr before
        (λ h. absurd (ground (arith, self))) in
    rw (first_eq-append (compare_refs o) (in_order l) (o ∷ in_order r) n) (rw self refl)

length-erase_in :
    (probe : Obj → Ordering) (os : List Obj) (o : Obj)
    → first_eq probe os ≡ some o
    → suc (length (erase_in probe os)) ≡ length os
unfolding erase_in first_eq
length-erase_in probe [] o h = absurd (ground arith)
length-erase_in probe (q ∷ os) o h = ground (arith, length-erase_in probe os o)

module _ (p : Platform) (crypto : Crypto) where
  leaf_step :
      (fuel : ℕ) (rib : AdjRibIn) → rib.lsas ≡ leaf → truncate_loop p crypto fuel rib ≡ ok rib
  unfolding truncate_loop
  leaf_step zero rib e = ap (λ t. at_root rib t (λ o. stuck)) e
  leaf_step (suc fuel) rib e =
      ap
        (λ t.
          at_root rib t (λ o. adj_rib_in_del_lsa p crypto rib o >>= truncate_loop p crypto fuel))
        e

  node_step :
      (fuel : ℕ) (rib rib' : AdjRibIn) (l r : Tree Obj) (o : Obj)
      → rib.lsas ≡ node l o r
      → adj_rib_in_del_lsa p crypto rib o ≡ ok rib'
      → truncate_loop p crypto (suc fuel) rib ≡ truncate_loop p crypto fuel rib'
  unfolding truncate_loop
  node_step fuel rib rib' l r o e d =
      ap
        (λ t.
          at_root rib t (λ q. adj_rib_in_del_lsa p crypto rib q >>= truncate_loop p crypto fuel))
        e
      ∙ ap (λ m. m >>= truncate_loop p crypto fuel) d

  empty_size : (rib : AdjRibIn) → Accounted p crypto rib → rib.lsas ≡ leaf → rib.size ≡ 0
  unfolding in_order total
  empty_size rib (s, g, q, b) e = q ∙ ap (λ t. total (weight p crypto rib.ends) (in_order t)) e

  root_cases :
      (t : Tree Obj) → (t ≡ leaf) ⊎ ((l : Tree Obj) × (o : Obj) × (r : Tree Obj) × (t ≡ node l o r))
  root_cases leaf = inl refl
  root_cases (node l o r) = inr (l, o, r, refl)

  length_node : (l r : Tree Obj) (o : Obj) → 0 < length (in_order (node l o r))
  unfolding in_order
  length_node l r o = omega (arith, length-append (in_order l) (o ∷ in_order r))

  loop_empties :
      (fuel : ℕ) (rib : AdjRibIn)
      → Accounted p crypto rib
      → length (in_order rib.lsas) ≤ fuel
      → (rib' : AdjRibIn) × (truncate_loop p crypto fuel rib ≡ ok rib')
        × (rib'.lsas ≡ leaf)
        × (rib'.size ≡ 0)
  loop_empties zero rib acc h = elim (root_cases rib.lsas) [
    | inl e ↦ (rib, leaf_step zero rib e, e, empty_size rib acc e)
    | inr (l, o, r, e) ↦
        absurd (omega (arith, length_node l r o, ap (λ (t : Tree Obj). length (in_order t)) e))
  ]
  loop_empties (suc fuel) rib acc h = elim (root_cases rib.lsas) [
    | inl e ↦ (rib, leaf_step (suc fuel) rib e, e, empty_size rib acc e)
    | inr (l, o, r, e) ↦
        let f : first_eq (compare_refs o) (in_order rib.lsas) ≡ some o =
          ap (λ t. first_eq (compare_refs o) (in_order t)) e
          ∙ root_found l r o (subst (λ t. Sorted compare_refs (in_order t)) e acc.0) in
        let (rib', d, a, v) = del_lsa-Accounted p crypto rib o acc f in
        let shorter = length-erase_in (compare_refs o) (in_order rib.lsas) o f in
        let len = ap (λ (os : List Obj). length os) v in
        let (rib'', t, m, z) = loop_empties fuel rib' a (omega (arith, shorter, len)) in
        (rib'', node_step fuel rib rib' l r o e d ∙ t, m, z)
  ]

  -- From a table whose account is right, adj_rib_in_truncate comes to an end, and leaves no
  -- advertisement and the size 0.
  pub truncate_empties :
      (rib : AdjRibIn)
      → Accounted p crypto rib
      → (rib' : AdjRibIn) × (adj_rib_in_truncate p crypto rib ≡ ok rib')
        × (rib'.lsas ≡ leaf)
        × (rib'.size ≡ 0)
  unfolding adj_rib_in_truncate
  truncate_empties rib acc = loop_empties (length (in_order rib.lsas)) rib acc (omega arith)
