-- ===== src/AdjRibIn/Keep.antt =====
-- Every operation keeps the account of sizes.
use dvpn.Base.{ℕ, ◌+◌, ◌≤◌, ◌≡◌, refl, ap, sym, subst, true, List, none, some, ok, arith, Ordering}
use dvpn.Bytes.{Bytes}
use dvpn.Avl.Order.{Each, Each-first_eq, Sorted, first_eq, insert_in, erase_in}
use dvpn.Avl.Insert.{cmp-IsProbe, Sorted-insert_in, Sorted-erase_in, Each-erase_in, Each-insert_in}
use dvpn.Avl.Walk.{in_order, walk-first_eq}
use dvpn.Lsa.Types.{AttrTree}
use dvpn.Lsa.Platform.{Platform}
use dvpn.AdjRibIn.Accept.{Crypto}
use dvpn.AdjRibIn.Rib.{
  Obj, AdjRibIn, compare_refs, adj_rib_in_del_lsa, adj_rib_in_find_ref, same_id, add_ref, get_obj,
}
use dvpn.AdjRibIn.Account.{compare_refs-IsOrder, total, total-erase_in, total-insert_in}
use dvpn.AdjRibIn.Notify.{Sound, weight, put_obj-ok, weight-le, notified, notify-size}

module _ (p : Platform) (crypto : Crypto) where
  -- The tree is in the order of the ids, all in it is sound, and the size is that of the accepted
  -- advertisements in it, and within its bound.
  abbrev pub Accounted : AdjRibIn → Type 0
  Accounted rib =
      Sorted compare_refs (in_order rib.lsas)
      × Each Sound (in_order rib.lsas)
      × (rib.size ≡ total (weight p crypto rib.ends) (in_order rib.lsas))
      × (rib.size ≤ 1048576)

  pub found_lem :
      (rib : AdjRibIn) (id : Bytes)
      → Sorted compare_refs (in_order rib.lsas)
      → adj_rib_in_find_ref rib id ≡ first_eq (same_id id) (in_order rib.lsas)
  unfolding adj_rib_in_find_ref compare_refs
  found_lem rib id s =
      walk-first_eq compare_refs (same_id id) rib.lsas
        (cmp-IsProbe compare_refs compare_refs-IsOrder (record {
          addr = 0;
          lsa = record { refcount = 0; size = 0; id = id; root = AttrTree.empty };
        }))
        s

  pub first_eq-weight :
      (w : Obj → ℕ) (probe : Obj → Ordering) (o : Obj) (os : List Obj)
      → first_eq probe os ≡ some o
      → w o ≤ total w os
  first_eq-weight w probe o os h = omega (arith, total-erase_in w probe o os h)

  module _ (rib : AdjRibIn) (ref : Obj) where
    -- Deleting an advertisement of the tree returns, and keeps the account.
    pub del_lsa-Accounted :
        Accounted rib
        → first_eq (compare_refs ref) (in_order rib.lsas) ≡ some ref
        → (rib' : AdjRibIn) × (adj_rib_in_del_lsa p crypto rib ref ≡ ok rib')
          × Accounted rib'
          × (in_order rib'.lsas ≡ erase_in (compare_refs ref) (in_order rib.lsas))
    unfolding adj_rib_in_del_lsa
    del_lsa-Accounted (s, g, e, b) f =
        let os = in_order rib.lsas in
        let w = weight p crypto rib.ends in
        let sound = Each-first_eq Sound (compare_refs ref) os ref g f in
        let (c, put) = put_obj-ok rib.counts ref sound in
        let t = p.trees.delete Obj compare_refs ref rib.lsas in
        let seen = p.trees.in_order-delete Obj compare_refs compare_refs-IsOrder ref rib.lsas s in
        let sum = total-erase_in w (compare_refs ref) ref os f in
        let left = ap (total w) seen in
        let told =
          notify-size p crypto rib.ends rib (some ref) none refl sound tt (omega (arith, e, sum)) b
            (omega arith) in
        (
          record (notified p crypto rib.ends rib (some ref) none) { lsas = t; counts = c },
          rw told (rw put refl),
          (
            subst (Sorted compare_refs) (sym seen)
                (Sorted-erase_in compare_refs compare_refs-IsOrder (compare_refs ref) os s),
            subst (Each Sound) (sym seen)
                (Each-erase_in compare_refs compare_refs-IsOrder Sound (compare_refs ref) os g),
            omega (arith, e, sum, left),
            omega (arith, b),
          ),
          seen,
        )

    -- Adding an advertisement whose id is not there, and for which there is room, keeps the account.
    pub add_ref-Accounted :
        Accounted rib
        → Sound ref
        → first_eq (compare_refs ref) (in_order rib.lsas) ≡ none
        → rib.size + ref.lsa.size ≤ 1048576
        → (rib' : AdjRibIn) × (add_ref p crypto rib ref ≡ ok (rib', true))
          × Accounted rib'
          × (in_order rib'.lsas ≡ insert_in compare_refs ref (in_order rib.lsas))
    unfolding add_ref
    add_ref-Accounted (s, g, e, b) sound f room =
        let os = in_order rib.lsas in
        let w = weight p crypto rib.ends in
        let (t, ins, seen) =
          p.trees.insert_fresh Obj compare_refs compare_refs-IsOrder ref rib.lsas s f in
        let sum = total-insert_in w ref os in
        let left = ap (total w) seen in
        let light = weight-le p crypto rib.ends ref in
        let told =
          notify-size p crypto rib.ends rib none (some ref) refl tt sound (omega arith) b
            (omega (arith, light)) in
        (
          record (notified p crypto rib.ends rib none (some ref)) {
            lsas = t;
            counts = get_obj rib.counts ref;
          },
          rw told (rw ins refl),
          (
            subst (Sorted compare_refs) (sym seen)
                (Sorted-insert_in compare_refs compare_refs-IsOrder ref os s f),
            subst (Each Sound) (sym seen)
                (Each-insert_in compare_refs compare_refs-IsOrder Sound ref os sound g),
            omega (arith, e, sum, left),
            omega (arith, b, light),
          ),
          seen,
        )
