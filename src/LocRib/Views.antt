-- ===== src/LocRib/Views.antt =====
-- What the costs of loc_rib.c depend on: the newest advertisement of each id.
use mathlib.Core.Path.{fun_ext}
use dvpn.Base.{
  ℕ, zero, suc, ◌+◌, ◌%◌, ◌^◌, ◌≡◌, refl, sym, ap, ◌∙◌, Bool, true, if◌then◌else◌, List, [], ◌∷◌,
  ◌++◌, length, drop, take, not, ◌==◌, Option, none, some, Result, aborted, subst, arith,
  Bool-cases, inl, inr, Option-cases, Ordering,
}
use dvpn.Bytes.{Bytes, memcmp, is_eq}
use dvpn.Bytes.Memcmp.{memcmp_self}
use dvpn.Avl.Order.{
  IsOrder, first_eq, Each, Each-append, Each-append_left, Each-append_right, Sorted, Sorted-append,
}
use dvpn.Avl.Insert.{cmp-IsProbe}
use dvpn.Avl.Replace.{replace_in, replace_in-append, replace_in-none}
use dvpn.Avl.Walk.{Tree, leaf, node, in_order, walk-first_eq, none_before, none_after}
use dvpn.Lsa.Types.{AttrTree, Attr, Lsa, node_id_len, attr_type_adv_path}
use dvpn.Lsa.Platform.{Platform}
use dvpn.Lsa.Build.{lsa_find_attr, attr_data}
use dvpn.AdjRibIn.Rib.{Obj, compare_refs}
use dvpn.AdjRibIn.Account.{compare_refs-IsOrder}
use dvpn.LocRib.State.{
  RibId, LocRib, compare_ids, loc_rib_find_id, find_recent_lsa, recent_of, if_recent, last,
}
use dvpn.LocRib.Cost.{hops_cost, with_next, from_me, along, lsa_path_cost}
use dvpn.LocRib.Update.{put_id, new_id}

abbrev of_id : Bytes → Obj
of_id id = record {
  addr = 0;
  lsa = record { refcount = 0; size = 0; id = id; root = AttrTree.empty };
}

-- The comparison of ids is an order that a tree can be kept in.
pub compare_ids-IsOrder : IsOrder compare_ids
unfolding compare_ids compare_refs
compare_ids-IsOrder = record {
  swap = λ a b. compare_refs-IsOrder.swap (of_id a.id) (of_id b.id);
  trans = λ a b c. compare_refs-IsOrder.trans (of_id a.id) (of_id b.id) (of_id c.id);
  same = λ a b c. compare_refs-IsOrder.same (of_id a.id) (of_id b.id) (of_id c.id);
}

module _ (rid : RibId) where
  pub in_order-put_id :
      (t : Tree RibId)
      → Sorted compare_ids (in_order t)
      → in_order (put_id rid t) ≡ replace_in (compare_ids rid) (λ q. rid) (in_order t)
  unfolding put_id in_order replace_in
  in_order-put_id leaf s = refl
  in_order-put_id (node l o r) s =
      let pr = cmp-IsProbe compare_ids compare_ids-IsOrder rid in
      let xs = in_order l in
      let ys = in_order r in
      let (sl, before, after, sr) = Sorted-append compare_ids xs o ys s in
      ground (
        arith,
        in_order-put_id l sl,
        in_order-put_id r sr,
        none_before compare_ids (compare_ids rid) o xs pr before,
        none_after compare_ids (compare_ids rid) o ys pr after,
        replace_in-append (compare_ids rid) (λ q. rid) xs (o ∷ ys),
        replace_in-none (compare_ids rid) (λ q. rid) xs,
        replace_in-none (compare_ids rid) (λ q. rid) ys,
      )

-- A write to the struct of an id changes that one item of the tree.
pub put_id_at :
    (t : Tree RibId) (xs : List RibId) (a rid : RibId) (ys : List RibId)
    → Sorted compare_ids (in_order t)
    → in_order t ≡ xs ++ a ∷ ys
    → rid.id ≡ a.id
    → in_order (put_id rid t) ≡ xs ++ rid ∷ ys
unfolding replace_in compare_ids
put_id_at t xs a rid ys s e same =
    let f = λ (q : RibId). rid in
    let pr = cmp-IsProbe compare_ids compare_ids-IsOrder rid in
    let (sl, before, after, sr) =
      Sorted-append compare_ids xs a ys (subst (Sorted compare_ids) e s) in
    let k : memcmp node_id_len rid.id a.id ≡ Ordering.eq =
      ap (λ i. memcmp node_id_len i a.id) same ∙ memcmp_self node_id_len a.id in
    let left =
      replace_in-none (compare_ids rid) f xs
        (none_before compare_ids (compare_ids rid) a xs pr before (λ q. cc)) in
    let right =
      replace_in-none (compare_ids rid) f ys
        (none_after compare_ids (compare_ids rid) a ys pr after (λ q. cc)) in
    in_order-put_id rid t s
    ∙ ap (replace_in (compare_ids rid) f) e
    ∙ replace_in-append (compare_ids rid) f xs (a ∷ ys)
    ∙ (rw (left, right, k) refl)

pub Sorted-middle :
    (xs : List RibId) (a rid : RibId) (ys : List RibId)
    → rid.id ≡ a.id
    → Sorted compare_ids (xs ++ a ∷ ys)
    → Sorted compare_ids (xs ++ rid ∷ ys)
unfolding compare_ids
Sorted-middle [] a rid ys same (h, s) =
    (subst (λ i. Each (λ y. memcmp node_id_len i y.id ≡ Ordering.lt) ys) (sym same) h, s)
Sorted-middle (x ∷ xs) a rid ys same (h, s) =
    let at = Each-append_right (λ y. memcmp node_id_len x.id y.id ≡ Ordering.lt) xs (a ∷ ys) h in
    (
      Each-append (λ y. memcmp node_id_len x.id y.id ≡ Ordering.lt) xs (rid ∷ ys)
          (Each-append_left _ xs (a ∷ ys) h)
          (subst (λ i. memcmp node_id_len x.id i ≡ Ordering.lt) (sym same) at.0, at.1),
      Sorted-middle xs a rid ys same s,
    )

module _ (p : Platform) where
  -- The newest advertisement of an id among the items in order.
  abbrev recent_in : (RibId → Ordering) → List RibId → Option Lsa
  recent_in probe rids = recent_of p (first_eq probe rids)

  find_recent-recent_in :
      (rib : LocRib) (id : Bytes)
      → Sorted compare_ids (in_order rib.ids)
      → find_recent_lsa p rib id
        ≡ recent_in (λ rid. memcmp node_id_len id rid.id) (in_order rib.ids)
  unfolding find_recent_lsa loc_rib_find_id compare_ids
  find_recent-recent_in rib id s = ap (recent_of p) (
      walk-first_eq compare_ids (λ rid. memcmp node_id_len id rid.id) rib.ids
        (cmp-IsProbe compare_ids compare_ids-IsOrder (new_id p id)) s)

  -- The same for the searches by id.
  abbrev pub SameView : RibId → RibId → Type 0
  SameView a b =
      (a.id ≡ b.id)
      × (a.highest_version_seen ≡ b.highest_version_seen)
      × (if_recent p a.highest_version_seen (last a.lsas)
          ≡ if_recent p b.highest_version_seen (last b.lsas))

  recent_in_middle :
      (id : Bytes) (xs : List RibId) (a b : RibId) (ys : List RibId)
      → SameView a b
      → recent_in (λ rid. memcmp node_id_len id rid.id) (xs ++ a ∷ ys)
        ≡ recent_in (λ rid. memcmp node_id_len id rid.id) (xs ++ b ∷ ys)
  unfolding first_eq
  recent_in_middle id [] a b ys (i, h, r) =
      rw i (elim (Bool-cases (is_eq (memcmp node_id_len id b.id))) [
        | inl e ↦ rw e r
        | inr e ↦ rw e refl
      ])
  recent_in_middle id (x ∷ xs) a b ys v = elim (Bool-cases (is_eq (memcmp node_id_len id x.id))) [
    | inl e ↦ rw e refl
    | inr e ↦ rw e (recent_in_middle id xs a b ys v)
  ]

  -- Putting an item of the same view in the place of another changes no search by id.
  pub find_recent_middle :
      (rib rib' : LocRib) (xs : List RibId) (a b : RibId) (ys : List RibId)
      → Sorted compare_ids (in_order rib.ids)
      → in_order rib.ids ≡ xs ++ a ∷ ys
      → in_order rib'.ids ≡ xs ++ b ∷ ys
      → SameView a b
      → (id : Bytes) → find_recent_lsa p rib id ≡ find_recent_lsa p rib' id
  find_recent_middle rib rib' xs a b ys s e e' v id =
      let probe = λ (rid : RibId). memcmp node_id_len id rid.id in
      let s' = Sorted-middle xs a b ys (sym v.0) (subst (Sorted compare_ids) e s) in
      find_recent-recent_in rib id s
      ∙ ap (recent_in probe) e
      ∙ recent_in_middle id xs a b ys v
      ∙ ap (recent_in probe) (sym e')
      ∙ sym (find_recent-recent_in rib' id (subst (Sorted compare_ids) (sym e') s'))

  -- Two tables that give the same newest advertisements.
  module _ (rib rib' : LocRib)
      (view : (id : Bytes) → find_recent_lsa p rib id ≡ find_recent_lsa p rib' id) where
    hops_cost_view :
        (fuel : ℕ) (path : Bytes) (from : Option Lsa) (t : Bool) (cost : ℕ)
        → hops_cost p rib fuel path from t cost ≡ hops_cost p rib' fuel path from t cost
    unfolding hops_cost
    hops_cost_view zero [] from t cost = refl
    hops_cost_view (suc fuel) [] from t cost = refl
    hops_cost_view zero (b ∷ path) from t cost = refl
    hops_cost_view (suc fuel) (b ∷ path) from t cost =
        ap
          (λ f. with_next p f from t (λ to t' m.
            hops_cost p rib fuel (drop node_id_len (b ∷ path)) (some to) t' ((cost + m) % 2 ^ 32)))
          (view (take node_id_len (b ∷ path)))
        ∙ ap (with_next p (find_recent_lsa p rib' (take node_id_len (b ∷ path))) from t) (
            fun_ext λ to. fun_ext λ t'. fun_ext λ m.
              hops_cost_view fuel (drop node_id_len (b ∷ path)) (some to) t' ((cost + m) % 2 ^ 32))

    from_me_view :
        (path : Bytes) (me : Option Bytes) → from_me p rib path me ≡ from_me p rib' path me
    from_me_view path none = hops_cost_view (length path) path none true 0
    from_me_view path (some me) = elim (Option-cases (find_recent_lsa p rib' me)) [
      | inl e ↦ rw (view me ∙ e, e, from_me) refl
      | inr (from, e) ↦
          rw (view me ∙ e, e, from_me) (hops_cost_view (length path) path (some from) true 0)
    ]

    along_view : (a : Option Attr) → rib.myid ≡ rib'.myid → along p rib a ≡ along p rib' a
    along_view none me = refl
    along_view (some a) me =
        ap
          (λ (r : Result ℕ). if not (length (attr_data p a) % node_id_len == 0) then aborted else r)
          (from_me_view (attr_data p a) rib.myid ∙ ap (from_me p rib' (attr_data p a)) me)

    pub lsa_path_cost_view :
        (rid rid' : RibId) (lsa : Lsa)
        → rib.myid ≡ rib'.myid
        → rid.highest_version_seen ≡ rid'.highest_version_seen
        → lsa_path_cost p rib rid lsa ≡ lsa_path_cost p rib' rid' lsa
    unfolding lsa_path_cost
    lsa_path_cost_view rid rid' lsa me seen =
        rw (seen, along_view (lsa_find_attr lsa attr_type_adv_path []) me) refl
