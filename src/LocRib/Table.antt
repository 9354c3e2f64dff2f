-- ===== src/LocRib/Table.antt =====
-- The table of loc_rib.c in order, and writes to it.
use dvpn.Base.{ℕ, ◌≡◌, ◌≤◌, sym, ap, ◌∙◌, List, [], ◌∷◌, none, some, subst, arith, Ordering}
use dvpn.Bytes.{Bytes, memcmp}
use dvpn.Avl.Order.{IsOrder, first_eq, Each, Sorted, insert_in}
use dvpn.Avl.Insert.{cmp_self, cmp-IsProbe, Each-insert_in, Sorted-insert_in}
use dvpn.Avl.Replace.{replace_in, Each-replace_in, Sorted-replace_in}
use dvpn.Avl.Walk.{Tree, in_order, walk-first_eq}
use mathlib.Core.Path.{fun_ext}
use dvpn.Lsa.Types.{node_id_len}
use dvpn.Lsa.Platform.{Platform}
use dvpn.AdjRibIn.Rib.{Obj}
use dvpn.LocRib.State.{
  LsaRef, RibId, LocRib, compare_ids, compare_lsas, compare_lsa_refs, lsa_get_version,
  loc_rib_find_id,
}
use dvpn.LocRib.Update.{put_id, new_id, put_lsas, max_version}
use dvpn.LocRib.Views.{compare_ids-IsOrder, in_order-put_id}

module _ (p : Platform) where
  -- References are ordered by version, and by address.
  pub compare_lsa_refs-IsOrder : IsOrder (compare_lsa_refs p)
  unfolding compare_lsa_refs compare_lsas
  compare_lsa_refs-IsOrder = record {
    swap = λ a b. ground arith;
    trans = λ a b c h k. ground arith;
    same = λ a b c h. ground arith;
  }

  -- The references of an id are in order, and none has a version above the highest seen.
  abbrev pub IsKept : RibId → Type 0
  IsKept rid =
      Sorted (compare_lsa_refs p) (in_order rid.lsas)
      × Each (λ ref. lsa_get_version p ref.obj.lsa ≤ rid.highest_version_seen) (in_order rid.lsas)

  abbrev pub IsTable : Tree RibId → Type 0
  IsTable ids = Sorted compare_ids (in_order ids) × Each IsKept (in_order ids)

  pub put_id-IsTable :
      (ids : Tree RibId) (rid : RibId) → IsTable ids → IsKept rid → IsTable (put_id rid ids)
  put_id-IsTable ids rid (s, k) kept =
      let seen = in_order-put_id rid ids s in
      (
        subst (Sorted compare_ids) (sym seen)
            (Sorted-replace_in compare_ids compare_ids-IsOrder rid (in_order ids) s),
        subst (Each IsKept) (sym seen) (
            Each-replace_in compare_ids compare_ids-IsOrder rid IsKept (in_order ids)
              (λ x e q. kept) k),
      )

  -- A write to the struct of an id that is there is found again.
  pub first_eq-put_id :
      (rid y : RibId) (xs : List RibId)
      → first_eq (compare_ids rid) xs ≡ some y
      → first_eq (compare_ids rid) (replace_in (compare_ids rid) (λ x. rid) xs) ≡ some rid
  unfolding first_eq replace_in
  first_eq-put_id rid y [] e = absurd (ground arith)
  first_eq-put_id rid y (x ∷ xs) e =
      ground (arith, cmp_self compare_ids compare_ids-IsOrder rid, first_eq-put_id rid y xs)

  pub find_id-first_eq :
      (rib : LocRib) (id : Bytes)
      → Sorted compare_ids (in_order rib.ids)
      → loc_rib_find_id rib id ≡ first_eq (compare_ids (new_id p id)) (in_order rib.ids)
  unfolding loc_rib_find_id compare_ids
  find_id-first_eq rib id s =
      walk-first_eq compare_ids (λ rid. memcmp node_id_len id rid.id) rib.ids
        (cmp-IsProbe compare_ids compare_ids-IsOrder (new_id p id)) s

  pub same_probe :
      (id : Bytes) (rid rid' : RibId)
      → compare_ids (new_id p id) rid ≡ Ordering.eq
      → rid'.id ≡ rid.id
      → compare_ids rid' ≡ compare_ids (new_id p id)
  unfolding compare_ids
  same_probe id rid rid' e same = fun_ext (λ x.
      ap (λ i. memcmp node_id_len i x.id) same
      ∙ sym (compare_ids-IsOrder.same (new_id p id) rid x e))

  pub stored :
      (rib : LocRib) (id : Bytes) (rid y : RibId)
      → IsTable rib.ids
      → IsKept rid
      → compare_ids rid ≡ compare_ids (new_id p id)
      → first_eq (compare_ids (new_id p id)) (in_order rib.ids) ≡ some y
      → IsTable (put_id rid rib.ids) × (loc_rib_find_id (put_lsas p rib rid) id ≡ some rid)
  stored rib id rid y table kept probe there =
      let after = put_id-IsTable rib.ids rid table kept in
      (
        after,
        find_id-first_eq (put_lsas p rib rid) id after.0
            ∙ ap (first_eq (compare_ids (new_id p id))) (in_order-put_id rid rib.ids table.0)
            ∙ subst
                (λ c.
                  first_eq c (replace_in (compare_ids rid) (λ x. rid) (in_order rib.ids))
                  ≡ some rid)
                probe
                (first_eq-put_id rid y (in_order rib.ids)
                  (subst (λ c. first_eq c (in_order rib.ids) ≡ some y) (sym probe) there)),
      )

  pub le_max : (v seen ver : ℕ) → v ≤ seen → v ≤ max_version p seen ver
  le_max v seen ver h = ground arith

  pub max_le : (seen ver : ℕ) → ver ≤ max_version p seen ver
  max_le seen ver = ground arith

  pub same_struct : (rid rid' : RibId) → rid'.id ≡ rid.id → compare_ids rid' ≡ compare_ids rid
  unfolding compare_ids
  same_struct rid rid' same = ap (λ i x. memcmp node_id_len i x.id) same

  abbrev pub new_ref : Obj → LsaRef
  new_ref o = record { obj = o; cost = 0 }

  -- A reference that is put among those of an id, with the highest version seen from then on.
  pub refs_added :
      (rid : RibId) (ref : LsaRef) (lsas : Tree LsaRef) (refs : List LsaRef) (seen : ℕ)
      → Sorted (compare_lsa_refs p) refs
      → Each (λ r. lsa_get_version p r.obj.lsa ≤ seen) refs
      → lsa_get_version p ref.obj.lsa ≤ seen
      → first_eq (compare_lsa_refs p ref) refs ≡ none
      → in_order lsas ≡ insert_in (compare_lsa_refs p) ref refs
      → IsKept (record rid { lsas = lsas; highest_version_seen = seen })
  refs_added rid ref lsas refs seen s below small fresh o = (
    subst (Sorted (compare_lsa_refs p)) (sym o)
        (Sorted-insert_in (compare_lsa_refs p) compare_lsa_refs-IsOrder ref refs s fresh),
    subst (Each (λ r. lsa_get_version p r.obj.lsa ≤ seen)) (sym o)
        (Each-insert_in (compare_lsa_refs p) compare_lsa_refs-IsOrder _ ref refs small below),
  )
