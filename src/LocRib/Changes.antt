-- ===== src/LocRib/Changes.antt =====
-- loc_rib_add_lsa and loc_rib_mod_lsa, and the table that they leave behind.
use dvpn.Base.{
  ◌≡◌, ◌≤◌, refl, sym, ap, ◌∙◌, true, List, Option, none, some, Result, ok, subst, inl, inr,
  Option-cases,
}
use dvpn.Avl.Order.{
  first_eq, first_eq-is_eq, Each-first_eq, Each, Each-map, Sorted, insert_in, erase_in,
}
use dvpn.Avl.Insert.{
  cmp_self, cmp-IsProbe, Each-insert_in, Sorted-insert_in, first_eq-insert_in, Each-erase_in,
  Sorted-erase_in,
}
use dvpn.Avl.Walk.{Tree, in_order}
use dvpn.Lsa.Platform.{Platform}
use dvpn.AdjRibIn.Rib.{Obj, get_obj, put_obj}
use dvpn.AdjRibIn.Notify.{Sound, put_obj-ok}
use dvpn.LocRib.State.{
  LsaRef, RibId, LocRib, compare_ids, compare_lsa_refs, lsa_get_version, loc_rib_find_id,
  find_lsa_ref,
}
use dvpn.LocRib.Update.{
  new_id, get_id, put_lsas, add_to_id, max_version, loc_rib_add_lsa, loc_rib_mod_lsa,
}
use dvpn.LocRib.Table.{
  compare_lsa_refs-IsOrder, IsKept, IsTable, find_id-first_eq, same_probe, stored, le_max, max_le,
  same_struct, new_ref, refs_added,
}
use dvpn.LocRib.Views.{compare_ids-IsOrder}

module _ (p : Platform) where
  module _ (o : Obj) where
    -- What adding an advertisement leaves behind, where `rid` is what the table had of its node.
    abbrev pub IsAdded : RibId → Result LocRib → Type 0
    IsAdded rid r =
        (rib' : LocRib) × (r ≡ ok rib')
        × (IsTable p) rib'.ids
        × (rib'.recompute ≡ true)
        × (rid' : RibId) × (loc_rib_find_id rib' o.lsa.id ≡ some rid')
        × (in_order rid'.lsas ≡ insert_in (compare_lsa_refs p) ((new_ref p) o) (in_order rid.lsas))
        × (rid'.highest_version_seen
            ≡ max_version p rid.highest_version_seen (lsa_get_version p o.lsa))

    add_to_id-IsAdded :
        (rib : LocRib) (rid y : RibId)
        → (IsTable p) rib.ids
        → (IsKept p) rid
        → compare_ids rid ≡ compare_ids (new_id p o.lsa.id)
        → first_eq (compare_ids (new_id p o.lsa.id)) (in_order rib.ids) ≡ some y
        → first_eq (compare_lsa_refs p ((new_ref p) o)) (in_order rid.lsas) ≡ none
        → IsAdded rid (add_to_id p o (rib, rid))
    add_to_id-IsAdded rib rid y table (s, below) probe there fresh =
        let (lsas, e, ord) =
          p.trees.insert_fresh LsaRef (compare_lsa_refs p) (compare_lsa_refs-IsOrder p)
            ((new_ref p) o) rid.lsas s fresh in
        let seen = max_version p rid.highest_version_seen (lsa_get_version p o.lsa) in
        let rid' : RibId = record rid { lsas = lsas; highest_version_seen = seen } in
        let kept =
          refs_added p rid ((new_ref p) o) lsas (in_order rid.lsas) seen s
            (Each-map (in_order rid.lsas)
              (λ r h.
                le_max p (lsa_get_version p r.obj.lsa) rid.highest_version_seen
                  (lsa_get_version p o.lsa) h)
              below)
            (max_le p rid.highest_version_seen (lsa_get_version p o.lsa)) fresh ord in
        let rib₁ : LocRib = record rib { counts = get_obj rib.counts o } in
        let (after, found) =
          stored p rib₁ o.lsa.id rid' y table kept (same_struct p rid rid' refl ∙ probe) there in
        (put_lsas p rib₁ rid', rw e refl, after, refl, rid', found, ord, refl)

    -- The struct of a node that is new.
    module _ (rib : LocRib) (table : (IsTable p) rib.ids)
        (new : loc_rib_find_id rib o.lsa.id ≡ none) where
      abbrev made : RibId
      made = new_id p o.lsa.id

      absent : first_eq (compare_ids made) (in_order rib.ids) ≡ none
      absent = sym (find_id-first_eq p rib o.lsa.id table.0) ∙ new

      with_id :
          (t : Tree RibId) × (p.trees.insert RibId compare_ids made rib.ids ≡ some t)
          × (IsTable p) t
          × (first_eq (compare_ids made) (in_order t) ≡ some made)
      unfolding in_order
      with_id =
          let (t, e, ord) =
            p.trees.insert_fresh RibId compare_ids compare_ids-IsOrder made rib.ids table.0
              absent in
          (
            t,
            e,
            (
              subst (Sorted compare_ids) (sym ord) (
                  Sorted-insert_in compare_ids compare_ids-IsOrder made (in_order rib.ids) table.0
                    absent),
              subst (Each (IsKept p)) (sym ord) (
                  Each-insert_in compare_ids compare_ids-IsOrder (IsKept p) made (in_order rib.ids)
                    (tt, tt) table.1),
            ),
            ap (first_eq (compare_ids made)) ord
                ∙ first_eq-insert_in compare_ids compare_ids-IsOrder (compare_ids made) made
                    (in_order rib.ids) (cmp-IsProbe compare_ids compare_ids-IsOrder made) table.0
                    absent
                ∙ rw (cmp_self compare_ids compare_ids-IsOrder made) refl,
          )

      add_new : IsAdded made (loc_rib_add_lsa p rib o)
      unfolding loc_rib_add_lsa in_order first_eq
      add_new =
          let (t, e, table', there) = with_id in
          rw (new, e)
            (add_to_id-IsAdded (record rib { ids = t }) made made table' (tt, tt) refl there refl)

    module _ (rib : LocRib) (table : (IsTable p) rib.ids) (rid : RibId)
        (known : loc_rib_find_id rib o.lsa.id ≡ some rid) where
      there_is : first_eq (compare_ids (new_id p o.lsa.id)) (in_order rib.ids) ≡ some rid
      there_is = sym (find_id-first_eq p rib o.lsa.id table.0) ∙ known

      its_probe : compare_ids rid ≡ compare_ids (new_id p o.lsa.id)
      its_probe =
          same_probe p o.lsa.id rid rid
            (first_eq-is_eq (compare_ids (new_id p o.lsa.id)) (in_order rib.ids) rid there_is) refl

      rid-IsKept : (IsKept p) rid
      rid-IsKept =
          Each-first_eq (IsKept p) (compare_ids (new_id p o.lsa.id)) (in_order rib.ids) rid table.1
            there_is

      add_known :
          first_eq (compare_lsa_refs p ((new_ref p) o)) (in_order rid.lsas) ≡ none
          → IsAdded rid (loc_rib_add_lsa p rib o)
      unfolding loc_rib_add_lsa
      add_known fresh =
          rw known (add_to_id-IsAdded rib rid rid table rid-IsKept its_probe there_is fresh)

  -- The struct that get_id returns.
  abbrev pub got : LocRib → Obj → Option RibId → RibId
  got rib o found = (get_id p rib o.lsa.id found).1

  -- Adding an advertisement that is not among those of its node to a table in order, in which no
  -- version is above the highest seen, keeps the table so, whether its node is in the table or not. The
  -- advertisement is put among those of its node, in order of the versions, the highest version seen is
  -- raised to its version if it is less, and the recomputation is registered.
  pub add_lsa-IsAdded :
      (rib : LocRib) (o : Obj)
      → (IsTable p) rib.ids
      → first_eq
          (compare_lsa_refs p ((new_ref p) o))
          (in_order (got rib o (loc_rib_find_id rib o.lsa.id)).lsas)
        ≡ none
      → IsAdded o (got rib o (loc_rib_find_id rib o.lsa.id)) (loc_rib_add_lsa p rib o)
  add_lsa-IsAdded rib o table fresh =
      let Goal = λ (f : Option RibId).
        first_eq (compare_lsa_refs p ((new_ref p) o)) (in_order (got rib o f).lsas) ≡ none
        → IsAdded o (got rib o f) (loc_rib_add_lsa p rib o) in
      elim (Option-cases (loc_rib_find_id rib o.lsa.id)) [
        | inl e ↦ subst Goal (sym e) (λ n. add_new o rib table e) fresh
        | inr (rid, e) ↦ subst Goal (sym e) (λ n. add_known o rib table rid e n) fresh
      ]

  module _ (rib : LocRib) (old new : Obj) (rid : RibId) (ref : LsaRef) where
    abbrev pub changed : LsaRef
    changed = record ref { obj = new }

    abbrev pub remaining : List LsaRef
    remaining = erase_in (compare_lsa_refs p ref) (in_order rid.lsas)

    -- Where the table is in order and has the old advertisement, and the new one is not among the
    -- others of that node and has no version above the highest seen, loc_rib_mod_lsa puts it in the
    -- place of the old one. The old one must be as it comes from the reader, so that it can be freed:
    -- it counts its attributes, to at most 2 ^ 20, has an id of 32 bytes, is in order with attributes
    -- that serialise to at most 65520 bytes each, and has no nested set that is empty. The new one is
    -- referenced and the old one released. The table stays in order, the highest version seen stays as
    -- it is, and the recomputation is registered.
    pub mod_lsa-IsTable :
        (IsTable p) rib.ids
        → loc_rib_find_id rib old.lsa.id ≡ some rid
        → find_lsa_ref p rid old ≡ some ref
        → first_eq (compare_lsa_refs p changed) remaining ≡ none
        → Sound old
        → lsa_get_version p new.lsa ≤ rid.highest_version_seen
        → (rib' : LocRib) × (loc_rib_mod_lsa p rib old new ≡ ok rib')
          × (IsTable p) rib'.ids
          × (rib'.recompute ≡ true)
          × (put_obj (get_obj rib.counts new) old ≡ ok rib'.counts)
          × (rid' : RibId) × (loc_rib_find_id rib' old.lsa.id ≡ some rid')
          × (in_order rid'.lsas ≡ insert_in (compare_lsa_refs p) changed remaining)
          × (rid'.highest_version_seen ≡ rid.highest_version_seen)
    unfolding loc_rib_mod_lsa
    mod_lsa-IsTable table known found fresh sound small =
        let (counts, put) = put_obj-ok (get_obj rib.counts new) old sound in
        let cmp = compare_lsa_refs p in
        let (s, below) = rid-IsKept old rib table rid known in
        let less = p.trees.delete LsaRef cmp ref rid.lsas in
        let del = p.trees.in_order-delete LsaRef cmp (compare_lsa_refs-IsOrder p) ref rid.lsas s in
        let s' = Sorted-erase_in cmp (compare_lsa_refs-IsOrder p) (cmp ref) (in_order rid.lsas) s in
        let below' =
          Each-erase_in cmp (compare_lsa_refs-IsOrder p) _ (cmp ref) (in_order rid.lsas) below in
        let (lsas, e, ord) =
          p.trees.insert_fresh LsaRef cmp (compare_lsa_refs-IsOrder p) changed less
            (subst (Sorted cmp) (sym del) s') (ap (first_eq (cmp changed)) del ∙ fresh) in
        let ord' = ord ∙ ap (insert_in cmp changed) del in
        let rid' : RibId = record rid { lsas = lsas } in
        let kept =
          refs_added p rid changed lsas remaining rid.highest_version_seen s' below' small fresh
            ord' in
        let rib₁ : LocRib = record rib { counts = counts } in
        let (after, again) =
          stored p rib₁ old.lsa.id rid' rid table kept
            (same_struct p rid rid' refl ∙ its_probe old rib table rid known)
            (there_is old rib table rid known) in
        (
          put_lsas p rib₁ rid',
          rw (known, found) (rw e (rw put refl)),
          after,
          refl,
          put,
          rid',
          again,
          ord',
          refl,
        )
