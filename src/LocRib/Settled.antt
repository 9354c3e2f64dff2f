-- ===== src/LocRib/Settled.antt =====
-- After recompute_rib of loc_rib.c each id has its best advertisement.

use dvpn.Base.{
  ◌<◌, ◌≡◌, refl, sym, ap, ◌∙◌, subst, false, List, [], ◌∷◌, ◌++◌, append_assoc, append-nil, none,
  ok, ◌⊎◌, inl, inr,
}
use dvpn.Avl.Order.{Each, Each-map, Each-append, Sorted}
use dvpn.Avl.Walk.{Tree, in_order}
use dvpn.Lsa.Platform.{Platform}
use dvpn.Bytes.{Bytes}
use dvpn.LocRib.State.{LsaRef, RibId, LocRib, rib_cost_ineligible, compare_ids, find_recent_lsa}
use dvpn.LocRib.Cost.{lsa_path_cost}
use dvpn.LocRib.Update.{Best, refresh, recompute_rid, recompute_rids, recompute_rib}
use dvpn.LocRib.Best.{Beats, OneOf, Costed, IsRefreshed, refresh-IsRefreshed}
use dvpn.LocRib.Eligible.{refresh-IsEligible, chosen-IsEligible}
use dvpn.LocRib.Total.{refresh-Returns}
use dvpn.LocRib.Choose.{
  SameAt, OldOrNew, same_none, with_best, IsReady, choose-ok, OneOf-OldOrNew, SameRefs,
  SameLsas-SameRefs, SameRefs-Each, SameLsas-last,
}
use dvpn.LocRib.Views.{put_id_at, Sorted-middle, SameView, find_recent_middle, lsa_path_cost_view}

abbrev pub nothing : Best
nothing = record { best = none; bestcost = rib_cost_ineligible }

abbrev pub best_of : RibId → Best
best_of rid = record { best = rid.best; bestcost = rid.bestcost }

module _ (p : Platform) where
  -- The costs are those of the paths; the best is no worse than any, and is one of them that is
  -- eligible, or there is none, with the cost of the ineligible.
  abbrev pub IsSettled : LocRib → RibId → Type 0
  IsSettled rib rid =
      Costed p rib rid (in_order rid.lsas)
      × Each (Beats p (best_of rid)) (in_order rid.lsas)
      × ((best_of rid ≡ nothing)
          ⊎ (OneOf p (best_of rid) (in_order rid.lsas) × (rid.bestcost < rib_cost_ineligible)))

  -- The same id with the same advertisements.
  abbrev pub SameContent : RibId → RibId → Type 0
  SameContent a b =
      (a.id ≡ b.id)
      × (a.highest_version_seen ≡ b.highest_version_seen)
      × SameRefs p (in_order a.lsas) (in_order b.lsas)

  chosen_new :
      (rib : LocRib) (rid : RibId) (t' : Tree LsaRef) (b : Best)
      → IsReady p rid
      → IsRefreshed p rib rid rid.lsas nothing t' b
      → OldOrNew rid.best b.best
  chosen_new rib rid t' b (q, h, s) r = elim r.from [
    | inl e ↦ subst (λ (c : Best). OldOrNew rid.best c.best) (sym e) (same_none rid.best)
    | inr k ↦
        OneOf-OldOrNew p rid.best b (in_order t')
          (SameRefs-Each p (SameAt rid.best) (in_order rid.lsas) (in_order t')
            (SameLsas-SameRefs p rid.lsas t' r.same) s)
          k
  ]

  eligible_or_nothing :
      (rib : LocRib) (rid : RibId) (t' : Tree LsaRef) (b : Best)
      → refresh p rib rid rid.lsas nothing ≡ ok (t', b)
      → (b ≡ nothing) ⊎ OneOf p b (in_order t')
      → (b ≡ nothing) ⊎ (OneOf p b (in_order t') × (b.bestcost < rib_cost_ineligible))
  eligible_or_nothing rib rid t' b run (inl e) = inl e
  eligible_or_nothing rib rid t' b run (inr h) =
      let ok_b = refresh-IsEligible p rib rid rid.lsas nothing (t', b) run refl in
      inr (h, chosen-IsEligible p b (in_order t') h ok_b)

  abbrev Recomputed : LocRib → List RibId → RibId → List RibId → LocRib → RibId → Type 0
  Recomputed rib xs rid ys rib' rid' =
      (in_order rib'.ids ≡ xs ++ rid' ∷ ys)
      × (rib'.myid ≡ rib.myid)
      × (rib'.recompute ≡ rib.recompute)
      × IsSettled rib rid'
      × SameContent rid rid'
      × SameView p rid rid'

  recompute_rid-Recomputed :
      (rib : LocRib) (xs : List RibId) (rid : RibId) (ys : List RibId)
      → Sorted compare_ids (in_order rib.ids)
      → in_order rib.ids ≡ xs ++ rid ∷ ys
      → IsReady p rid
      → (rib' : LocRib) × (rid' : RibId) × (recompute_rid p rib rid ≡ ok rib')
        × Recomputed rib xs rid ys rib' rid'
  unfolding recompute_rid lsa_path_cost
  recompute_rid-Recomputed rib xs rid ys s e ready =
      let ((t', b), run) = refresh-Returns p rib rid rid.lsas ready.0 in
      let r = refresh-IsRefreshed p rib rid rid.lsas nothing t' b run in
      let costed : RibId = record rid { lsas = t' } in
      let (rib', run', ids, me, task) =
        choose-ok p rib costed b ready.1 (chosen_new rib rid t' b ready r) in
      let rid' = with_best costed b in
      (
        rib',
        rid',
        rw (run, run') refl,
        (
          ap in_order ids ∙ put_id_at rib.ids xs rid rid' ys s e refl,
          me,
          task,
          (r.costs, r.beaten, eligible_or_nothing rib rid t' b run r.from),
          (refl, refl, SameLsas-SameRefs p rid.lsas t' r.same),
          (refl, refl, SameLsas-last p rid.highest_version_seen rid.lsas t' r.same),
        ),
      )

  IsSettled-view :
      (rib rib' : LocRib) (rid : RibId)
      → ((id : Bytes) → find_recent_lsa p rib id ≡ find_recent_lsa p rib' id)
      → rib'.myid ≡ rib.myid
      → IsSettled rib rid
      → IsSettled rib' rid
  IsSettled-view rib rib' rid view me (costs, beats, from) = (
    Each-map (in_order rid.lsas)
        (λ ref h. sym (lsa_path_cost_view p rib rib' view rid rid ref.obj.lsa (sym me) refl) ∙ h)
        costs,
    beats,
    from,
  )

  abbrev pub SameContents : List RibId → List RibId → Type 0
  SameContents [] [] = Unit
  SameContents [] (y ∷ ys) = ⊥
  SameContents (x ∷ xs) [] = ⊥
  SameContents (x ∷ xs) (y ∷ ys) = SameContent x y × SameContents xs ys

  -- The loop over the ids, of which those of `xs` are done.
  recompute_rids_settles :
      (ys : List RibId) (rib : LocRib) (xs : List RibId)
      → Sorted compare_ids (in_order rib.ids)
      → in_order rib.ids ≡ xs ++ ys
      → Each (IsReady p) ys
      → Each (IsSettled rib) xs
      → (rib' : LocRib) × (zs : List RibId) × (recompute_rids p rib ys ≡ ok rib')
        × (in_order rib'.ids ≡ xs ++ zs)
        × Each (IsSettled rib') (xs ++ zs)
        × SameContents ys zs
        × (rib'.recompute ≡ rib.recompute)
  unfolding recompute_rids
  recompute_rids_settles [] rib xs s e ready done =
      (rib, [], refl, e, subst (Each (IsSettled rib)) (sym (append-nil xs)) done, tt, refl)
  recompute_rids_settles (rid ∷ ys) rib xs s e (q, ready) done =
      let (rib₁, rid', run, (e₁, me, task, settled, content, view)) =
        recompute_rid-Recomputed rib xs rid ys s e q in
      let views = find_recent_middle p rib rib₁ xs rid rid' ys s e e₁ view in
      let s₁ =
        subst (Sorted compare_ids) (sym e₁)
          (Sorted-middle xs rid rid' ys (sym view.0) (subst (Sorted compare_ids) e s)) in
      let keep = λ (x : RibId) (h : IsSettled rib x). IsSettled-view rib rib₁ x views me h in
      let done₁ =
        Each-append (IsSettled rib₁) xs (rid' ∷ []) (Each-map xs keep done)
          (keep rid' settled, tt) in
      let (rib₂, zs, run₂, e₂, done₂, contents, task₂) =
        recompute_rids_settles ys rib₁ (xs ++ rid' ∷ []) s₁
          (e₁ ∙ sym (append_assoc xs (rid' ∷ []) ys)) ready done₁ in
      let all = append_assoc xs (rid' ∷ []) zs in
      (
        rib₂,
        rid' ∷ zs,
        rw (run, run₂) refl,
        e₂ ∙ all,
        subst (Each (IsSettled rib₂)) all done₂,
        (content, contents),
        task₂ ∙ task,
      )

  -- If the ids of the table are in order and every advertisement in it has a path of whole ids,
  -- recompute_rib returns: the task is not registered any more, the same advertisements stand under the
  -- same ids, each with the cost of its path, and each id has as its best one that is eligible and costs
  -- least, of those one with the shortest path, or none where none is eligible. What the best so far point to must be
  -- sound, and be what the table has at its address, if it has anything there.
  pub recompute_rib_settles :
      (rib : LocRib)
      → Sorted compare_ids (in_order rib.ids)
      → Each (IsReady p) (in_order rib.ids)
      → (rib' : LocRib) × (recompute_rib p rib ≡ ok rib')
        × (rib'.recompute ≡ false)
        × SameContents (in_order rib.ids) (in_order rib'.ids)
        × Each (IsSettled rib') (in_order rib'.ids)
  unfolding recompute_rib
  recompute_rib_settles rib s ready =
      let (rib', zs, run, e, settled, contents, task) =
        recompute_rids_settles (in_order rib.ids) (record rib { recompute = false }) [] s refl ready
          tt in
      (
        rib',
        run,
        task,
        subst (SameContents (in_order rib.ids)) (sym e) contents,
        subst (Each (IsSettled rib')) (sym e) settled,
      )
