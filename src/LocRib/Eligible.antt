-- ===== src/LocRib/Eligible.antt =====
-- recompute_rid of loc_rib.c never chooses an advertisement that is not eligible.
use dvpn.Base.{
  ℕ, ◌<◌, ◌≡◌, subst, Bool, true, false, ◌==◌, ltb, Option, none, some, ok, value_of_bind, arith,
  Bool-cases, inl, inr, if◌then◌else◌, List, [], ◌∷◌,
}
use dvpn.Avl.Walk.{Tree, leaf, node}
use dvpn.Lsa.Platform.{Platform}
use dvpn.AdjRibIn.Rib.{Obj}
use dvpn.LocRib.State.{LsaRef, RibId, LocRib, rib_cost_ineligible}
use dvpn.LocRib.Cost.{lsa_path_cost, lsa_has_shorter_adv_path}
use dvpn.LocRib.Update.{Best, consider, refresh, lsa_of}
use dvpn.LocRib.Best.{ok_injective, OneOf, ShorterThan, has_shorter-ShorterThan}

-- What is chosen costs less than RIB_COST_INELIGIBLE, which is the cost as long as nothing is chosen.
abbrev pub IsEligible : Option Obj → ℕ → Type 0
IsEligible none n = n ≡ rib_cost_ineligible
IsEligible (some o) n = n < rib_cost_ineligible

abbrev pub BestIsEligible : Best → Type 0
BestIsEligible b = IsEligible b.best b.bestcost

less_eligible :
    (o : Option Obj) (n cost : ℕ) → ltb cost n ≡ true → IsEligible o n → cost < rib_cost_ineligible
less_eligible none n cost h k = ground (arith, k)
less_eligible (some b) n cost h k = ground (arith, k)

module _ (p : Platform) where
  tied_eligible :
      (ref : LsaRef) (o : Option Obj) (n cost : ℕ) (s : Bool)
      → (cost == n) ≡ true
      → ShorterThan p ref.obj.lsa o s
      → IsEligible o n
      → BestIsEligible (
          if s
          then record { best = some ref.obj; bestcost = cost }
          else record { best = o; bestcost = n })
  tied_eligible ref none n cost true e t k = absurd (ground arith)
  tied_eligible ref none n cost false e t k = k
  tied_eligible ref (some o) n cost true e t k = ground (arith, k)
  tied_eligible ref (some o) n cost false e t k = k

  consider-IsEligible :
      (ref : LsaRef) (b : Best) (cost : ℕ) (r : LsaRef × Best)
      → consider p ref b cost ≡ ok r
      → BestIsEligible b
      → BestIsEligible r.1
  unfolding consider
  consider-IsEligible ref b cost r h k = elim (Bool-cases (ltb cost b.bestcost)) [
    | inl l ↦
        subst (λ (q : LsaRef × Best). BestIsEligible q.1) (ok_injective (rw l at h))
          (less_eligible b.best b.bestcost cost l k)
    | inr g ↦ elim (Bool-cases (cost == b.bestcost)) [
      | inl e ↦
          let (s, run, out) =
            value_of_bind (lsa_has_shorter_adv_path p ref.obj.lsa (lsa_of b.best)) _
              (rw (g, e) at h) in
          subst (λ (q : LsaRef × Best). BestIsEligible q.1) (ok_injective out)
            (tied_eligible ref b.best b.bestcost cost s e
              (has_shorter-ShorterThan p ref.obj.lsa b.best s run) k)
      | inr n ↦ subst (λ (q : LsaRef × Best). BestIsEligible q.1) (ok_injective (rw (g, n) at h)) k
    ]
  ]

  pub refresh-IsEligible :
      (rib : LocRib) (rid : RibId) (t : Tree LsaRef) (b : Best) (r : Tree LsaRef × Best)
      → refresh p rib rid t b ≡ ok r
      → BestIsEligible b
      → BestIsEligible r.1
  unfolding refresh
  refresh-IsEligible rib rid leaf b r h k =
      subst (λ (q : Tree LsaRef × Best). BestIsEligible q.1) (ok_injective h) k
  refresh-IsEligible rib rid (node l a r) b out h k =
      let (lb, run, next) = value_of_bind (refresh p rib rid l b) _ h in
      let (cost, run₁, next₁) = value_of_bind (lsa_path_cost p rib rid a.obj.lsa) _ next in
      let (ab, run₂, next₂) = value_of_bind (consider p a lb.1 cost) _ next₁ in
      let (rb, run₃, last) = value_of_bind (refresh p rib rid r ab.1) _ next₂ in
      subst (λ (q : Tree LsaRef × Best). BestIsEligible q.1) (ok_injective last)
        (refresh-IsEligible rib rid r ab.1 rb run₃
          (consider-IsEligible a lb.1 cost ab run₂ (refresh-IsEligible rib rid l b lb run k)))

  -- One of the references that is chosen costs less than RIB_COST_INELIGIBLE.
  pub chosen-IsEligible :
      (b : Best) (refs : List LsaRef)
      → OneOf p b refs
      → BestIsEligible b
      → b.bestcost < rib_cost_ineligible
  chosen-IsEligible b [] h k = absurd h
  chosen-IsEligible b (ref ∷ refs) (inl (e, c)) k = subst (λ o. IsEligible o b.bestcost) e k
  chosen-IsEligible b (ref ∷ refs) (inr h) k = chosen-IsEligible b refs h k
