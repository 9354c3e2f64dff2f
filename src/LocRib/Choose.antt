-- ===== src/LocRib/Choose.antt =====
-- What recompute_rid of loc_rib.c does with the best that it has chosen.
use dvpn.Base.{
  ℕ, ◌≡◌, refl, sym, ap, subst, true, ◌&&◌, ◌==◌, List, [], ◌∷◌, ◌++◌, Option, none, some, ok,
  arith, Bool-cases, inl, inr,
}
use dvpn.Avl.Order.{Each}
use dvpn.Avl.Walk.{Tree, leaf, node, in_order}
use dvpn.Lsa.Platform.{Platform}
use dvpn.AdjRibIn.Rib.{Obj, tell}
use dvpn.AdjRibIn.Notify.{Sound, put_obj-ok}
use dvpn.LocRib.State.{LsaRef, RibId, LocRib, if_recent, last}
use dvpn.LocRib.Update.{Best, best_event, same_obj, put_best, get_best, put_id, choose}
use dvpn.LocRib.Best.{OneOf, SameLsas}
use dvpn.LocRib.Total.{Returns, Paths}

abbrev pub SoundBest : Option Obj → Type 0
SoundBest none = Unit
SoundBest (some o) = Sound o

-- What the best so far points to is in the tree as it was, if an advertisement of the tree stands at
-- its address.
abbrev pub SameAt : Option Obj → Obj → Type 0
SameAt none x = Unit
SameAt (some o) x = o.addr ≡ x.addr → o ≡ x

put_best-Returns : (counts : ℕ → ℕ) (o : Option Obj) → SoundBest o → Returns (put_best counts o)
put_best-Returns counts none h = (counts, refl)
put_best-Returns counts (some o) h = put_obj-ok counts o h

abbrev pub OldOrNew : Option Obj → Option Obj → Type 0
OldOrNew old new = same_obj old new ≡ true → old ≡ new

pub same_none : (old : Option Obj) → OldOrNew old none
same_none none h = refl
same_none (some o) h = cc

same_at : (old : Option Obj) (x : Obj) → SameAt old x → OldOrNew old (some x)
same_at none x s h = cc
same_at (some o) x s h = ap some (s (ground arith))

-- The struct of an id with another best.
abbrev pub with_best : RibId → Best → RibId
with_best rid b = record rid { best = b.best; bestcost = b.bestcost }

with_best_self :
    (rid : RibId) (b : Best) → rid.best ≡ b.best → rid.bestcost ≡ b.bestcost → rid ≡ with_best rid b
with_best_self rid b e k = λ i. record rid { best = e i; bestcost = k i }

module _ (p : Platform) where
  -- All advertisements have a path of whole ids, and the best so far can be let go.
  abbrev pub IsReady : RibId → Type 0
  IsReady rid =
      Paths p rid.lsas
      × SoundBest rid.best
      × Each (λ ref. SameAt rid.best ref.obj) (in_order rid.lsas)

  pub choose-ok :
      (rib : LocRib) (rid : RibId) (new : Best)
      → SoundBest rid.best
      → OldOrNew rid.best new.best
      → (rib' : LocRib) × (choose p rib rid new ≡ ok rib')
        × (rib'.ids ≡ put_id (with_best rid new) rib.ids)
        × (rib'.myid ≡ rib.myid)
        × (rib'.recompute ≡ rib.recompute)
  unfolding choose
  choose-ok rib rid new h same =
      elim (Bool-cases (same_obj rid.best new.best && (rid.bestcost == new.bestcost))) [
        | inl e ↦ (
          record rib { ids = put_id rid rib.ids },
          rw e refl,
          ap (λ q. put_id q rib.ids) (with_best_self rid new (same (ground arith)) (ground arith)),
          refl,
          refl,
        )
        | inr e ↦
            let (counts, run) = put_best-Returns (get_best rib.counts new.best) rid.best h in
            (
              record rib {
                ids = put_id (with_best rid new) rib.ids;
                counts = counts;
                calls =
                    rib.calls
                    ++ tell rib.listeners
                        (best_event (record { best = rid.best; bestcost = rid.bestcost }) new);
              },
              rw (e, run) refl,
              refl,
              refl,
              refl,
            )
      ]

  pub OneOf-OldOrNew :
      (old : Option Obj) (b : Best) (refs : List LsaRef)
      → Each (λ ref. SameAt old ref.obj) refs
      → OneOf p b refs
      → OldOrNew old b.best
  OneOf-OldOrNew old b [] h k = absurd k
  OneOf-OldOrNew old b (x ∷ xs) (s, h) (inl (e, c)) =
      subst (OldOrNew old) (sym e) (same_at old x.obj s)
  OneOf-OldOrNew old b (x ∷ xs) (s, h) (inr k) = OneOf-OldOrNew old b xs h k

  -- The same advertisements in another tree.
  abbrev pub SameRefs : List LsaRef → List LsaRef → Type 0
  SameRefs [] [] = Unit
  SameRefs [] (y ∷ ys) = ⊥
  SameRefs (x ∷ xs) [] = ⊥
  SameRefs (x ∷ xs) (y ∷ ys) = (x.obj ≡ y.obj) × SameRefs xs ys

  SameRefs-append :
      (xs ys xs' ys' : List LsaRef)
      → SameRefs xs xs'
      → SameRefs ys ys'
      → SameRefs (xs ++ ys) (xs' ++ ys')
  SameRefs-append [] ys [] ys' h k = k
  SameRefs-append [] ys (x' ∷ xs') ys' h k = absurd h
  SameRefs-append (x ∷ xs) ys [] ys' h k = absurd h
  SameRefs-append (x ∷ xs) ys (x' ∷ xs') ys' (e, h) k = (e, SameRefs-append xs ys xs' ys' h k)

  pub SameLsas-SameRefs :
      (t t' : Tree LsaRef) → SameLsas p t t' → SameRefs (in_order t) (in_order t')
  unfolding in_order
  SameLsas-SameRefs leaf leaf h = tt
  SameLsas-SameRefs leaf (node l' a' r') h = absurd h
  SameLsas-SameRefs (node l a r) leaf h = absurd h
  SameLsas-SameRefs (node l a r) (node l' a' r') (hl, e, hr) =
      SameRefs-append (in_order l) (a ∷ in_order r) (in_order l') (a' ∷ in_order r')
        (SameLsas-SameRefs l l' hl) (e, SameLsas-SameRefs r r' hr)

  pub SameRefs-Each :
      (P : Obj → Type 0) (xs ys : List LsaRef)
      → SameRefs xs ys
      → Each (λ ref. P ref.obj) xs
      → Each (λ ref. P ref.obj) ys
  SameRefs-Each P [] [] s h = tt
  SameRefs-Each P [] (y ∷ ys) s h = absurd s
  SameRefs-Each P (x ∷ xs) [] s h = absurd s
  SameRefs-Each P (x ∷ xs) (y ∷ ys) (e, s) (q, h) = (subst P e q, SameRefs-Each P xs ys s h)

  pub SameLsas-last :
      (seen : ℕ) (t t' : Tree LsaRef)
      → SameLsas p t t'
      → if_recent p seen (last t) ≡ if_recent p seen (last t')
  unfolding last
  SameLsas-last seen leaf leaf h = refl
  SameLsas-last seen leaf (node l' a' r') h = absurd h
  SameLsas-last seen (node l a r) leaf h = absurd h
  SameLsas-last seen (node l a leaf) (node l' a' leaf) (hl, e, hr) =
      ap (λ (o : Obj). if_recent p seen (some (record { obj = o; cost = 0 }))) e
  SameLsas-last seen (node l a leaf) (node l' a' (node rl b rr)) (hl, e, hr) = absurd hr
  SameLsas-last seen (node l a (node rl b rr)) (node l' a' leaf) (hl, e, hr) = absurd hr
  SameLsas-last seen (node l a (node rl b rr)) (node l' a' (node rl' b' rr')) (hl, e, hr) =
      SameLsas-last seen (node rl b rr) (node rl' b' rr') hr
