-- ===== src/LocRib/Best.antt =====
-- The choice that recompute_rid of loc_rib.c makes among the advertisements of one id.
use dvpn.Base.{
  ℕ, ◌≤◌, ◌≡◌, refl, sym, ap, ◌∙◌, subst, Bool, true, false, ◌==◌, ltb, if◌then◌else◌, List, [],
  ◌∷◌, ◌++◌, length, Option, none, some, ok, value_of_bind, arith, Bool-cases, ◌⊎◌, inl, inr,
}
use dvpn.Avl.Order.{Each, Each-map, Each-append}
use dvpn.Avl.Walk.{Tree, leaf, node, in_order}
use dvpn.Lsa.Types.{Attr, Lsa, attr_type_adv_path}
use dvpn.Lsa.Platform.{Platform}
use dvpn.Lsa.Build.{attr_data, lsa_find_attr}
use dvpn.AdjRibIn.Rib.{Obj}
use dvpn.LocRib.State.{LsaRef, RibId, LocRib}
use dvpn.LocRib.Cost.{lsa_path_cost, lsa_has_shorter_adv_path, shorter, has_path}
use dvpn.LocRib.Update.{Best, consider, refresh, lsa_of}

pub ok_injective {ℓ} : {A : Type ℓ} {a b : A} → ok a ≡ ok b → a ≡ b
ok_injective h = cc

module _ (p : Platform) where
  abbrev length_of : Option Attr → ℕ
  length_of none = 0
  length_of (some a) = length (attr_data p a)

  -- The length of the path that an advertisement has come along, in bytes.
  pub path_length : Lsa → ℕ
  path_length lsa = length_of (lsa_find_attr lsa attr_type_adv_path [])

  abbrev pub NotLonger : Option Obj → Obj → Type 0
  NotLonger none a = Unit
  NotLonger (some b) a = path_length b.lsa ≤ path_length a.lsa

  -- It costs less than the reference, or the same over a path that is not longer.
  abbrev pub Beats : Best → LsaRef → Type 0
  Beats b ref = (b.bestcost ≤ ref.cost) × (b.bestcost ≡ ref.cost → NotLonger b.best ref.obj)

  abbrev NotLongerThan : Option Obj → Option Obj → Type 0
  NotLongerThan new none = new ≡ none
  NotLongerThan new (some b) = NotLonger new b

  abbrev Improves : Best → Best → Type 0
  Improves new old =
      (new.bestcost ≤ old.bestcost)
      × (new.bestcost ≡ old.bestcost → NotLongerThan new.best old.best)

  abbrev Is : Best → LsaRef → Type 0
  Is b ref = (b.best ≡ some ref.obj) × (b.bestcost ≡ ref.cost)

  abbrev pub OneOf : Best → List LsaRef → Type 0
  OneOf b [] = ⊥
  OneOf b (ref ∷ refs) = Is b ref ⊎ OneOf b refs

  shorter-eq :
      (a b : Option Attr) (s : Bool) → shorter p a b ≡ ok s → s ≡ ltb (length_of a) (length_of b)
  shorter-eq none b s h = cc
  shorter-eq (some a) none s h = cc
  shorter-eq (some a) (some b) s h = cc

  has_path-false : (a : Option Attr) (s : Bool) → has_path p a ≡ ok s → s ≡ false
  has_path-false none s h = cc
  has_path-false (some a) s h = cc

  abbrev pub ShorterThan : Lsa → Option Obj → Bool → Type 0
  ShorterThan a none s = s ≡ false
  ShorterThan a (some b) s = s ≡ ltb (path_length a) (path_length b.lsa)

  pub has_shorter-ShorterThan :
      (a : Lsa) (b : Option Obj) (s : Bool)
      → lsa_has_shorter_adv_path p a (lsa_of b) ≡ ok s
      → ShorterThan a b s
  unfolding lsa_has_shorter_adv_path path_length
  has_shorter-ShorterThan a none s h = has_path-false (lsa_find_attr a attr_type_adv_path []) s h
  has_shorter-ShorterThan a (some b) s h =
      shorter-eq (lsa_find_attr a attr_type_adv_path []) (lsa_find_attr b.lsa attr_type_adv_path [])
        s h

  -- After a reference has been looked at, the best is no worse than it was, and no worse than it.
  abbrev Considered : LsaRef → Best → ℕ → LsaRef × Best → Type 0
  Considered ref b cost (ref', b') =
      (ref' ≡ record ref { cost = cost }) × Beats b' ref' × Improves b' b × ((b' ≡ b) ⊎ Is b' ref')

  same_best : (new : Option Obj) → NotLongerThan new new
  same_best none = refl
  same_best (some b) = omega arith

  -- At the same cost the shorter path wins.
  tied :
      (ref : LsaRef) (o : Option Obj) (n cost : ℕ) (s : Bool)
      → (cost == n) ≡ true
      → ShorterThan ref.obj.lsa o s
      → Considered ref
          (record { best = o; bestcost = n })
          cost
          (
            record ref { cost = cost },
            if s
                then record { best = some ref.obj; bestcost = cost }
                else record { best = o; bestcost = n },
          )
  tied ref none n cost true k t = absurd (ground arith)
  tied ref none n cost false k t =
      (refl, (ground arith, λ e. tt), (omega arith, λ e. refl), inl refl)
  tied ref (some o) n cost true k t =
      (refl, (omega arith, λ e. omega arith), (ground arith, λ e. ground arith), inr (refl, refl))
  tied ref (some o) n cost false k t =
      (refl, (ground arith, λ e. ground arith), (omega arith, λ e. omega arith), inl refl)

  module _ (ref : LsaRef) (b : Best) (cost : ℕ) where
    abbrev costed : LsaRef
    costed = record ref { cost = cost }

    abbrev chosen : Best
    chosen = record { best = some ref.obj; bestcost = cost }

    less : ltb cost b.bestcost ≡ true → Considered ref b cost (costed, chosen)
    less h = (
      refl,
      (omega arith, λ e. omega arith),
      (ground arith, λ e. absurd (ground arith)),
      inr (refl, refl),
    )

    not_less :
        ltb cost b.bestcost ≡ false
        → (cost == b.bestcost) ≡ false
        → Considered ref b cost (costed, b)
    not_less h k = (
      refl,
      (ground arith, λ e. absurd (ground arith)),
      (omega arith, λ e. same_best b.best),
      inl refl,
    )

    consider-Considered :
        (r : LsaRef × Best) → consider p ref b cost ≡ ok r → Considered ref b cost r
    unfolding consider
    consider-Considered r h = elim (Bool-cases (ltb cost b.bestcost)) [
      | inl l ↦ subst (Considered ref b cost) (ok_injective (rw l at h)) (less l)
      | inr g ↦ elim (Bool-cases (cost == b.bestcost)) [
        | inl e ↦
            let (s, run, out) =
              value_of_bind (lsa_has_shorter_adv_path p ref.obj.lsa (lsa_of b.best)) _
                (rw (g, e) at h) in
            subst (Considered ref b cost) (ok_injective out) (
              tied ref b.best b.bestcost cost s e
                (has_shorter-ShorterThan ref.obj.lsa b.best s run))
        | inr n ↦ subst (Considered ref b cost) (ok_injective (rw (g, n) at h)) (not_less g n)
      ]
    ]

  NotLonger-trans :
      (new old : Option Obj) (x : Obj) → NotLongerThan new old → NotLonger old x → NotLonger new x
  NotLonger-trans new none x h k = subst (λ o. NotLonger o x) (sym h) tt
  NotLonger-trans none (some b) x h k = tt
  NotLonger-trans (some a) (some b) x h k = omega arith

  NotLongerThan-trans :
      (a b c : Option Obj) → NotLongerThan a b → NotLongerThan b c → NotLongerThan a c
  NotLongerThan-trans a b none h k = subst (NotLongerThan a) k h
  NotLongerThan-trans a b (some c) h k = NotLonger-trans a b c h k

  Beats-Improves : (new old : Best) (x : LsaRef) → Improves new old → Beats old x → Beats new x
  Beats-Improves new old x (h, i) (k, j) = (
    omega arith,
    λ e. NotLonger-trans new.best old.best x.obj (i (omega arith)) (j (omega arith)),
  )

  Improves-trans : (a b c : Best) → Improves a b → Improves b c → Improves a c
  Improves-trans a b c (h, i) (k, j) = (
    omega arith,
    λ e. NotLongerThan-trans a.best b.best c.best (i (omega arith)) (j (omega arith)),
  )

  OneOf-append_left : (b : Best) (xs ys : List LsaRef) → OneOf b xs → OneOf b (xs ++ ys)
  OneOf-append_left b [] ys h = absurd h
  OneOf-append_left b (x ∷ xs) ys (inl h) = inl h
  OneOf-append_left b (x ∷ xs) ys (inr h) = inr (OneOf-append_left b xs ys h)

  OneOf-append_right : (b : Best) (xs ys : List LsaRef) → OneOf b ys → OneOf b (xs ++ ys)
  OneOf-append_right b [] ys h = h
  OneOf-append_right b (x ∷ xs) ys h = inr (OneOf-append_right b xs ys h)

  -- The same advertisements stand in both trees, in the same places.
  abbrev pub SameLsas : Tree LsaRef → Tree LsaRef → Type 0
  SameLsas leaf leaf = Unit
  SameLsas leaf (node l a r) = ⊥
  SameLsas (node l a r) leaf = ⊥
  SameLsas (node l a r) (node l' a' r') = SameLsas l l' × (a.obj ≡ a'.obj) × SameLsas r r'

  module _ (rib : LocRib) (rid : RibId) where
    abbrev pub Costed : List LsaRef → Type 0
    Costed refs = Each (λ ref. lsa_path_cost p rib rid ref.obj.lsa ≡ ok ref.cost) refs

    pub record IsRefreshed (t : Tree LsaRef) (b : Best) (t' : Tree LsaRef) (b' : Best)
        : Type 0 where
      pub costs : Costed (in_order t')
      pub beaten : Each (Beats b') (in_order t')
      pub better : Improves b' b
      pub from : (b' ≡ b) ⊎ OneOf b' (in_order t')
      pub same : SameLsas t t'

    abbrev from_parts :
        (b b₁ b₂ b₃ : Best) (xs : List LsaRef) (a : LsaRef) (ys : List LsaRef)
        → (b₁ ≡ b) ⊎ OneOf b₁ xs
        → (b₂ ≡ b₁) ⊎ Is b₂ a
        → (b₃ ≡ b₂) ⊎ OneOf b₃ ys
        → (b₃ ≡ b) ⊎ OneOf b₃ (xs ++ a ∷ ys)
    from_parts b b₁ b₂ b₃ xs a ys h k (inr j) = inr (OneOf-append_right b₃ xs (a ∷ ys) (inr j))
    from_parts b b₁ b₂ b₃ xs a ys h (inr k) (inl j) =
        inr (OneOf-append_right b₃ xs (a ∷ ys) (inl (subst (λ c. Is c a) (sym j) k)))
    from_parts b b₁ b₂ b₃ xs a ys (inr h) (inl k) (inl j) =
        inr (OneOf-append_left b₃ xs (a ∷ ys) (subst (λ c. OneOf c xs) (sym (j ∙ k)) h))
    from_parts b b₁ b₂ b₃ xs a ys (inl h) (inl k) (inl j) = inl (j ∙ k ∙ h)

    refresh_node :
        (l r l' r' : Tree LsaRef) (a a' : LsaRef) (cost : ℕ) (b b₁ b₂ b₃ : Best)
        → IsRefreshed l b l' b₁
        → lsa_path_cost p rib rid a.obj.lsa ≡ ok cost
        → Considered a b₁ cost (a', b₂)
        → IsRefreshed r b₂ r' b₃
        → IsRefreshed (node l a r) b (node l' a' r') b₃
    unfolding in_order
    refresh_node l r l' r' a a' cost b b₁ b₂ b₃ hl run (e, beats, improves, from) hr =
        let better₁ = Improves-trans b₃ b₂ b₁ hr.better improves in
        record {
          costs = Each-append _ (in_order l') (a' ∷ in_order r') hl.costs (
            subst (λ (q : LsaRef). lsa_path_cost p rib rid q.obj.lsa ≡ ok q.cost) (sym e) run,
            hr.costs,
          );
          beaten =
              Each-append (Beats b₃) (in_order l') (a' ∷ in_order r')
                (Each-map (in_order l') (λ x h. Beats-Improves b₃ b₁ x better₁ h) hl.beaten)
                (Beats-Improves b₃ b₂ a' hr.better beats, hr.beaten);
          better = Improves-trans b₃ b₁ b better₁ hl.better;
          from = from_parts b b₁ b₂ b₃ (in_order l') a' (in_order r') hl.from from hr.from;
          same = (hl.same, ap (λ (q : LsaRef). q.obj) (sym e), hr.same);
        }

    pub refresh-IsRefreshed :
        (t : Tree LsaRef) (b : Best) (t' : Tree LsaRef) (b' : Best)
        → refresh p rib rid t b ≡ ok (t', b')
        → IsRefreshed t b t' b'
    unfolding refresh in_order
    refresh-IsRefreshed leaf b t' b' h =
        let e = ok_injective h in
        subst (λ (q : Tree LsaRef × Best). IsRefreshed leaf b q.0 q.1) e
          (record {
            costs = tt;
            beaten = tt;
            better = (omega arith, λ e. same_best b.best);
            from = inl refl;
            same = tt;
          })
    refresh-IsRefreshed (node l a r) b t' b' h =
        let (lb, run, next) = value_of_bind (refresh p rib rid l b) _ h in
        let (cost, run₁, next₁) = value_of_bind (lsa_path_cost p rib rid a.obj.lsa) _ next in
        let (ab, run₂, next₂) = value_of_bind (consider p a lb.1 cost) _ next₁ in
        let (rb, run₃, out) = value_of_bind (refresh p rib rid r ab.1) _ next₂ in
        let left = refresh-IsRefreshed l b lb.0 lb.1 run in
        let right = refresh-IsRefreshed r ab.1 rb.0 rb.1 run₃ in
        subst (λ (q : Tree LsaRef × Best). IsRefreshed (node l a r) b q.0 q.1) (ok_injective out)
          (refresh_node l r lb.0 rb.0 a ab.0 cost b lb.1 ab.1 rb.1 left run₁
            (consider-Considered a lb.1 cost ab run₂) right)
