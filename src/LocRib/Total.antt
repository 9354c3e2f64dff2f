-- ===== src/LocRib/Total.antt =====
-- recompute_rid of loc_rib.c comes to an end, and no abort is called on the way.
use dvpn.Base.{
  ℕ, zero, suc, ◌%◌, ◌≤◌, ◌≡◌, refl, Bool, true, false, not, ◌==◌, ltb, [], ◌∷◌, length,
  length-drop, drop, Option, none, some, Result, ok, ◌>>=◌, arith, Bool-cases, inl, inr,
  Option-cases,
}
use dvpn.Bytes.{Bytes}
use dvpn.Avl.Order.{Each, Each-append_left, Each-append_right}
use dvpn.Avl.Walk.{Tree, leaf, node, in_order}
use dvpn.Lsa.Types.{Attr, Lsa, node_id_len, attr_type_adv_path}
use dvpn.Lsa.Platform.{Platform}
use dvpn.Lsa.Build.{attr_data, lsa_find_attr}
use dvpn.Lsa.Peer.{LsaPeerInfo, lsa_get_peer_info}
use dvpn.AdjRibIn.Rib.{Obj, rib_cost_unreachable}
use dvpn.LocRib.State.{LsaRef, RibId, LocRib, rib_cost_ineligible, lsa_get_version, find_recent_lsa}
use dvpn.LocRib.Cost.{
  traverse, with_hop, with_next, hops_cost, from_me, along, lsa_path_cost, shorter, has_path,
  lsa_has_shorter_adv_path,
}
use dvpn.LocRib.Update.{Best, consider, refresh, lsa_of}

abbrev pub Returns {ℓ} : {A : Type ℓ} → Result A → Type ℓ
Returns {A = A} m = (a : A) × (m ≡ ok a)

pub Returns-bind {ℓ κ} :
    {A : Type ℓ} {B : Type κ} (m : Result A) (f : A → Result B)
    → Returns m
    → ((a : A) → m ≡ ok a → Returns (f a))
    → Returns (m >>= f)
Returns-bind m f (a, e) h = let (b, k) = h a e in (b, rw e k)

module _ (p : Platform) where
  abbrev pub IsWholePath : Option Attr → Type 0
  IsWholePath none = ⊥
  IsWholePath (some a) = length (attr_data p a) % node_id_len ≡ 0

  -- An advertisement with a path of whole ids.
  abbrev pub HasPath : Lsa → Type 0
  HasPath lsa = IsWholePath (lsa_find_attr lsa attr_type_adv_path [])

  with_hop-Returns :
      (forward reverse : Option LsaPeerInfo) (t : Bool) (k : Bool → ℕ → Result ℕ)
      → ((t' : Bool) (m : ℕ) → Returns (k t' m))
      → Returns (with_hop forward reverse t k)
  with_hop-Returns none reverse t k h = (rib_cost_unreachable, refl)
  with_hop-Returns (some f) none t k h = (rib_cost_unreachable, refl)
  with_hop-Returns (some f) (some r) t k h = elim (Option-cases (traverse t f r)) [
    | inl e ↦ rw (e, with_hop) (rib_cost_unreachable, refl)
    | inr (t', e) ↦ rw (e, with_hop) (h t' f.metric)
  ]

  with_next-Returns :
      (to from : Option Lsa) (t : Bool) (k : Lsa → Bool → ℕ → Result ℕ)
      → ((to : Lsa) (t' : Bool) (m : ℕ) → Returns (k to t' m))
      → Returns (with_next p to from t k)
  with_next-Returns none from t k h = (rib_cost_unreachable, refl)
  with_next-Returns (some to) none t k h = h to t 0
  with_next-Returns (some to) (some from) t k h =
      with_hop-Returns (lsa_get_peer_info p from to.id) (lsa_get_peer_info p to from.id) t (k to)
        (h to)

  module _ (rib : LocRib) where
    hops_cost-Returns :
        (fuel : ℕ) (path : Bytes) (from : Option Lsa) (t : Bool) (cost : ℕ)
        → length path ≤ fuel
        → Returns (hops_cost p rib fuel path from t cost)
    unfolding hops_cost
    hops_cost-Returns zero [] from t cost h = (cost, refl)
    hops_cost-Returns (suc fuel) [] from t cost h = (cost, refl)
    hops_cost-Returns zero (b ∷ path) from t cost h = absurd (omega arith)
    hops_cost-Returns (suc fuel) (b ∷ path) from t cost h =
        with_next-Returns (find_recent_lsa p rib _) from t _ (λ to t' m.
          hops_cost-Returns fuel (drop node_id_len (b ∷ path)) (some to) t' _
            (omega (arith, length-drop node_id_len (b ∷ path))))

    from_me-Returns : (path : Bytes) (me : Option Bytes) → Returns (from_me p rib path me)
    from_me-Returns path none = hops_cost-Returns (length path) path none true 0 (omega arith)
    from_me-Returns path (some me) = elim (Option-cases (find_recent_lsa p rib me)) [
      | inl e ↦ rw (e, from_me) (rib_cost_unreachable, refl)
      | inr (from, e) ↦
          rw (e, from_me) (hops_cost-Returns (length path) path (some from) true 0 (omega arith))
    ]

    along-Returns : (a : Option Attr) → IsWholePath a → Returns (along p rib a)
    along-Returns none h = absurd h
    along-Returns (some a) h =
        let whole : not (length (attr_data p a) % node_id_len == 0) ≡ false = ground arith in
        rw whole (from_me-Returns (attr_data p a) rib.myid)

    -- lsa_path_cost returns a cost for every advertisement with a path of whole ids: the loop along the
    -- path ends, and none of the aborts is reached.
    pub lsa_path_cost-Returns :
        (rid : RibId) (lsa : Lsa) → HasPath lsa → Returns (lsa_path_cost p rib rid lsa)
    unfolding lsa_path_cost
    lsa_path_cost-Returns rid lsa h =
        elim (Bool-cases (ltb (lsa_get_version p lsa) rid.highest_version_seen)) [
          | inl e ↦ rw e (rib_cost_ineligible, refl)
          | inr e ↦ rw e (along-Returns (lsa_find_attr lsa attr_type_adv_path []) h)
        ]

  abbrev BestHasPath : Option Obj → Type 0
  BestHasPath none = Unit
  BestHasPath (some o) = HasPath o.lsa

  shorter-Returns : (a b : Option Attr) → IsWholePath a → IsWholePath b → Returns (shorter p a b)
  shorter-Returns none b h k = absurd h
  shorter-Returns (some a) none h k = absurd k
  shorter-Returns (some a) (some b) h k = (_, refl)

  has_path-Returns : (a : Option Attr) → IsWholePath a → Returns (has_path p a)
  has_path-Returns none h = absurd h
  has_path-Returns (some a) h = (false, refl)

  has_shorter-Returns :
      (a : Lsa) (b : Option Obj)
      → HasPath a
      → BestHasPath b
      → Returns (lsa_has_shorter_adv_path p a (lsa_of b))
  unfolding lsa_has_shorter_adv_path
  has_shorter-Returns a none h k = has_path-Returns (lsa_find_attr a attr_type_adv_path []) h
  has_shorter-Returns a (some b) h k =
      shorter-Returns (lsa_find_attr a attr_type_adv_path [])
        (lsa_find_attr b.lsa attr_type_adv_path []) h k

  abbrev Chooses : Result (LsaRef × Best) → Type 0
  Chooses m = (ref : LsaRef) × (b : Best) × (m ≡ ok (ref, b)) × BestHasPath b.best

  consider-Chooses :
      (ref : LsaRef) (b : Best) (cost : ℕ)
      → HasPath ref.obj.lsa
      → BestHasPath b.best
      → Chooses (consider p ref b cost)
  unfolding consider
  consider-Chooses ref b cost h k =
      let ref' : LsaRef = record ref { cost = cost } in
      let new : Best = record { best = some ref.obj; bestcost = cost } in
      elim (Bool-cases (ltb cost b.bestcost)) [
        | inl l ↦ (ref', new, rw l refl, h)
        | inr g ↦ elim (Bool-cases (cost == b.bestcost)) [
          | inl e ↦
              let (s, run) = has_shorter-Returns ref.obj.lsa b.best h k in
              elim (Bool-cases s) [
                | inl t ↦ (ref', new, rw (g, e, run, t) refl, h)
                | inr f ↦ (ref', b, rw (g, e, run, f) refl, k)
              ]
          | inr n ↦ (ref', b, rw (g, n) refl, k)
        ]
      ]

  abbrev pub Paths : Tree LsaRef → Type 0
  Paths t = Each (λ ref. HasPath ref.obj.lsa) (in_order t)

  module _ (rib : LocRib) (rid : RibId) where
    refresh_chooses :
        (t : Tree LsaRef) (b : Best)
        → Paths t
        → BestHasPath b.best
        → (t' : Tree LsaRef) × (b' : Best) × (refresh p rib rid t b ≡ ok (t', b'))
          × BestHasPath b'.best
    unfolding refresh in_order
    refresh_chooses leaf b h k = (leaf, b, refl, k)
    refresh_chooses (node l a r) b h k =
        let at = Each-append_right _ (in_order l) (a ∷ in_order r) h in
        let (l', b₁, run, k₁) =
          refresh_chooses l b (Each-append_left _ (in_order l) (a ∷ in_order r) h) k in
        let (cost, run₁) = lsa_path_cost-Returns rib rid a.obj.lsa at.0 in
        let (a', b₂, run₂, k₂) = consider-Chooses a b₁ cost at.0 k₁ in
        let (r', b₃, run₃, k₃) = refresh_chooses r b₂ at.1 k₂ in
        (node l' a' r', b₃, rw (run, run₁, run₂, run₃) refl, k₃)

    -- The loop over the advertisements of an id returns if each has a path of whole ids.
    pub refresh-Returns :
        (t : Tree LsaRef)
        → Paths t
        → Returns (refresh p rib rid t (record { best = none; bestcost = rib_cost_ineligible }))
    refresh-Returns t h = let (t', b', run, k) = refresh_chooses t _ h tt in ((t', b'), run)
