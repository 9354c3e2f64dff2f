-- ===== src/Lsa/Alike.antt =====
-- Attributes that hold the same, and lists of them, as lsa_clone makes them.
use dvpn.Base.{◌≤◌, ◌≡◌, refl, ◌∙◌, List, [], ◌∷◌, ◌++◌, length, Ordering}
use dvpn.Avl.Order.{Each, Each-map, Each-append}
use dvpn.Avl.Replace.{IsLast, Each-snoc}
use dvpn.Lsa.Types.{Attr, attr, Data, bytes, attr_set, AttrTree, empty, branch}
use dvpn.Lsa.Compare.{lsa_attr_compare_keys, compare_keys-IsOrder}
use dvpn.Lsa.Insert.{IsKeyed}
use dvpn.Lsa.View.{Items, view_attr, list_view}

-- The same type and key, the same sign, and data that hold the same.
abbrev pub AlikeAttr : Attr → Attr → Type 0
AlikeAttr a b =
    ((c : Attr) → lsa_attr_compare_keys a c ≡ lsa_attr_compare_keys b c)
    × ((c : Attr) → lsa_attr_compare_keys c a ≡ lsa_attr_compare_keys c b)
    × (view_attr a ≡ view_attr b)

abbrev pub Alike : List Attr → List Attr → Type 0
Alike [] [] = Unit
Alike [] (b ∷ bs) = ⊥
Alike (a ∷ more) [] = ⊥
Alike (a ∷ more) (b ∷ bs) = AlikeAttr a b × Alike more bs

pub Alike-append :
    (xs ys us vs : List Attr) → Alike xs us → Alike ys vs → Alike (xs ++ ys) (us ++ vs)
Alike-append [] ys [] vs h k = k
Alike-append [] ys (u ∷ us) vs h k = absurd h
Alike-append (x ∷ xs) ys [] vs h k = absurd h
Alike-append (x ∷ xs) ys (u ∷ us) vs (a, h) k = (a, Alike-append xs ys us vs h k)

pub Alike-IsLast :
    (xs us : List Attr) (a : Attr)
    → Alike xs us
    → IsLast lsa_attr_compare_keys us a
    → IsLast lsa_attr_compare_keys xs a
Alike-IsLast [] us a h k = tt
Alike-IsLast (x ∷ xs) [] a h k = absurd h
Alike-IsLast (x ∷ xs) (u ∷ us) a ((l, r, v), h) (q, k) = (l a ∙ q, Alike-IsLast xs us a h k)

pub Alike-view :
    (xs us : List Attr) (tail : Items) → Alike xs us → list_view xs tail ≡ list_view us tail
unfolding list_view
Alike-view [] [] tail h = refl
Alike-view [] (u ∷ us) tail h = absurd h
Alike-view (x ∷ xs) [] tail h = absurd h
Alike-view (x ∷ xs) (u ∷ us) tail ((l, r, v), h) = rw (v, Alike-view xs us tail h) refl

-- Keys can be searched for, and sets are in order, at every depth.
abbrev mutual
  pub TreeKeyed : AttrTree → Type 0
  TreeKeyed empty = Unit
  TreeKeyed (branch l a r) = TreeKeyed l × AttrKeyed a × TreeKeyed r

  pub AttrKeyed : Attr → Type 0
  AttrKeyed (attr type sign key d) = (length key ≤ 65536) × DataKeyed d

  pub DataKeyed : Data → Type 0
  DataKeyed (bytes d) = Unit
  DataKeyed (attr_set set) = IsKeyed set × TreeKeyed set

-- What comes behind a set.
abbrev pub Behind : List Attr → List Attr → Type 0
Behind xs ys = Each (IsLast lsa_attr_compare_keys xs) ys

pub Behind-step :
    (xs new us : List Attr) (a a' : Attr) (ys : List Attr)
    → Behind xs ys
    → Alike new us
    → AlikeAttr a' a
    → IsLast lsa_attr_compare_keys us a
    → Each (λ y. lsa_attr_compare_keys a y ≡ Ordering.lt) ys
    → Behind ((xs ++ new) ++ a' ∷ []) ys
Behind-step xs new us a a' [] h k l m n = tt
Behind-step xs new us a a' (y ∷ ys) (h, hs) k (l, r, v) m (n, ns) =
    let before = Each-map us (λ x q. compare_keys-IsOrder.trans x a y q n) m in
    (
      Each-snoc _ (xs ++ new) a' (Each-append _ xs new h (Alike-IsLast new us y k before))
          (l y ∙ n),
      Behind-step xs new us a a' ys hs k (l, r, v) m ns,
    )
