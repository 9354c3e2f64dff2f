-- ===== src/Diff/Zero.antt =====
-- When lsa_diff counts no difference.
use dvpn.Base.{
  ℕ, ◌+◌, ◌≤◌, ◌≡◌, refl, ◌∙◌, sym, subst, Bool, false, List, [], ◌∷◌, ◌++◌, length, Option, none,
  some, ok, arith, Bool-cases, inl, inr, Ordering,
}
use dvpn.Bytes.{is_eq}
use dvpn.Avl.Order.{Each, first_eq}
use dvpn.Lsa.Types.{Attr, Lsa}
use dvpn.Lsa.Compare.{lsa_attr_compare_keys, compare_keys-IsOrder}
use dvpn.Lsa.Insert.{attrs, IsKeyed}
use dvpn.Serialise.Encoding.{attr_code}
use dvpn.Diff.Trees.{Change, deleted, added, modified}
use dvpn.Diff.Merge.{
  deletions, additions, modifications, only_in, in_both, pair_with, avl_diff-Reports,
}
use dvpn.Diff.Attrs.{Event, mod_calls, on_change, on_changes, lsa_diff}
use dvpn.Diff.Content.{content, attr_cmp-Tells}

-- Serialised attributes that fit the buffers of attr_cmp.
abbrev pub IsSmall : Attr → Type 0
IsSmall a = length (attr_code false none a) ≤ 65520

abbrev pub SmallPair : Attr × Attr → Type 0
SmallPair (a, b) = IsSmall a × IsSmall b

abbrev pub SamePair : Attr × Attr → Type 0
SamePair (a, b) = content a ≡ content b

-- No item is in one list only, and the items in both are alike.
abbrev NoneReported : List (Change Attr) → Type 0
NoneReported cs = (deletions cs ≡ []) × (additions cs ≡ []) × Each SamePair (modifications cs)

abbrev Counts : Bool → List (Change Attr) → Type 0
Counts has_mod cs =
    (n : ℕ) × (es : List Event) × (on_changes has_mod cs ≡ ok (n, es))
    × (n ≡ 0 → NoneReported cs)
    × (NoneReported cs → n ≡ 0)

cons_ne_nil : {A : Type 0} (a : A) (l : List A) → (a ∷ l) ≡ [] → ⊥
cons_ne_nil a l e = cc

on_changes-Counts :
    (has_mod : Bool) (cs : List (Change Attr))
    → Each SmallPair (modifications cs)
    → Counts has_mod cs
unfolding on_changes on_change
on_changes-Counts has_mod [] h = (0, [], refl, (λ e. (refl, refl, tt)), (λ q. refl))
on_changes-Counts has_mod (deleted a ∷ cs) h =
    let (n, es, e, from, to) = on_changes-Counts has_mod cs h in
    (
      1 + n,
      Event.attr_del a ∷ es,
      rw e refl,
      (λ q. absurd (omega arith)),
      (λ q. absurd (cons_ne_nil a (deletions cs) q.0)),
    )
on_changes-Counts has_mod (added a ∷ cs) h =
    let (n, es, e, from, to) = on_changes-Counts has_mod cs h in
    (
      1 + n,
      Event.attr_add a ∷ es,
      rw e refl,
      (λ q. absurd (omega arith)),
      (λ q. absurd (cons_ne_nil a (additions cs) q.1)),
    )
on_changes-Counts has_mod (modified a b ∷ cs) ((ha, hb), h) =
    let (n, es, e, from, to) = on_changes-Counts has_mod cs h in
    let (c, f, same, alike) = attr_cmp-Tells a b ha (omega arith) in
    elim (Bool-cases c) [
      | inl t ↦ (
        1 + n,
        mod_calls has_mod a b ++ es,
        rw (f, t) (rw e refl),
        (λ q. absurd (omega arith)),
        (λ (d, i, (s, m)). absurd (ground (arith, alike s))),
      )
      | inr t ↦ (
        0 + n,
        es,
        rw (f, t) (rw e refl),
        (λ q. let (d, i, m) = from (omega arith) in (d, i, (same t, m))),
        (λ (d, i, (s, m)). omega (arith, to (d, i, m))),
      )
    ]

Each-first_eq :
    {A : Type 0} (P : A → Type 0) (probe : A → Ordering) (ys : List A) (y : A)
    → Each P ys
    → first_eq probe ys ≡ some y
    → P y
unfolding first_eq
Each-first_eq P probe [] y h e = absurd (ground arith)
Each-first_eq P probe (z ∷ ys) y (p, h) e = elim (Bool-cases (is_eq (probe z))) [
  | inl t ↦ subst P (ground arith) p
  | inr t ↦ Each-first_eq P probe ys y h (ground arith)
]

in_both-SmallPair :
    (xs ys : List Attr)
    → Each IsSmall xs
    → Each IsSmall ys
    → Each SmallPair (in_both lsa_attr_compare_keys xs ys)
unfolding in_both
in_both-SmallPair [] ys h k = tt
in_both-SmallPair (x ∷ xs) ys (p, h) k =
    by_partner (first_eq (lsa_attr_compare_keys x) ys) refl (in_both-SmallPair xs ys h k)
  where
    by_partner :
        (o : Option Attr)
        → first_eq (lsa_attr_compare_keys x) ys ≡ o
        → Each SmallPair (in_both lsa_attr_compare_keys xs ys)
        → Each SmallPair (pair_with x o (in_both lsa_attr_compare_keys xs ys))
    by_partner none e r = r
    by_partner (some y) e r = ((p, Each-first_eq IsSmall (lsa_attr_compare_keys x) ys y k e), r)

-- Two advertisements agree when no type and key is in one only, and attributes of the same type and
-- key hold the same bytes, or sets that are serialised alike.
abbrev pub Agree : Lsa → Lsa → Type 0
Agree a b =
    (only_in lsa_attr_compare_keys (attrs a.root) (attrs b.root) ≡ [])
    × (only_in lsa_attr_compare_keys (attrs b.root) (attrs a.root) ≡ [])
    × Each SamePair (in_both lsa_attr_compare_keys (attrs a.root) (attrs b.root))

-- On advertisements in order whose attributes fit its buffers, lsa_diff comes to an end, and it
-- counts no difference if and only if the advertisements agree.
pub lsa_diff-Agree :
    (has_mod : Bool) (a b : Lsa)
    → IsKeyed a.root
    → IsKeyed b.root
    → Each IsSmall (attrs a.root)
    → Each IsSmall (attrs b.root)
    → (n : ℕ) × (es : List Event) × (lsa_diff has_mod (some a) (some b) ≡ ok (n, es))
      × (n ≡ 0 → Agree a b)
      × (Agree a b → n ≡ 0)
unfolding lsa_diff
lsa_diff-Agree has_mod a b s t h k =
    let xs = attrs a.root in
    let ys = attrs b.root in
    let (cs, e, (d, i, m)) =
      avl_diff-Reports lsa_attr_compare_keys compare_keys-IsOrder xs ys s t in
    let small = subst (Each SmallPair) (sym m) (in_both-SmallPair xs ys h k) in
    let (n, es, f, from, to) = on_changes-Counts has_mod cs small in
    (
      n,
      es,
      rw e f,
      (λ q. let (d', i', m') = from q in (sym d ∙ d', sym i ∙ i', subst (Each SamePair) m m')),
      (λ (d', i', m'). to (d ∙ d', i ∙ i', subst (Each SamePair) (sym m) m')),
    )
