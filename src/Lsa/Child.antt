-- ===== src/Lsa/Child.antt =====
-- The write through the pointer to a nested set, seen in the order of the attributes.
use dvpn.Base.{ℕ, ◌∷◌, ◌≡◌, refl, Ordering, arith}
use dvpn.Bytes.{Bytes}
use dvpn.Avl.Order.{IsProbe, Sorted-append}
use dvpn.Avl.Insert.{cmp-IsProbe}
use dvpn.Avl.Walk.{in_order, none_before, none_after}
use dvpn.Avl.Replace.{replace_in, replace_in-append, replace_in-none}
use dvpn.Lsa.Types.{Attr, AttrTree, empty, branch, nodes}
use dvpn.Lsa.Compare.{lsa_attr_compare_keys, compare_keys-IsOrder}
use dvpn.Lsa.Build.{search_key, with_child, put_child}
use dvpn.Lsa.Insert.{attrs, IsKeyed}

module _ (type : ℕ) (key : Bytes) (child : AttrTree) where
  abbrev pub probe : Attr → Ordering
  probe a = lsa_attr_compare_keys (search_key type key) a

  probe-IsProbe : IsProbe lsa_attr_compare_keys probe
  probe-IsProbe = cmp-IsProbe lsa_attr_compare_keys compare_keys-IsOrder (search_key type key)

  -- In a set in order, writing through the pointer to a nested set replaces the set of the attribute
  -- with that type and key, and changes nothing else.
  pub attrs-put_child :
      (set : AttrTree)
      → IsKeyed set
      → attrs (put_child type key child set) ≡ replace_in probe (with_child child) (attrs set)
  unfolding put_child nodes in_order replace_in
  attrs-put_child empty s = refl
  attrs-put_child (branch l a r) s =
      let xs = attrs l in
      let ys = attrs r in
      let (sl, before, after, sr) = Sorted-append lsa_attr_compare_keys xs a ys s in
      ground (
        arith,
        attrs-put_child l sl,
        attrs-put_child r sr,
        none_before lsa_attr_compare_keys probe a xs probe-IsProbe before,
        none_after lsa_attr_compare_keys probe a ys probe-IsProbe after,
        replace_in-append probe (with_child child) xs (a ∷ ys),
        replace_in-none probe (with_child child) xs,
        replace_in-none probe (with_child child) ys,
      )
