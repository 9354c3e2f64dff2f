-- ===== src/Lsa/Last.antt =====
-- Adding an attribute that comes after all that a set holds.
use dvpn.Base.{
  ℕ, ◌+◌, ◌≤◌, ◌<◌, ◌^◌, ◌≡◌, refl, ◌∙◌, Bool, false, List, [], ◌∷◌, ◌++◌, length, none, ok,
  Ordering,
}
use dvpn.Bytes.{Bytes}
use dvpn.Avl.Order.{first_eq}
use dvpn.Avl.Insert.{cmp_self}
use dvpn.Avl.Replace.{
  IsLast, replace_in, replace_in-append, replace_in-none, first_eq_last, insert_in_last,
  Sorted-snoc,
}
use dvpn.Lsa.Types.{Attr, attr, Data, bytes, attr_set, AttrTree, empty, Lsa}
use dvpn.Lsa.Compare.{lsa_attr_compare_keys, compare_keys-IsOrder}
use dvpn.Lsa.Platform.{Platform}
use dvpn.Lsa.Totals.{own_total}
use dvpn.Lsa.Build.{search_key, with_child, put_child, add_to_set}
use dvpn.Lsa.Insert.{attrs, IsKeyed, add_fresh}
use dvpn.Lsa.Child.{attrs-put_child}
use dvpn.Lsa.View.{view, view_attr}

-- The comparison looks at types and keys only.
pub compare_keys-payload :
    (type : ℕ) (sign sign' : Bool) (key : Bytes) (d d' : Data) (b : Attr)
    → lsa_attr_compare_keys (attr type sign key d) b
      ≡ lsa_attr_compare_keys (attr type sign' key d') b
unfolding lsa_attr_compare_keys
compare_keys-payload type sign sign' key d d' b = refl

pub compare_keys-payload_right :
    (type : ℕ) (sign sign' : Bool) (key : Bytes) (d d' : Data) (b : Attr)
    → lsa_attr_compare_keys b (attr type sign key d)
      ≡ lsa_attr_compare_keys b (attr type sign' key d')
unfolding lsa_attr_compare_keys
compare_keys-payload_right type sign sign' key d d' b = refl

pub IsLast-payload :
    (xs : List Attr) (type : ℕ) (sign sign' : Bool) (key : Bytes) (d d' : Data)
    → IsLast lsa_attr_compare_keys xs (attr type sign key d)
    → IsLast lsa_attr_compare_keys xs (attr type sign' key d')
unfolding lsa_attr_compare_keys
IsLast-payload [] type sign sign' key d d' h = tt
IsLast-payload (x ∷ xs) type sign sign' key d d' (k, h) =
    (k, IsLast-payload xs type sign sign' key d d' h)

pub view_nested :
    (type : ℕ) (sign : Bool) (key : Bytes) (child t : AttrTree)
    → view child ≡ view t
    → view_attr (attr type sign key (attr_set child)) ≡ view_attr (attr type sign key (attr_set t))
unfolding view_attr
view_nested type sign key child t v = rw v refl

module _ (p : Platform) (lsa : Lsa) (set : AttrTree) (type : ℕ) (sign : Bool) (key : Bytes) where
  -- An attribute is added behind all others.
  pub add_last :
      (d : Data)
      → lsa.refcount ≡ 1
      → IsKeyed set
      → length key ≤ 65536
      → IsLast lsa_attr_compare_keys (attrs set) (attr type sign key d)
      → own_total (attr type sign key d) < 2 ^ 32
      → lsa.size < 2 ^ 32
      → (set' : AttrTree) × (add_to_set p lsa set (attr type sign key d)
          ≡ ok (record lsa { size = lsa.size + own_total (attr type sign key d) }, set'))
        × (attrs set' ≡ attrs set ++ attr type sign key d ∷ [])
  add_last d one s short last small room =
      let (set', e, o) =
        add_fresh p lsa set type sign key d one s short
          (first_eq_last lsa_attr_compare_keys compare_keys-IsOrder (attrs set)
            (search_key type key)
            (IsLast-payload (attrs set) type sign false key d (bytes []) last))
          small room in
      (set', e, o ∙ insert_in_last lsa_attr_compare_keys compare_keys-IsOrder (attrs set) _ last)

  -- The child is written into the attribute that was added last.
  pub put_child_last :
      (set₁ child : AttrTree)
      → IsKeyed set
      → IsLast lsa_attr_compare_keys (attrs set) (attr type sign key (attr_set empty))
      → attrs set₁ ≡ attrs set ++ attr type sign key (attr_set empty) ∷ []
      → attrs (put_child type key child set₁)
        ≡ attrs set ++ attr type sign key (attr_set child) ∷ []
  unfolding replace_in with_child
  put_child_last set₁ child s last o =
      let probe = lsa_attr_compare_keys (search_key type key) in
      let a = attr type sign key (attr_set empty) in
      let keyed : IsKeyed set₁ = rw o (Sorted-snoc lsa_attr_compare_keys (attrs set) a s last) in
      let hit : probe a ≡ Ordering.eq =
        compare_keys-payload type false sign key (bytes []) (attr_set empty) a
        ∙ cmp_self lsa_attr_compare_keys compare_keys-IsOrder a in
      let missed : first_eq probe (attrs set) ≡ none =
        first_eq_last lsa_attr_compare_keys compare_keys-IsOrder (attrs set) (search_key type key)
          (IsLast-payload (attrs set) type sign false key (attr_set empty) (bytes []) last) in
      attrs-put_child type key child set₁ keyed
      ∙ rw (o, replace_in-append, replace_in-none probe (with_child child) (attrs set) missed, hit)
          refl
