-- ===== src/Lsa/Copy.antt =====
-- lsa_clone copies.
use dvpn.Base.{
  ℕ, ◌+◌, ◌≤◌, ◌<◌, ◌^◌, ◌≡◌, refl, ap, ◌∙◌, sym, subst, Bool, true, List, [], ◌∷◌, ◌++◌, length,
  some, Result, ok, arith, append-nil, append_assoc, take,
}
use dvpn.Bytes.{Bytes}
use dvpn.Avl.Order.{Each-append, Each-append_left, Each-append_right, Sorted, Sorted-append}
use dvpn.Avl.Walk.{in_order}
use dvpn.Avl.Replace.{IsLast, Sorted-snoc}
use dvpn.Lsa.Types.{
  Attr, attr, Data, bytes, attr_set, AttrTree, empty, branch, nodes, Lsa, node_id_len,
}
use dvpn.Lsa.Compare.{lsa_attr_compare_keys}
use dvpn.Lsa.Platform.{Platform}
use dvpn.Lsa.Totals.{own_total, tree_total, attr_total}
use dvpn.Lsa.Build.{
  lsa_alloc, put_child, add_to_set, lsa_attr_set_add_attr, lsa_attr_set_add_attr_set,
}
use dvpn.Lsa.Insert.{attrs, IsKeyed}
use dvpn.Lsa.View.{nil, view, list_view, view_before-attrs}
use dvpn.Lsa.Last.{
  compare_keys-payload, compare_keys-payload_right, IsLast-payload, view_nested, add_last,
  put_child_last,
}
use dvpn.Serialise.Append.{take-full}
use dvpn.Lsa.Clone.{lsa_attr_set_clone, attr_clone, data_clone, lsa_clone}
use dvpn.Lsa.Alike.{
  AlikeAttr, Alike, Alike-append, Alike-IsLast, Alike-view, Behind, Behind-step, TreeKeyed,
  AttrKeyed, DataKeyed,
}

nothing-Behind : (ys : List Attr) → Behind [] ys
nothing-Behind [] = tt
nothing-Behind (y ∷ ys) = (tt, nothing-Behind ys)

take_id : (id : Bytes) → length id ≡ node_id_len → take node_id_len id ≡ id
take_id id e = take-full node_id_len id (omega arith)

own_lem :
    (type : ℕ) (sign : Bool) (key : Bytes) (t : AttrTree)
    → own_total (attr type sign key (attr_set empty)) ≡ own_total (attr type sign key (attr_set t))
unfolding own_total
own_lem type sign key t = refl

add_attr_lem :
    (p : Platform) (lsa : Lsa) (dst : AttrTree) (type : ℕ) (sign : Bool) (key d : Bytes)
    → lsa_attr_set_add_attr p lsa dst type sign key d
      ≡ add_to_set p lsa dst (attr type sign key (bytes d))
unfolding lsa_attr_set_add_attr
add_attr_lem p lsa dst type sign key d = refl

add_set_lem :
    (p : Platform) (lsa : Lsa) (dst : AttrTree) (type : ℕ) (sign : Bool) (key : Bytes)
    → lsa_attr_set_add_attr_set p lsa dst type sign key
      ≡ add_to_set p lsa dst (attr type sign key (attr_set empty))
unfolding lsa_attr_set_add_attr_set
add_set_lem p lsa dst type sign key = refl

module _ (p : Platform) where
  abbrev Copied : Lsa → AttrTree → ℕ → List Attr → Result (Lsa × AttrTree) → Type 0
  Copied lsa dst n us result =
      (dst' : AttrTree) × (new : List Attr) × (result
        ≡ ok (record lsa { size = lsa.size + n }, dst'))
      × (attrs dst' ≡ attrs dst ++ new)
      × Alike new us
      × IsKeyed dst'

  mutual
    unfolding lsa_attr_set_clone tree_total nodes in_order

    clone_tree :
        (t : AttrTree) (lsa : Lsa) (dst : AttrTree)
        → lsa.refcount ≡ 1
        → IsKeyed dst
        → TreeKeyed t
        → IsKeyed t
        → Behind (attrs dst) (attrs t)
        → lsa.size + tree_total t < 2 ^ 32
        → Copied lsa dst (tree_total t) (attrs t) (lsa_attr_set_clone p lsa dst t)
    clone_tree empty lsa dst one s f k b room = (
      dst,
      [],
      ap (λ n. ok (record lsa { size = n }, dst)) (omega arith),
      sym (append-nil (attrs dst)),
      tt,
      s,
    )
    clone_tree (branch l a r) lsa dst one s (fl, fa, fr) k b room =
        let us = attrs l in
        let ws = attrs r in
        let (sl, before, after, sr) = Sorted-append lsa_attr_compare_keys us a ws k in
        let (dst₁, n₁, e₁, o₁, k₁, s₁) =
          clone_tree l lsa dst one s fl sl (Each-append_left _ us (a ∷ ws) b) (omega arith) in
        let (la, lr) = Each-append_right _ us (a ∷ ws) b in
        let lsa₁ : Lsa = record lsa { size = lsa.size + tree_total l } in
        let last₁ : IsLast lsa_attr_compare_keys (attrs dst₁) a =
          subst (λ xs. IsLast lsa_attr_compare_keys xs a) (sym o₁)
            (Each-append _ (attrs dst) n₁ la (Alike-IsLast n₁ us a k₁ before)) in
        let (dst₂, a', e₂, o₂, k₂, s₂) = clone_attr a lsa₁ dst₁ one s₁ fa last₁ (omega arith) in
        let lsa₂ : Lsa = record lsa₁ { size = lsa₁.size + attr_total a } in
        let behind : Behind (attrs dst₂) ws =
          subst (λ xs. Behind xs ws) (sym (o₂ ∙ ap (λ xs. xs ++ a' ∷ []) o₁))
            (Behind-step (attrs dst) n₁ us a a' ws lr k₁ k₂ before after) in
        let (dst₃, n₃, e₃, o₃, k₃, s₃) = clone_tree r lsa₂ dst₂ one s₂ fr sr behind (omega arith) in
        (
          dst₃,
          n₁ ++ a' ∷ n₃,
          rw e₁ (rw e₂ (e₃ ∙ ap (λ n. ok (record lsa { size = n }, dst₃)) (omega arith))),
          o₃
              ∙ ap (λ xs. xs ++ n₃) (o₂ ∙ ap (λ xs. xs ++ a' ∷ []) o₁)
              ∙ append_assoc (attrs dst ++ n₁) (a' ∷ []) n₃
              ∙ append_assoc (attrs dst) n₁ (a' ∷ n₃),
          Alike-append n₁ (a' ∷ n₃) us (a ∷ ws) k₁ (k₂, k₃),
          s₃,
        )

    clone_attr :
        (a : Attr) (lsa : Lsa) (dst : AttrTree)
        → lsa.refcount ≡ 1
        → IsKeyed dst
        → AttrKeyed a
        → IsLast lsa_attr_compare_keys (attrs dst) a
        → lsa.size + attr_total a < 2 ^ 32
        → (dst' : AttrTree) × (a' : Attr) × (attr_clone p lsa dst a
            ≡ ok (record lsa { size = lsa.size + attr_total a }, dst'))
          × (attrs dst' ≡ attrs dst ++ a' ∷ [])
          × AlikeAttr a' a
          × IsKeyed dst'
    clone_attr (attr type sign key d) lsa dst one s (short, f) last room =
        clone_data d type sign key lsa dst one s short f last room

    clone_data :
        (d : Data) (type : ℕ) (sign : Bool) (key : Bytes) (lsa : Lsa) (dst : AttrTree)
        → lsa.refcount ≡ 1
        → IsKeyed dst
        → length key ≤ 65536
        → DataKeyed d
        → IsLast lsa_attr_compare_keys (attrs dst) (attr type sign key d)
        → lsa.size + attr_total (attr type sign key d) < 2 ^ 32
        → (dst' : AttrTree) × (a' : Attr) × (data_clone p lsa dst type sign key d
            ≡ ok (record lsa { size = lsa.size + attr_total (attr type sign key d) }, dst'))
          × (attrs dst' ≡ attrs dst ++ a' ∷ [])
          × AlikeAttr a' (attr type sign key d)
          × IsKeyed dst'
    clone_data (bytes d) type sign key lsa dst one s short f last room =
        let a = attr type sign key (bytes d) in
        let (dst', e, o) =
          add_last p lsa dst type sign key (bytes d) one s short last (omega arith) (omega arith) in
        (
          dst',
          a,
          rw (add_attr_lem p lsa dst type sign key d, e)
              (ap (λ n. ok (record lsa { size = n }, dst')) (omega arith)),
          o,
          ((λ c. refl), (λ c. refl), refl),
          subst (Sorted lsa_attr_compare_keys) (sym o)
              (Sorted-snoc lsa_attr_compare_keys (attrs dst) a s last),
        )
    clone_data (attr_set t) type sign key lsa dst one s short (k, f) last room =
        let a = attr type sign key (attr_set t) in
        let a₀ = attr type sign key (attr_set empty) in
        let last₀ =
          IsLast-payload (attrs dst) type sign sign key (attr_set t) (attr_set empty) last in
        let own : own_total a₀ ≡ own_total a = own_lem type sign key t in
        let (set₁, e, o) =
          add_last p lsa dst type sign key (attr_set empty) one s short last₀ (omega arith)
            (omega arith) in
        let lsa₁ : Lsa = record lsa { size = lsa.size + own_total a₀ } in
        let (child, new, r, oc, kc, sc) =
          clone_tree t lsa₁ empty one tt f k (nothing-Behind (attrs t)) (omega arith) in
        let same : view child ≡ view t =
          view_before-attrs child nil
          ∙ ap (λ xs. list_view xs nil) oc
          ∙ Alike-view new (attrs t) nil kc
          ∙ sym (view_before-attrs t nil) in
        let a' = attr type sign key (attr_set child) in
        let o' = put_child_last p lsa dst type sign key set₁ child s last₀ o in
        (
          put_child type key child set₁,
          a',
          rw (add_set_lem p lsa dst type sign key, e)
              (rw r (
                ap (λ n. ok (record lsa { size = n }, put_child type key child set₁))
                  (omega arith))),
          o',
          (
            compare_keys-payload type sign sign key (attr_set child) (attr_set t),
            compare_keys-payload_right type sign sign key (attr_set child) (attr_set t),
            view_nested type sign key child t same,
          ),
          subst (Sorted lsa_attr_compare_keys) (sym o') (
              Sorted-snoc lsa_attr_compare_keys (attrs dst) a' s
                (IsLast-payload (attrs dst) type sign sign key (attr_set t) (attr_set child) last)),
        )

module _ (p : Platform) (lsa : Lsa) where
  cloned :
      (root : AttrTree)
      → lsa_attr_set_clone p
          (record { refcount = 1; size = 42; id = lsa.id; root = empty })
          empty
          lsa.root
        ≡ ok (
          record { refcount = 1; size = 42 + tree_total lsa.root; id = lsa.id; root = empty },
          root,
        )
      → take node_id_len lsa.id ≡ lsa.id
      → lsa_clone p true lsa
        ≡ ok (
            some
              (record { refcount = 1; size = 42 + tree_total lsa.root; id = lsa.id; root = root }))
  unfolding lsa_clone lsa_alloc
  cloned root e i = rw (i, e) refl

  -- If there is memory, lsa_clone returns a copy of an advertisement with a 32 byte id, keys of at most
  -- 65536 bytes, attributes in order at every depth and less than 2 ^ 32 bytes: it has one reference,
  -- the same id, the same attributes at every depth, and the count of its attributes.
  pub clone_copies :
      length lsa.id ≡ node_id_len
      → IsKeyed lsa.root
      → TreeKeyed lsa.root
      → 42 + tree_total lsa.root < 2 ^ 32
      → (root : AttrTree) × (lsa_clone p true lsa
          ≡ ok (
              some (record {
                refcount = 1;
                size = 42 + tree_total lsa.root;
                id = lsa.id;
                root = root;
              })))
        × (view root ≡ view lsa.root)
  unfolding nodes in_order
  clone_copies i k f room =
      let fresh : Lsa = record { refcount = 1; size = 42; id = lsa.id; root = empty } in
      let (root, new, e, o, a, s) =
        clone_tree p lsa.root fresh empty refl tt f k (nothing-Behind (attrs lsa.root)) room in
      (
        root,
        cloned root e (take_id lsa.id i),
        view_before-attrs root nil
            ∙ ap (λ xs. list_view xs nil) o
            ∙ Alike-view new (attrs lsa.root) nil a
            ∙ sym (view_before-attrs lsa.root nil),
      )
