-- ===== src/Daemon/Peers.antt =====
-- What mylsa_add_peer writes of a neighbour is what lsa_get_peer_info reads.
use dvpn.Base.{
  ℕ, ◌+◌, ◌%◌, ◌^◌, ◌<◌, ◌≡◌, refl, ap, ◌∙◌, sym, subst, true, false, if◌then◌else◌, [], ◌∷◌, ◌++◌,
  length, take, none, some, ok, aborted, List, Ordering, arith,
}
use dvpn.Bytes.{Bytes, big_endian, memcmp, is_eq}
use dvpn.Avl.Order.{Sorted, first_eq, insert_in}
use dvpn.Avl.Insert.{cmp_self, cmp-IsProbe, Sorted-insert_in, first_eq-insert_in}
use dvpn.Avl.Walk.{in_order}
use dvpn.Avl.Replace.{IsLast, replace_in, replace_in-none}
use dvpn.Lsa.Types.{
  Attr, attr, Data, bytes, attr_set, AttrTree, empty, Lsa, nodes, attr_type_peer, node_id_len,
}
use dvpn.Lsa.Platform.{Platform}
use dvpn.Lsa.Compare.{lsa_attr_compare_keys, compare_keys-IsOrder}
use dvpn.Lsa.Totals.{
  key_total, own_total, tree_total, attr_total, attr_nested, nested_total, tree_total-in_order,
  list_total, list_total-insert_in,
}
use dvpn.Lsa.Insert.{attrs, IsKeyed, lookup_attr, compare_keys-search_key, add_fresh, add_duplicate}
use dvpn.Lsa.Last.{add_last, compare_keys-payload, compare_keys-payload_right}
use dvpn.Lsa.Child.{attrs-put_child}
use dvpn.Lsa.Build.{
  attr_data, search_key, add_to_set, with_child, put_child, lsa_add_attr_set,
  lsa_attr_set_add_attr_set, lsa_attr_set_add_attr,
}
use dvpn.Lsa.Change.{IsWell}
use dvpn.Lsa.Peer.{
  InfoOf, signed_number, lsa_get_peer_info, get_peer_info-InfoOf, peer_attr_type_metric,
  peer_attr_type_peer_flags,
}
use dvpn.Serialise.Append.{take-full}
use dvpn.ConfDiff.Entries.{PeerType}
use dvpn.Daemon.Own.{be16, peer_set, with_peer, conf_peer_type_to_lsa_peer_flags}

key_sized : (id : Bytes) → length id ≡ node_id_len → key_total id ≡ 42
key_sized [] h = absurd (omega arith)
key_sized (b ∷ id) h = omega arith

-- Changing the item that was inserted is inserting the changed item.
module _ {A : Type 0} (cmp : A → A → Ordering) (probe : A → Ordering) (f : A → A) (a : A)
    (hit : probe a ≡ Ordering.eq) (like : (x : A) → cmp (f a) x ≡ cmp a x) where
  replace_in-insert_in :
      (xs : List A)
      → first_eq probe xs ≡ none
      → replace_in probe f (insert_in cmp a xs) ≡ insert_in cmp (f a) xs
  unfolding replace_in insert_in first_eq
  replace_in-insert_in [] n = rw hit refl
  replace_in-insert_in (x ∷ xs) n =
      ground (arith, like x, hit, replace_in-none probe f xs, replace_in-insert_in xs)

module _ (p : Platform) (cost flags : ℕ) where
  abbrev pub metric_attr : Attr
  metric_attr = attr peer_attr_type_metric true [] (bytes (be16 (cost % 2 ^ 16)))

  abbrev pub flags_attr : Attr
  flags_attr = attr peer_attr_type_peer_flags true [] (bytes (flags ∷ []))

  set_stages :
      (lsa : Lsa) (s₁ s₂ : AttrTree) (m n : ℕ)
      → add_to_set p lsa empty metric_attr ≡ ok (record lsa { size = m }, s₁)
      → add_to_set p (record lsa { size = m }) s₁ flags_attr ≡ ok (record lsa { size = n }, s₂)
      → peer_set p lsa cost flags ≡ ok (record lsa { size = n }, s₂)
  unfolding peer_set lsa_attr_set_add_attr
  set_stages lsa s₁ s₂ m n e₁ e₂ = rw e₁ (rw e₂ refl)

  metric_first : lsa_attr_compare_keys metric_attr flags_attr ≡ Ordering.lt
  unfolding lsa_attr_compare_keys
  metric_first = refl

  metric_size : own_total metric_attr ≡ 32
  unfolding own_total
  metric_size = refl

  flags_size : own_total flags_attr ≡ 31
  unfolding own_total
  flags_size = refl

  -- The set of a peer holds a metric of two bytes and flags of one byte.
  peer_set_holds :
      (lsa : Lsa)
      → lsa.refcount ≡ 1
      → lsa.size < 2 ^ 31
      → (set : AttrTree) × (peer_set p lsa cost flags
          ≡ ok (record lsa { size = lsa.size + 63 }, set))
        × (attrs set ≡ metric_attr ∷ flags_attr ∷ [])
  unfolding nodes in_order
  peer_set_holds lsa one room =
      let (s₁, e₁, o₁) =
        add_last p lsa empty peer_attr_type_metric true [] (bytes (be16 (cost % 2 ^ 16))) one tt
          (omega arith) tt (omega (arith, metric_size)) (omega arith) in
      let (s₂, e₂, o₂) =
        add_last p (record lsa { size = lsa.size + own_total metric_attr }) s₁
          peer_attr_type_peer_flags true [] (bytes (flags ∷ [])) one
          (subst (Sorted lsa_attr_compare_keys) (sym o₁) (tt, tt)) (omega arith)
          (subst (λ xs. IsLast lsa_attr_compare_keys xs flags_attr) (sym o₁) (metric_first, tt))
          (omega (arith, flags_size)) (omega (arith, metric_size)) in
      (
        s₂,
        set_stages lsa s₁ s₂ (lsa.size + own_total metric_attr) (lsa.size + 63) e₁ (
            e₂
            ∙ ap (λ n. ok (record lsa { size = n }, s₂)) (omega (arith, metric_size, flags_size))),
        o₂ ∙ ap (λ xs. xs ++ flags_attr ∷ []) o₁,
      )

  module _ (set : AttrTree) (holds : attrs set ≡ metric_attr ∷ flags_attr ∷ []) where
    set_total : tree_total set ≡ 63
    unfolding list_total attr_nested nested_total
    set_total = omega (arith, tree_total-in_order set, ap list_total holds, metric_size, flags_size)

    set-IsKeyed : IsKeyed set
    set-IsKeyed = subst (Sorted lsa_attr_compare_keys) (sym holds) ((metric_first, tt), (tt, tt))

    metric_found :
        signed_number p 2 1 (lookup_attr peer_attr_type_metric [] (attrs set)) ≡ cost % 2 ^ 16
    unfolding signed_number attr_data first_eq lsa_attr_compare_keys big_endian memcmp
    metric_found = rw holds (omega arith)

    flags_found : signed_number p 1 0 (lookup_attr peer_attr_type_peer_flags [] (attrs set)) ≡ flags
    unfolding signed_number attr_data first_eq lsa_attr_compare_keys big_endian memcmp
    flags_found = rw holds (omega arith)

module _ (p : Platform) (lsa : Lsa) (id : Bytes) (type : PeerType) (cost flags : ℕ) where
  abbrev blank : Attr
  blank = attr attr_type_peer true id (attr_set empty)

  with_stages :
      (n : ℕ) (root set : AttrTree)
      → lsa.refcount ≡ 1
      → take node_id_len id ≡ id
      → add_to_set p lsa lsa.root blank ≡ ok (record lsa { size = n }, root)
      → conf_peer_type_to_lsa_peer_flags type ≡ ok flags
      → peer_set p (record lsa { size = n; root = root }) cost flags
        ≡ ok (record lsa { size = n + 63; root = root }, set)
      → with_peer p lsa id type cost
        ≡ ok (record lsa { size = n + 63; root = put_child attr_type_peer id set root })
  unfolding with_peer lsa_add_attr_set lsa_attr_set_add_attr_set
  with_stages n root set one whole e c s = rw whole (ground arith)

  peer_found :
      (d : Data)
      → lsa_attr_compare_keys (search_key attr_type_peer id) (attr attr_type_peer true id d)
        ≡ Ordering.eq
  peer_found d =
      compare_keys-payload attr_type_peer false true id (bytes []) d (attr attr_type_peer true id d)
      ∙ cmp_self lsa_attr_compare_keys compare_keys-IsOrder (attr attr_type_peer true id d)

  absent :
      (d : Data)
      → lookup_attr attr_type_peer id (attrs lsa.root) ≡ none
      → first_eq (lsa_attr_compare_keys (attr attr_type_peer true id d)) (attrs lsa.root) ≡ none
  absent d fresh = compare_keys-search_key attr_type_peer true id d (attrs lsa.root) ∙ fresh

  -- The attribute of the peer, with its set.
  module _ (set : AttrTree) where
    abbrev filled : Attr
    filled = attr attr_type_peer true id (attr_set set)

    same_filled : (x : Attr) → lsa_attr_compare_keys filled x ≡ lsa_attr_compare_keys blank x
    same_filled x =
        compare_keys-payload attr_type_peer true true id (attr_set set) (attr_set empty) x

    put_filled :
        (root : AttrTree)
        → IsKeyed lsa.root
        → lookup_attr attr_type_peer id (attrs lsa.root) ≡ none
        → attrs root ≡ insert_in lsa_attr_compare_keys blank (attrs lsa.root)
        → attrs (put_child attr_type_peer id set root)
          ≡ insert_in lsa_attr_compare_keys filled (attrs lsa.root)
    unfolding with_child
    put_filled root s fresh o =
        let keyed = subst (Sorted lsa_attr_compare_keys) (sym o) (
          Sorted-insert_in lsa_attr_compare_keys compare_keys-IsOrder blank (attrs lsa.root) s
            (absent (attr_set empty) fresh)) in
        attrs-put_child attr_type_peer id set root keyed
        ∙ ap (replace_in (lsa_attr_compare_keys (search_key attr_type_peer id)) (with_child set)) o
        ∙ replace_in-insert_in lsa_attr_compare_keys
            (lsa_attr_compare_keys (search_key attr_type_peer id)) (with_child set) blank
            (peer_found (attr_set empty)) same_filled (attrs lsa.root) fresh

  filled_size :
      (set : AttrTree)
      → length id ≡ node_id_len
      → tree_total set ≡ 63
      → attr_total (filled set) ≡ own_total blank + 63
  unfolding own_total attr_nested nested_total
  filled_size set i h = omega (arith, h)

  blank_size : length id ≡ node_id_len → own_total blank ≡ 72
  unfolding own_total
  blank_size i = omega (arith, key_sized id i)

  module _ (set root : AttrTree) (s : IsKeyed lsa.root)
      (fresh : lookup_attr attr_type_peer id (attrs lsa.root) ≡ none)
      (seen : attrs root ≡ insert_in lsa_attr_compare_keys (filled set) (attrs lsa.root)) where
    lookup_now :
        (t : ℕ) (k : Bytes)
        → lookup_attr t k (attrs root) ≡ (
            if is_eq (lsa_attr_compare_keys (search_key t k) (search_key attr_type_peer id))
            then some (filled set)
            else lookup_attr t k (attrs lsa.root))
    lookup_now t k =
        ap (lookup_attr t k) seen
        ∙ first_eq-insert_in lsa_attr_compare_keys compare_keys-IsOrder
            (lsa_attr_compare_keys (search_key t k)) (filled set) (attrs lsa.root)
            (cmp-IsProbe lsa_attr_compare_keys compare_keys-IsOrder (search_key t k)) s
            (absent (attr_set set) fresh)
        ∙ rw
            (compare_keys-payload_right attr_type_peer true false id (attr_set set) (bytes [])
              (search_key t k))
            refl

    root-IsKeyed : IsKeyed root
    root-IsKeyed = subst (Sorted lsa_attr_compare_keys) (sym seen) (
        Sorted-insert_in lsa_attr_compare_keys compare_keys-IsOrder (filled set) (attrs lsa.root) s
          (absent (attr_set set) fresh))

    root_total :
        length id ≡ node_id_len
        → tree_total set ≡ 63
        → tree_total root ≡ tree_total lsa.root + (own_total blank + 63)
    root_total i h = omega (
      arith,
      tree_total-in_order root,
      ap list_total seen,
      list_total-insert_in (filled set) (attrs lsa.root),
      filled_size set i h,
      tree_total-in_order lsa.root,
    )

    peer_info_now :
        length id ≡ node_id_len
        → attrs set ≡ metric_attr p cost flags ∷ flags_attr p cost flags ∷ []
        → (l : Lsa) → l.root ≡ root
        → lsa_get_peer_info p l id ≡ some (record { metric = cost % 2 ^ 16; flags = flags })
    peer_info_now i holds l e =
        let found : lookup_attr attr_type_peer id (attrs l.root) ≡ some (filled set) =
          ap (λ r. lookup_attr attr_type_peer id (attrs r)) e
          ∙ lookup_now attr_type_peer id
          ∙ rw (cmp_self lsa_attr_compare_keys compare_keys-IsOrder (search_key attr_type_peer id))
              refl in
        subst (λ a. InfoOf p a (lsa_get_peer_info p l id)) found
          (get_peer_info-InfoOf p l id (subst IsKeyed (sym e) root-IsKeyed) i)
          (set-IsKeyed p cost flags set holds)
        ∙ rw (metric_found p cost flags set holds, flags_found p cost flags set holds) refl

  -- A neighbour that a well-formed advertisement of less than 2 ^ 30 bytes does not name yet is added
  -- to it with a type that is not CONF_PEER_TYPE_INVALID or CONF_PEER_TYPE_DBONLY. The advertisement
  -- stays well-formed, lsa_get_peer_info reads the cost, modulo 2 ^ 16, and the flags of the type back,
  -- and what a search finds under other types and keys is as before.
  pub with_peer-get_peer_info :
      IsWell lsa
      → lsa.size < 2 ^ 30
      → length id ≡ node_id_len
      → lookup_attr attr_type_peer id (attrs lsa.root) ≡ none
      → conf_peer_type_to_lsa_peer_flags type ≡ ok flags
      → (lsa' : Lsa) × (with_peer p lsa id type cost ≡ ok lsa')
        × IsWell lsa'
        × (lsa_get_peer_info p lsa' id ≡ some (record { metric = cost % 2 ^ 16; flags = flags }))
        × ((t : ℕ) (k : Bytes)
            → is_eq (lsa_attr_compare_keys (search_key t k) (search_key attr_type_peer id)) ≡ false
            → lookup_attr t k (attrs lsa'.root) ≡ lookup_attr t k (attrs lsa.root))
  with_peer-get_peer_info (one, s, counted) room i fresh kind =
      let (root, e, o) =
        add_fresh p lsa lsa.root attr_type_peer true id (attr_set empty) one s (omega arith) fresh
          (omega (arith, blank_size i)) (omega arith) in
      let n = lsa.size + own_total blank in
      let (set, ps, holds) =
        peer_set_holds p cost flags (record lsa { size = n; root = root }) one
          (omega (arith, blank_size i)) in
      let seen = put_filled set root s fresh o in
      let put = put_child attr_type_peer id set root in
      (
        record lsa { size = n + 63; root = put },
        with_stages n root set one (take-full node_id_len id (omega arith)) e kind ps,
        (
          one,
          root-IsKeyed set put s fresh seen,
          omega (arith, root_total set put s fresh seen i (set_total p cost flags set holds)),
        ),
        peer_info_now set put s fresh seen i holds _ refl,
        λ t k h. lookup_now set put s fresh seen t k ∙ rw h refl,
      )

module _ (p : Platform) (lsa : Lsa) (id : Bytes) (type : PeerType) (cost : ℕ) where
  -- Adding a neighbour that is named already ends the program.
  pub with_peer_taken :
      (a : Attr)
      → lsa.refcount ≡ 1
      → IsKeyed lsa.root
      → length id ≡ node_id_len
      → lookup_attr attr_type_peer id (attrs lsa.root) ≡ some a
      → with_peer p lsa id type cost ≡ aborted
  unfolding with_peer lsa_add_attr_set lsa_attr_set_add_attr_set
  with_peer_taken a one s i taken =
      let stop =
        add_duplicate p lsa lsa.root attr_type_peer true id (attr_set empty) a s (omega arith)
          taken in
      rw (take-full node_id_len id (omega arith)) (ground (arith, stop))
