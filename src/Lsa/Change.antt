-- ===== src/Lsa/Change.antt =====
-- Adding and deleting attributes of a whole advertisement keeps it well-formed.
use dvpn.Base.{
  ℕ, ◌+◌, ◌-◌, ◌^◌, ◌≤◌, ◌<◌, ◌≡◌, refl, ap, ◌∙◌, sym, Bool, true, false, some, none, ok, arith,
  length, if◌then◌else◌, List, subst,
}
use dvpn.Bytes.{Bytes, size_max, is_eq}
use mathlib.Core.Path.{fun_ext}
use dvpn.Avl.Order.{Sorted, first_eq-is_eq, erase_in, IsProbe}
use dvpn.Avl.Insert.{
  cmp-IsProbe, Sorted-insert_in, first_eq-insert_in, Sorted-erase_in, first_eq-erase_in_self,
}
use dvpn.Lsa.Types.{
  Attr, attr, bytes, attr_set, AttrTree, empty, branch, Lsa, nodes, plant, nodes-plant,
}
use dvpn.Lsa.Compare.{lsa_attr_compare_keys, compare_keys-IsOrder}
use dvpn.Lsa.Size.{lsa_attr_size, sub_size}
use dvpn.Lsa.Totals.{
  IsCounted, own_total, tree_total, attr_total, attr_nested, list_total, tree_total-in_order,
  list_total-insert_in, list_total-erase_in, lsa_attr_size-own_total,
}
use dvpn.Lsa.Free.{all_filled, attr_tree_free-tree_total}
use dvpn.Lsa.Build.{
  search_key, lsa_find_attr, lsa_attr_set_find_attr, free_nested, lsa_add_attr,
  lsa_attr_set_add_attr, lsa_del_attr, del_found, lsa_del_attr_bykey, add_to_set,
}
use dvpn.Lsa.Platform.{Platform}
use dvpn.Lsa.Insert.{
  attrs, IsKeyed, lookup_attr, find_attr-lookup_attr, compare_keys-search_key, add_fresh,
}

-- One owner, a tree in order, and a count that is right.
abbrev pub IsWell : Lsa → Type 0
IsWell lsa = (lsa.refcount ≡ 1) × IsKeyed lsa.root × IsCounted lsa

-- Whether the nested set of an attribute, if it has attributes, is free of empty sets.
abbrev pub can_free : Attr → Bool
can_free (attr type sign key (bytes d)) = true
can_free (attr type sign key (attr_set empty)) = true
can_free (attr type sign key (attr_set t)) = all_filled false t

sub_size-le : (size n : ℕ) → n ≤ size → size ≤ size_max → sub_size size n ≡ size - n
sub_size-le size n h k = omega arith

free_nested-can_free :
    (a : Attr) (size : ℕ)
    → can_free a ≡ true
    → attr_nested a ≤ size
    → size ≤ size_max
    → free_nested a size ≡ ok (size - attr_nested a)
unfolding free_nested tree_total
free_nested-can_free (attr type sign key (bytes d)) size f h k = ap ok (omega arith)
free_nested-can_free (attr type sign key (attr_set empty)) size f h k = ap ok (omega arith)
free_nested-can_free (attr type sign key (attr_set (branch l a r))) size f h k =
    attr_tree_free-tree_total false (branch l a r) size h k ∙ rw f refl

no_nested :
    (type : ℕ) (sign : Bool) (key d : Bytes) → attr_nested (attr type sign key (bytes d)) ≡ 0
unfolding tree_total
no_nested type sign key d = refl

key_search-IsProbe :
    (type : ℕ) (key : Bytes)
    → IsProbe lsa_attr_compare_keys (lsa_attr_compare_keys (search_key type key))
key_search-IsProbe type key =
    cmp-IsProbe lsa_attr_compare_keys compare_keys-IsOrder (search_key type key)

module _ (p : Platform) (lsa : Lsa) (type : ℕ) (key : Bytes) where
  abbrev erased : List Attr
  erased = erase_in (lsa_attr_compare_keys (search_key type key)) (attrs lsa.root)

  find_lem : lsa_find_attr lsa type key ≡ lsa_attr_set_find_attr lsa.root type key
  unfolding lsa_find_attr
  find_lem = refl

  module _ (a : Attr) where
    del_stages :
        lsa.refcount ≡ 1
        → lsa_find_attr lsa type key ≡ some a
        → lsa_attr_size a ≡ ok (own_total a)
        → free_nested a (sub_size lsa.size (own_total a)) ≡ ok (lsa.size - attr_total a)
        → lsa_del_attr_bykey p lsa type key
          ≡ ok (record lsa {
            size = lsa.size - attr_total a;
            root = plant (p.trees.delete Attr lsa_attr_compare_keys a (nodes lsa.root));
          })
    unfolding lsa_del_attr_bykey del_found lsa_del_attr
    del_stages one find sz free = ground arith

    -- The attribute of a type and key, where the key has at most 65536 bytes, is deleted from a
    -- well-formed advertisement whose size fits a size_t. The advertisement stays well-formed and keeps
    -- its id, its other attributes stand as they did, and a search for that type and key finds nothing
    -- any more. Sets that are nested in the attribute must not be empty, but for the outermost one.
    pub del_bykey-IsWell :
        IsWell lsa
        → lsa.size ≤ size_max
        → length key ≤ 65536
        → lookup_attr type key (attrs lsa.root) ≡ some a
        → can_free a ≡ true
        → (lsa' : Lsa) × (lsa_del_attr_bykey p lsa type key ≡ ok lsa')
          × IsWell lsa'
          × (lsa'.id ≡ lsa.id)
          × (attrs lsa'.root ≡ erased)
          × (lookup_attr type key (attrs lsa'.root) ≡ none)
    del_bykey-IsWell (one, s, counted) small short found free =
        let o = compare_keys-IsOrder in
        let pr = lsa_attr_compare_keys (search_key type key) in
        let same : lsa_attr_compare_keys a ≡ pr = fun_ext (λ x.
          sym (o.same (search_key type key) a x (first_eq-is_eq pr (attrs lsa.root) a found))) in
        let t = p.trees.delete Attr lsa_attr_compare_keys a (nodes lsa.root) in
        let seen : attrs (plant t) ≡ erased =
          rw
            (
              nodes-plant t,
              p.trees.in_order-delete Attr lsa_attr_compare_keys o a (nodes lsa.root) s,
            )
            (rw same refl) in
        let sum = list_total-erase_in pr a (attrs lsa.root) found in
        let all = tree_total-in_order lsa.root in
        let left = tree_total-in_order (plant t) ∙ ap list_total seen in
        (
          record lsa { size = lsa.size - attr_total a; root = plant t },
          del_stages one (find_lem ∙ find_attr-lookup_attr lsa.root type key s short ∙ found)
              (lsa_attr_size-own_total a (omega arith))
              (rw (sub_size-le lsa.size (own_total a) (omega arith) small) (
                free_nested-can_free a (lsa.size - own_total a) free (omega arith) (omega arith)
                ∙ ap ok (omega arith))),
          (
            one,
            subst (Sorted lsa_attr_compare_keys) (sym seen)
                (Sorted-erase_in lsa_attr_compare_keys o pr (attrs lsa.root) s),
            omega arith,
          ),
          refl,
          seen,
          ap (lookup_attr type key) seen
              ∙ first_eq-erase_in_self lsa_attr_compare_keys o pr (attrs lsa.root)
                  (key_search-IsProbe type key) s,
        )

module _ (p : Platform) (lsa : Lsa) (type : ℕ) (sign : Bool) (key : Bytes) (d : Bytes) where
  abbrev pub added : Attr
  added = attr type sign key (bytes d)

  add_stages :
      (sum : ℕ) (set : AttrTree)
      → lsa.refcount ≡ 1
      → add_to_set p lsa lsa.root added ≡ ok (record lsa { size = sum }, set)
      → lsa_add_attr p lsa type sign key d ≡ ok (record lsa { size = sum; root = set })
  unfolding lsa_add_attr lsa_attr_set_add_attr
  add_stages sum set one e = ground arith

  -- An attribute of less than 2 ^ 32 bytes, with a key of at most 65536 bytes, whose type and key are
  -- not there is added to a well-formed advertisement of less than 2 ^ 32 bytes, which stays
  -- well-formed. A search then finds the new attribute under its type and key, and what it found before
  -- under every other.
  pub add_attr-IsWell :
      IsWell lsa
      → lsa.size < 2 ^ 32
      → own_total added < 2 ^ 32
      → length key ≤ 65536
      → lookup_attr type key (attrs lsa.root) ≡ none
      → (lsa' : Lsa) × (lsa_add_attr p lsa type sign key d ≡ ok lsa')
        × IsWell lsa'
        × ((t : ℕ) (k : Bytes)
            → lookup_attr t k (attrs lsa'.root) ≡ (
                if is_eq (lsa_attr_compare_keys (search_key t k) added)
                then some added
                else lookup_attr t k (attrs lsa.root)))
  add_attr-IsWell (one, s, counted) room small short fresh =
      let o = compare_keys-IsOrder in
      let l = attrs lsa.root in
      let fresh' = compare_keys-search_key type sign key (bytes d) l ∙ fresh in
      let (set, e, v) =
        add_fresh p lsa lsa.root type sign key (bytes d) one s short fresh small room in
      let new_sum = tree_total-in_order set ∙ ap list_total v ∙ list_total-insert_in added l in
      let flat = no_nested type sign key d in
      (
        record lsa { size = lsa.size + own_total added; root = set },
        add_stages (lsa.size + own_total added) set one e,
        (
          one,
          subst (Sorted lsa_attr_compare_keys) (sym v)
              (Sorted-insert_in lsa_attr_compare_keys o added l s fresh'),
          omega (arith, tree_total-in_order lsa.root, new_sum),
        ),
        λ t k.
            ap (lookup_attr t k) v
            ∙ first_eq-insert_in lsa_attr_compare_keys o (lsa_attr_compare_keys (search_key t k))
                added l (key_search-IsProbe t k) s fresh',
      )
