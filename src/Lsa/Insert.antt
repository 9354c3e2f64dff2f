-- ===== src/Lsa/Insert.antt =====
-- What a search of an attribute set finds, and what adding an attribute does on every branch.
use dvpn.Base.{
  ℕ, ◌+◌, ◌≤◌, ◌<◌, ◌≡◌, refl, ◌∙◌, Bool, arith, length, Option, none, some, ok, aborted, List, [],
  ◌∷◌, ◌^◌,
}
use dvpn.Bytes.{Bytes, size_max}
use dvpn.Avl.Order.{Sorted, first_eq, insert_in}
use dvpn.Avl.Insert.{cmp-IsProbe}
use dvpn.Avl.Walk.{Tree, in_order, walk-first_eq}
use dvpn.Lsa.Types.{Attr, attr, Data, bytes, attr_set, AttrTree, nodes, plant, nodes-plant, Lsa}
use dvpn.Lsa.Compare.{lsa_attr_compare_keys, compare_keys-IsOrder}
use dvpn.Lsa.Platform.{Platform}
use dvpn.Lsa.Size.{lsa_attr_size}
use dvpn.Lsa.Totals.{own_total, lsa_attr_size-own_total}
use dvpn.Lsa.Build.{search_key, lsa_attr_set_find_attr, attr_alloc, datalen_of, add_to_set}

-- The attributes of a set, in the order in which iv_avl_tree_for_each walks them.
abbrev pub attrs : AttrTree → List Attr
attrs set = in_order (nodes set)

-- The tree is in the order of the keys, and no key stands twice.
abbrev pub IsKeyed : AttrTree → Type 0
IsKeyed set = Sorted lsa_attr_compare_keys (attrs set)

-- The attribute of a type and key in a list.
abbrev pub lookup_attr : ℕ → Bytes → List Attr → Option Attr
lookup_attr type key l = first_eq (lsa_attr_compare_keys (search_key type key)) l

-- In a set in order the search down the tree finds the attribute of that type and key, wherever it
-- stands, for every key of at most 65536 bytes.
pub find_attr-lookup_attr :
    (set : AttrTree) (type : ℕ) (key : Bytes)
    → IsKeyed set
    → length key ≤ 65536
    → lsa_attr_set_find_attr set type key ≡ lookup_attr type key (attrs set)
unfolding lsa_attr_set_find_attr
find_attr-lookup_attr set type key s h = ground (
  arith,
  walk-first_eq lsa_attr_compare_keys (lsa_attr_compare_keys (search_key type key)) (nodes set)
      (cmp-IsProbe lsa_attr_compare_keys compare_keys-IsOrder (search_key type key)) s,
)

-- What the comparison reads of an attribute is its type and key.
pub compare_keys-search_key :
    (type : ℕ) (sign : Bool) (key : Bytes) (d : Data) (l : List Attr)
    → first_eq (lsa_attr_compare_keys (attr type sign key d)) l ≡ lookup_attr type key l
unfolding lsa_attr_compare_keys
compare_keys-search_key type sign key d l = refl

module _ (p : Platform) where
  alloc_fits :
      (type : ℕ) (sign : Bool) (key : Bytes) (d : Data)
      → own_total (attr type sign key d) < 2 ^ 32
      → attr_alloc p (length key) (datalen_of p d) ≡ ok tt
  unfolding attr_alloc datalen_of own_total
  alloc_fits type sign [] (bytes d) h = ground (arith, p.structs_small)
  alloc_fits type sign (k ∷ key) (bytes d) h = ground (arith, p.structs_small)
  alloc_fits type sign [] (attr_set t) h = ground (arith, p.structs_small)
  alloc_fits type sign (k ∷ key) (attr_set t) h = ground (arith, p.structs_small)

  module _ (lsa : Lsa) (set : AttrTree) (type : ℕ) (sign : Bool) (key : Bytes) (d : Data) where
    abbrev pub new : Attr
    new = attr type sign key d

    fresh_stages :
        (t : Tree Attr) (n : ℕ)
        → lsa.refcount ≡ 1
        → lsa_attr_set_find_attr set type key ≡ none
        → attr_alloc p (length key) (datalen_of p d) ≡ ok tt
        → p.trees.insert Attr lsa_attr_compare_keys new (nodes set) ≡ some t
        → lsa_attr_size new ≡ ok n
        → lsa.size + n ≤ size_max
        → add_to_set p lsa set new ≡ ok (record lsa { size = lsa.size + n }, plant t)
    unfolding add_to_set
    fresh_stages t n one find alloc ins sz room = ground arith

    -- Adding an attribute, with data or with an empty set, whose type and key are not in the set puts
    -- it in its place in the order, and counts its size. There is one reference, the set is in order,
    -- and the sizes are less than 2 ^ 32.
    pub add_fresh :
        lsa.refcount ≡ 1
        → IsKeyed set
        → length key ≤ 65536
        → lookup_attr type key (attrs set) ≡ none
        → own_total new < 2 ^ 32
        → lsa.size < 2 ^ 32
        → (set' : AttrTree) × (add_to_set p lsa set new
            ≡ ok (record lsa { size = lsa.size + own_total new }, set'))
          × (attrs set' ≡ insert_in lsa_attr_compare_keys new (attrs set))
    add_fresh one s short fresh small room =
        let (t, e, o) =
          p.trees.insert_fresh Attr lsa_attr_compare_keys compare_keys-IsOrder new (nodes set) s
            (compare_keys-search_key type sign key d (attrs set) ∙ fresh) in
        (
          plant t,
          fresh_stages t (own_total new) one (find_attr-lookup_attr set type key s short ∙ fresh)
              (alloc_fits type sign key d small) e (lsa_attr_size-own_total new (omega arith))
              (omega arith),
          rw (nodes-plant t) o,
        )

    -- Adding a second attribute of a type and key, where the key has at most 65536 bytes, to a set in
    -- order ends the program.
    pub add_duplicate :
        (b : Attr)
        → IsKeyed set
        → length key ≤ 65536
        → lookup_attr type key (attrs set) ≡ some b
        → add_to_set p lsa set new ≡ aborted
    unfolding add_to_set
    add_duplicate b s short taken =
        let find = find_attr-lookup_attr set type key s short ∙ taken in ground (arith, find)
