-- ===== src/Lsa/Build.antt =====
-- The functions of lsa.c that make, search and change an advertisement. Where C is given a pointer
-- to a set inside the advertisement, the set is an argument, and comes back changed beside the
-- advertisement: the caller writes it where the pointer leads.
use dvpn.Base.{
  ℕ, ◌+◌, ◌-◌, ◌*◌, ◌/◌, ◌%◌, Bool, false, ltb, ◌==◌, if◌then◌else◌, not, length, Option, none,
  some, Result, ok, err, aborted, ◌>>=◌, ◌>>◌, [], Ordering, take,
}
use dvpn.Bytes.{Bytes, size_max}
use dvpn.Avl.Walk.{Tree, walk}
use dvpn.Lsa.Types.{
  Attr, attr, Data, bytes, attr_set, AttrTree, empty, branch, nodes, plant, Lsa, node_id_len,
  max_serialised_int_len,
}
use dvpn.Lsa.Compare.{lsa_attr_compare_keys}
use dvpn.Lsa.Platform.{Platform}
use dvpn.Lsa.Size.{lsa_attr_size, attr_tree_free, sub_size}

-- `mem` says whether malloc gives memory.
unfoldable pub lsa_alloc : Bool → Bytes → Option Lsa
lsa_alloc mem id =
    if mem
    then some (record {
      refcount = 1;
      size = max_serialised_int_len + node_id_len;
      id = take node_id_len id;
      root = empty;
    })
    else none

unfoldable pub lsa_get : Lsa → Lsa
lsa_get lsa = record lsa { refcount = lsa.refcount + 1 }

-- The tree is freed if it has a node.
unfoldable pub free_root : AttrTree → ℕ → Result ℕ
free_root empty size = ok size
free_root root size = attr_tree_free false root size

-- The last reference frees the advertisement, and then none is left.
unfoldable pub lsa_put : Lsa → Result (Option Lsa)
unfolding free_root
lsa_put lsa =
    if lsa.refcount == 1
    then (free_root lsa.root lsa.size >>= λ size. ok none)
    else ok (some (record lsa { refcount = lsa.refcount - 1 }))

-- The key that a search compares with: an attribute of that type and key, whose other fields are
-- not looked at.
abbrev pub search_key : ℕ → Bytes → Attr
search_key type key = attr type false key (bytes [])

-- A key of more than 65536 bytes is not looked for.
unfoldable pub lsa_attr_set_find_attr : AttrTree → ℕ → Bytes → Option Attr
unfolding nodes walk
lsa_attr_set_find_attr set type key =
    if ltb 65536 (length key)
    then none
    else walk (lsa_attr_compare_keys (search_key type key)) (nodes set)

unfoldable pub lsa_find_attr : Lsa → ℕ → Bytes → Option Attr
unfolding lsa_attr_set_find_attr
lsa_find_attr lsa type key = lsa_attr_set_find_attr lsa.root type key

-- The nested set goes after the attribute, if it is not empty.
unfoldable pub free_nested : Attr → ℕ → Result ℕ
free_nested (attr type sign key (bytes d)) size = ok size
free_nested (attr type sign key (attr_set empty)) size = ok size
free_nested (attr type sign key (attr_set t)) size = attr_tree_free false t size

-- ROUND_UP, in size_t.
abbrev pub round_up : ℕ → ℕ
round_up n = (n + 7) % (size_max + 1) / 8 * 8

module _ (p : Platform) where
  -- lsa_attr_data with datalen: the bytes that code reads as the data of an attribute.
  unfoldable pub attr_data : Attr → Bytes
  attr_data (attr type sign key (bytes d)) = d
  attr_data (attr type sign key (attr_set t)) = p.set_image t

  -- The size computation of attr_alloc, which aborts where it would pass SIZE_MAX; so does a malloc
  -- that fails, which is not modelled.
  unfoldable pub attr_alloc : ℕ → ℕ → Result (Unit {0})
  attr_alloc keylen datalen =
      if ltb (size_max - p.attr_bytes) (round_up keylen)
      then aborted
      else if ltb (size_max - (p.attr_bytes + round_up keylen)) datalen
      then aborted
      else ok tt

  unfoldable pub datalen_of : Data → ℕ
  datalen_of (bytes d) = length d
  datalen_of (attr_set t) = p.set_bytes

  -- What iv_avl_tree_insert answered: -1 is handed on, and otherwise the size is counted.
  unfoldable pub count_attr : Lsa → Attr → Option (Tree Attr) → Result (Lsa × AttrTree)
  count_attr lsa a none = err
  count_attr lsa a (some t) = do
    n ← lsa_attr_size a
    ok (record lsa { size = (lsa.size + n) % (size_max + 1) }, plant t)

  unfoldable pub no_attr : Option Attr → Result (Unit {0})
  no_attr none = ok tt
  no_attr (some a) = aborted

  -- What lsa_attr_set_add_attr and lsa_attr_set_add_attr_set share: they differ in the data.
  unfoldable pub add_to_set : Lsa → AttrTree → Attr → Result (Lsa × AttrTree)
  unfolding attr_alloc datalen_of count_attr no_attr lsa_attr_set_find_attr plant
  add_to_set lsa set (attr type sign key d) = if not (lsa.refcount == 1) then aborted else do
    no_attr (lsa_attr_set_find_attr set type key)
    attr_alloc (length key) (datalen_of d)
    count_attr lsa (attr type sign key d)
        (p.trees.insert Attr lsa_attr_compare_keys (attr type sign key d) (nodes set))

  unfoldable pub lsa_attr_set_add_attr :
      Lsa → AttrTree → ℕ → Bool → Bytes → Bytes → Result (Lsa × AttrTree)
  unfolding add_to_set
  lsa_attr_set_add_attr lsa set type sign key d = add_to_set lsa set (attr type sign key (bytes d))

  -- The new attribute holds an empty set, to which C returns a pointer.
  unfoldable pub lsa_attr_set_add_attr_set :
      Lsa → AttrTree → ℕ → Bool → Bytes → Result (Lsa × AttrTree)
  unfolding add_to_set
  lsa_attr_set_add_attr_set lsa set type sign key =
      add_to_set lsa set (attr type sign key (attr_set empty))

  abbrev pub put_root : Lsa × AttrTree → Result Lsa
  put_root (lsa, set) = ok (record lsa { root = set })

  unfoldable pub lsa_add_attr : Lsa → ℕ → Bool → Bytes → Bytes → Result Lsa
  unfolding lsa_attr_set_add_attr
  lsa_add_attr lsa type sign key d =
      if not (lsa.refcount == 1)
      then aborted
      else (lsa_attr_set_add_attr lsa lsa.root type sign key d >>= put_root)

  unfoldable pub lsa_add_attr_set : Lsa → ℕ → Bool → Bytes → Result Lsa
  unfolding lsa_attr_set_add_attr_set
  lsa_add_attr_set lsa type sign key =
      if not (lsa.refcount == 1)
      then aborted
      else (lsa_attr_set_add_attr_set lsa lsa.root type sign key >>= put_root)

  -- The attribute is a node of the root tree.
  unfoldable pub lsa_del_attr : Lsa → Attr → Result Lsa
  unfolding free_nested
  lsa_del_attr lsa a = if not (lsa.refcount == 1) then aborted else do
    n ← lsa_attr_size a
    size ← free_nested a (sub_size lsa.size n)
    ok (record lsa {
      size = size;
      root = plant (p.trees.delete Attr lsa_attr_compare_keys a (nodes lsa.root));
    })

  unfoldable pub del_found : Lsa → Option Attr → Result Lsa
  unfolding lsa_del_attr
  del_found lsa none = aborted
  del_found lsa (some a) = lsa_del_attr lsa a

  unfoldable pub lsa_del_attr_bykey : Lsa → ℕ → Bytes → Result Lsa
  unfolding del_found
  lsa_del_attr_bykey lsa type key =
      if not (lsa.refcount == 1) then aborted else del_found lsa (lsa_find_attr lsa type key)

-- The write through the pointer that lsa_attr_set_add_attr_set returned: the attribute of that type
-- and key holds `child` now.
unfoldable pub with_child : AttrTree → Attr → Attr
with_child child (attr type sign key d) = attr type sign key (attr_set child)

unfoldable pub put_child : ℕ → Bytes → AttrTree → AttrTree → AttrTree
unfolding with_child
put_child type key child empty = empty
put_child type key child (branch l a r) = elim (lsa_attr_compare_keys (search_key type key) a) [
  | Ordering.eq ↦ branch l (with_child child a) r
  | Ordering.lt ↦ branch (put_child type key child l) a r
  | Ordering.gt ↦ branch l a (put_child type key child r)
]
