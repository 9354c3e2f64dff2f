-- ===== src/Lsa/Totals.antt =====
-- What the size of an advertisement is to count: a plain sum over its attributes, at any depth.
use dvpn.Base.{ℕ, ◌+◌, ◌≤◌, ◌≡◌, refl, length, arith, ok, List, [], ◌∷◌, ◌++◌, Ordering, some}
use dvpn.Bytes.{Bytes, size_max}
use dvpn.Avl.Order.{insert_in, erase_in, first_eq}
use dvpn.Avl.Walk.{in_order}
use dvpn.Lsa.Types.{Attr, attr, Data, bytes, attr_set, AttrTree, empty, branch, nodes, Lsa}
use dvpn.Lsa.Compare.{lsa_attr_compare_keys}
use dvpn.Lsa.Size.{lsa_attr_size}

abbrev pub key_total : Bytes → ℕ
key_total [] = 0
key_total (k ∷ key) = 10 + length (k ∷ key)

abbrev pub own_data : Data → ℕ
own_data (bytes d) = length d
own_data (attr_set t) = 0

-- The attribute alone, without the attributes of the set that it may hold.
unfoldable pub own_total : Attr → ℕ
own_total (attr type sign key d) = 30 + key_total key + own_data d

unfoldable mutual
  pub tree_total : AttrTree → ℕ
  tree_total empty = 0
  tree_total (branch l a r) = tree_total l + (own_total a + attr_nested a) + tree_total r

  pub attr_nested : Attr → ℕ
  attr_nested (attr type sign key d) = nested_total d

  pub nested_total : Data → ℕ
  nested_total (bytes d) = 0
  nested_total (attr_set t) = tree_total t

abbrev pub attr_total : Attr → ℕ
attr_total a = own_total a + attr_nested a

pub lsa_attr_size-own_total :
    (a : Attr) → own_total a ≤ size_max → lsa_attr_size a ≡ ok (own_total a)
unfolding lsa_attr_size own_total
lsa_attr_size-own_total (attr type sign [] (bytes d)) h = ground arith
lsa_attr_size-own_total (attr type sign (k ∷ key) (bytes d)) h = ground arith
lsa_attr_size-own_total (attr type sign [] (attr_set t)) h = ground arith
lsa_attr_size-own_total (attr type sign (k ∷ key) (attr_set t)) h = ground arith

-- The sum over the attributes in the order in which the library walks them.
unfoldable pub list_total : List Attr → ℕ
list_total [] = 0
list_total (a ∷ more) = attr_total a + list_total more

list_total-append :
    (more bs : List Attr) → list_total (more ++ bs) ≡ list_total more + list_total bs
unfolding list_total
list_total-append [] bs = omega arith
list_total-append (a ∷ more) bs = omega (arith, list_total-append more bs)

pub tree_total-in_order : (t : AttrTree) → tree_total t ≡ list_total (in_order (nodes t))
unfolding tree_total nodes in_order list_total
tree_total-in_order empty = refl
tree_total-in_order (branch l a r) = omega (
  arith,
  tree_total-in_order l,
  tree_total-in_order r,
  list_total-append (in_order (nodes l)) (a ∷ in_order (nodes r)),
)

pub list_total-insert_in :
    (a : Attr) (more : List Attr)
    → list_total (insert_in lsa_attr_compare_keys a more) ≡ attr_total a + list_total more
unfolding list_total insert_in
list_total-insert_in a [] = refl
list_total-insert_in a (b ∷ more) = ground (arith, list_total-insert_in a more)

pub list_total-erase_in :
    (probe : Attr → Ordering) (a : Attr) (l : List Attr)
    → first_eq probe l ≡ some a
    → list_total (erase_in probe l) + attr_total a ≡ list_total l
unfolding list_total erase_in first_eq
list_total-erase_in probe a [] h = absurd (ground arith)
list_total-erase_in probe a (b ∷ more) h = ground (arith, list_total-erase_in probe a more)

-- What an advertisement counts when it was built up from nothing: a serialised length, an id, and
-- its attributes.
abbrev pub IsCounted : Lsa → Type 0
IsCounted lsa = lsa.size ≡ 42 + tree_total lsa.root
