-- ===== src/Lsa/View.antt =====
-- What an attribute set holds, whatever the shape of its trees.
use dvpn.Base.{ℕ, Bool, List, [], ◌∷◌, ◌++◌, ◌≡◌, refl, ap}
use dvpn.Bytes.{Bytes}
use dvpn.Avl.Walk.{in_order}
use dvpn.Lsa.Types.{Attr, attr, Data, bytes, attr_set, AttrTree, empty, branch, nodes}
use dvpn.Lsa.Insert.{attrs}

mutual
  pub data Item : Type 0 where
    item : ℕ → Bool → Bytes → Content → Item

  pub data Content : Type 0 where
    plain : Bytes → Content
    nested : Items → Content

  pub data Items : Type 0 where
    nil : Items
    cons : Item → Items → Items

-- The items of the attributes in order, with some behind them.
unfoldable mutual
  pub view_before : AttrTree → Items → Items
  view_before empty tail = tail
  view_before (branch l a r) tail = view_before l (cons (view_attr a) (view_before r tail))

  pub view_attr : Attr → Item
  view_attr (attr type sign key d) = item type sign key (view_data d)

  pub view_data : Data → Content
  view_data (bytes d) = plain d
  view_data (attr_set set) = nested (view_before set nil)

abbrev pub view : AttrTree → Items
view set = view_before set nil

-- The same for a list of attributes.
unfoldable pub list_view : List Attr → Items → Items
list_view [] tail = tail
list_view (a ∷ more) tail = cons (view_attr a) (list_view more tail)

pub list_view-append :
    (xs ys : List Attr) (tail : Items)
    → list_view (xs ++ ys) tail ≡ list_view xs (list_view ys tail)
unfolding list_view
list_view-append [] ys tail = refl
list_view-append (x ∷ xs) ys tail = ap (cons (view_attr x)) (list_view-append xs ys tail)

pub view_before-attrs :
    (set : AttrTree) (tail : Items) → view_before set tail ≡ list_view (attrs set) tail
unfolding view_before list_view nodes in_order
view_before-attrs empty tail = refl
view_before-attrs (branch l a r) tail =
    rw (list_view-append (attrs l) (a ∷ attrs r) tail)
      (rw (view_before-attrs r tail, view_before-attrs l _) refl)
