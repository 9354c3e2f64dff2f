-- ===== src/Lsa/Clone.antt =====
-- lsa_clone of lsa.c.
use dvpn.Base.{ℕ, Bool, Option, none, some, Result, ok, err, aborted, fault, stuck, ◌>>=◌}
use dvpn.Bytes.{Bytes}
use dvpn.Lsa.Types.{Attr, attr, Data, bytes, attr_set, AttrTree, empty, branch, Lsa}
use dvpn.Lsa.Platform.{Platform}
use dvpn.Lsa.Build.{lsa_alloc, lsa_attr_set_add_attr, lsa_attr_set_add_attr_set, put_child}

-- The result of lsa_attr_set_add_attr is not looked at: where it is -1, nothing was added.
abbrev pub unless_added : Lsa → AttrTree → Result (Lsa × AttrTree) → Result (Lsa × AttrTree)
unless_added lsa dst (ok r) = ok r
unless_added lsa dst err = ok (lsa, dst)
unless_added lsa dst aborted = aborted
unless_added lsa dst fault = fault
unless_added lsa dst stuck = stuck

-- The nested set that was added is filled; `child` fills a set. Where none was added its pointer is
-- null, which is read as soon as there is an attribute to add.
abbrev pub fill_child :
    Lsa
    → AttrTree
    → ℕ
    → Bytes
    → AttrTree
    → (Lsa → Result (Lsa × AttrTree))
    → Result (Lsa × AttrTree)
    → Result (Lsa × AttrTree)
fill_child lsa dst type key src child (ok (lsa₁, dst₁)) =
    child lsa₁ >>= λ (lsa₂, set). ok (lsa₂, put_child type key set dst₁)
fill_child lsa dst type key empty child err = ok (lsa, dst)
fill_child lsa dst type key (branch l a r) child err = fault
fill_child lsa dst type key src child aborted = aborted
fill_child lsa dst type key src child fault = fault
fill_child lsa dst type key src child stuck = stuck

-- lsa_attr_set_clone, which walks the source in order, for a set, an attribute and its data.
unfoldable mutual
  unfolding lsa_attr_set_add_attr lsa_attr_set_add_attr_set

  pub lsa_attr_set_clone : Platform → Lsa → AttrTree → AttrTree → Result (Lsa × AttrTree)
  lsa_attr_set_clone p lsa dst empty = ok (lsa, dst)
  lsa_attr_set_clone p lsa dst (branch l a r) = do
    (lsa₁, dst₁) ← lsa_attr_set_clone p lsa dst l
    (lsa₂, dst₂) ← attr_clone p lsa₁ dst₁ a
    lsa_attr_set_clone p lsa₂ dst₂ r

  pub attr_clone : Platform → Lsa → AttrTree → Attr → Result (Lsa × AttrTree)
  attr_clone p lsa dst (attr type sign key d) = data_clone p lsa dst type sign key d

  pub data_clone : Platform → Lsa → AttrTree → ℕ → Bool → Bytes → Data → Result (Lsa × AttrTree)
  data_clone p lsa dst type sign key (bytes d) =
      unless_added lsa dst (lsa_attr_set_add_attr p lsa dst type sign key d)
  data_clone p lsa dst type sign key (attr_set src) =
      fill_child lsa dst type key src (λ lsa₁. lsa_attr_set_clone p lsa₁ empty src)
        (lsa_attr_set_add_attr_set p lsa dst type sign key)

abbrev pub with_root : Option Lsa → (Lsa → Result (Lsa × AttrTree)) → Result (Option Lsa)
with_root none clone = ok none
with_root (some new) clone = clone new >>= λ (new', root). ok (some (record new' { root = root }))

unfoldable pub lsa_clone : Platform → Bool → Lsa → Result (Option Lsa)
unfolding lsa_alloc lsa_attr_set_clone
lsa_clone p mem lsa =
    with_root (lsa_alloc mem lsa.id) (λ new. lsa_attr_set_clone p new new.root lsa.root)
