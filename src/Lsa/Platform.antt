-- ===== src/Lsa/Platform.antt =====
-- What lsa.c takes from outside the repository: the tree library, and the layout of two structs.
use dvpn.Base.{ℕ, ◌+◌, ◌<◌, ◌≡◌, arith, length, replicate, length-replicate}
use dvpn.Bytes.{Bytes}
use dvpn.Avl.Interface.{AvlLib}
use dvpn.Avl.Spine.{spine}
use dvpn.Lsa.Types.{AttrTree}

-- `attr_bytes` is sizeof(struct lsa_attr), `set_bytes` is sizeof(struct lsa_attr_set), and
-- `set_image` is what stands in memory where such a set stands, which code sees that reads the data
-- of an attribute without a look at data_is_attr_set.
pub record Platform : Type 1 where
  pub trees : AvlLib
  pub attr_bytes : ℕ
  pub set_bytes : ℕ
  pub set_image : AttrTree → Bytes
  pub length-set_image : (t : AttrTree) → length (set_image t) ≡ set_bytes
  pub structs_small : attr_bytes + set_bytes < 4096

-- The sizes of a 64 bit Linux, with the spine trees for the library.
abbrev pub lp64 : Platform
lp64 = record {
  trees = spine;
  attr_bytes = 56;
  set_bytes = 16;
  set_image = λ t. replicate 16 0;
  length-set_image = λ t. length-replicate {A = ℕ} 16 0;
  structs_small = omega arith;
}
