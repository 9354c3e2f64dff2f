-- ===== src/Lsa/Types.antt =====
-- The data of lsa.h. A tree of attributes is a tree of the library; it is declared together with
-- the attribute, which may hold one.
use dvpn.Base.{ℕ, Bool, true, false, ◌≡◌, refl, arith}
use dvpn.Bytes.{Bytes}
use dvpn.Avl.Walk.{Tree}

-- MAX_SERIALISED_INT_LEN, NODE_ID_LEN
abbrev pub max_serialised_int_len : ℕ
max_serialised_int_len = 10

abbrev pub node_id_len : ℕ
node_id_len = 32

-- The enumeration lsa_attr_type.
abbrev pub attr_type_adv_path : ℕ
attr_type_adv_path = 1

abbrev pub attr_type_peer : ℕ
attr_type_peer = 2

abbrev pub attr_type_version : ℕ
attr_type_version = 4

abbrev pub attr_type_pubkey : ℕ
attr_type_pubkey = 5

abbrev pub attr_type_signature : ℕ
attr_type_signature = 6

-- struct lsa_attr: its type, whether it is signed, its key (keylen bytes of buf, or none), and its
-- data, which are bytes, or a struct lsa_attr_set if data_is_attr_set.
mutual
  pub data Attr : Type 0 where
    attr : ℕ → Bool → Bytes → Data → Attr

  pub data Data : Type 0 where
    bytes : Bytes → Data
    attr_set : AttrTree → Data

  pub data AttrTree : Type 0 where
    empty : AttrTree
    branch : AttrTree → Attr → AttrTree → AttrTree

abbrev pub attr_type : Attr → ℕ
attr_type (attr type sign key d) = type

abbrev pub attr_signed : Attr → Bool
attr_signed (attr type sign key d) = sign

abbrev pub attr_key : Attr → Bytes
attr_key (attr type sign key d) = key

abbrev pub attr_payload : Attr → Data
attr_payload (attr type sign key d) = d

abbrev pub is_attr_set : Data → Bool
is_attr_set (bytes d) = false
is_attr_set (attr_set t) = true

-- The tree as the library sees it, and back.
unfoldable pub nodes : AttrTree → Tree Attr
nodes empty = Tree.leaf
nodes (branch l a r) = Tree.node (nodes l) a (nodes r)

unfoldable pub plant : Tree Attr → AttrTree
plant Tree.leaf = empty
plant (Tree.node l a r) = branch (plant l) a (plant r)

pub nodes-plant : (t : Tree Attr) → nodes (plant t) ≡ t
unfolding nodes plant
nodes-plant Tree.leaf = refl
nodes-plant (Tree.node l a r) = ground (arith, nodes-plant l, nodes-plant r)

-- struct lsa. A node id is a list of node_id_len bytes.
pub record Lsa : Type 0 where
  pub refcount : ℕ
  pub size : ℕ
  pub id : Bytes
  pub root : AttrTree
