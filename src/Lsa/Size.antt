-- ===== src/Lsa/Size.antt =====
-- lsa_attr_size, which bounds what an attribute takes in a message, and attr_tree_free, which takes
-- the sizes of a tree off the count again.
use dvpn.Base.{
  ℕ, ◌+◌, ◌-◌, ◌%◌, Bool, true, false, ltb, if◌then◌else◌, length, Result, ok, aborted, fault,
  ◌>>=◌, [], ◌∷◌,
}
use dvpn.Bytes.{Bytes, size_max}
use dvpn.Lsa.Types.{
  Attr, attr, Data, bytes, attr_set, AttrTree, empty, branch, max_serialised_int_len,
}

-- size += n, after the check that the sum does not pass SIZE_MAX.
add_size : ℕ → ℕ → Result ℕ
add_size size n = if ltb (size_max - size) n then aborted else ok (size + n)

add_key_size : ℕ → Bytes → Result ℕ
unfolding add_size
add_key_size size [] = ok size
add_key_size size (k ∷ key) = add_size (size + max_serialised_int_len) (length (k ∷ key))

add_data_size : ℕ → Data → Result ℕ
unfolding add_size
add_data_size size (bytes d) = add_size size (length d)
add_data_size size (attr_set t) = ok size

unfoldable pub lsa_attr_size : Attr → Result ℕ
unfolding add_key_size add_data_size add_size
lsa_attr_size (attr type sign key d) = do
  with_key ← add_key_size (max_serialised_int_len + max_serialised_int_len) key
  with_length ← add_size with_key max_serialised_int_len
  add_data_size with_length d

-- lsa->bytes -= n, in size_t.
abbrev pub sub_size : ℕ → ℕ → ℕ
sub_size size n = (size + (size_max + 1) - n) % (size_max + 1)

-- attr_tree_free: the count goes down by the sizes of all that is freed. `checked` says that the
-- caller has seen that the root it passes is no null pointer. The calls for the subtrees are made
-- after such a test, and the call for a nested set is not: the code reads the node that it is given,
-- so a nested set without attributes is a read through a null pointer.
unfoldable mutual
  unfolding lsa_attr_size

  pub attr_tree_free : Bool → AttrTree → ℕ → Result ℕ
  attr_tree_free true empty size = ok size
  attr_tree_free false empty size = fault
  attr_tree_free checked (branch l a r) size = do
    n ← lsa_attr_size a
    size₁ ← attr_tree_free true l (sub_size size n)
    size₂ ← attr_tree_free true r size₁
    attr_free a size₂

  pub attr_free : Attr → ℕ → Result ℕ
  attr_free (attr type sign key d) size = data_free d size

  pub data_free : Data → ℕ → Result ℕ
  data_free (bytes d) size = ok size
  data_free (attr_set t) size = attr_tree_free false t size
