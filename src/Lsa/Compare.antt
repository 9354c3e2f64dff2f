-- ===== src/Lsa/Compare.antt =====
-- lsa_attr_compare_keys orders attributes by type and then by key, in lexicographic order.
use dvpn.Base.{min, compare, Ordering, ◌≡◌, ap, arith, length}
use dvpn.Bytes.{then_by, opposite, memcmp}
use dvpn.Bytes.Lex.{lex, memcmp-lex, lex-swap, lex_trans, lex-eq}
use dvpn.Avl.Order.{IsOrder}
use dvpn.Lsa.Types.{Attr, attr, attr_type, attr_key}

-- `len` is an int in C and a key is shorter than 2 ^ 31 bytes, so it holds the shorter length.
unfoldable pub lsa_attr_compare_keys : Attr → Attr → Ordering
lsa_attr_compare_keys a b =
    let len = min (length (attr_key a)) (length (attr_key b)) in
    then_by (compare (attr_type a) (attr_type b)) (
      then_by (memcmp len (attr_key a) (attr_key b))
        (compare (length (attr_key a)) (length (attr_key b))))

unfoldable pub key_order : Attr → Attr → Ordering
key_order a b = then_by (compare (attr_type a) (attr_type b)) (lex (attr_key a) (attr_key b))

pub compare_keys-eq-key_order : (a b : Attr) → lsa_attr_compare_keys a b ≡ key_order a b
unfolding lsa_attr_compare_keys key_order
compare_keys-eq-key_order a b =
    ap (then_by (compare (attr_type a) (attr_type b))) (memcmp-lex (attr_key a) (attr_key b))

key_order-eq :
    (a b : Attr)
    → key_order a b ≡ Ordering.eq
    → (attr_type a ≡ attr_type b) × (attr_key a ≡ attr_key b)
unfolding key_order
key_order-eq (attr s sa ka da) (attr t sb kb db) h = ground (arith, lex-eq ka kb)

-- Two attributes that compare equal have the same type and the same key.
pub compare_keys-eq :
    (a b : Attr)
    → lsa_attr_compare_keys a b ≡ Ordering.eq
    → (attr_type a ≡ attr_type b) × (attr_key a ≡ attr_key b)
compare_keys-eq a b h = key_order-eq a b (rw compare_keys-eq-key_order at h)

key_order-swap : (a b : Attr) → key_order b a ≡ opposite (key_order a b)
unfolding key_order
key_order-swap (attr s sa ka da) (attr t sb kb db) = ground (arith, lex-swap ka kb)

key_order_trans :
    (a b c : Attr)
    → key_order a b ≡ Ordering.lt
    → key_order b c ≡ Ordering.lt
    → key_order a c ≡ Ordering.lt
unfolding key_order
key_order_trans (attr s sa ka da) (attr t sb kb db) (attr u sc kc dc) h k =
    ground (arith, lex_trans ka kb kc)

key_order-same : (a b c : Attr) → key_order a b ≡ Ordering.eq → key_order a c ≡ key_order b c
unfolding key_order
key_order-same (attr s sa ka da) (attr t sb kb db) (attr u sc kc dc) h =
    ground (arith, lex-eq ka kb)

-- lsa_attr_compare_keys is a total order that a tree can be kept in: swapping the arguments turns
-- the answer around, the answer "less" is transitive, and attributes that compare equal compare alike
-- with every other.
pub compare_keys-IsOrder : IsOrder lsa_attr_compare_keys
compare_keys-IsOrder = record {
  swap = λ a b. simp compare_keys-eq-key_order (key_order-swap a b);
  trans = λ a b c h k. rw compare_keys-eq-key_order (
      key_order_trans a b c (rw compare_keys-eq-key_order at h)
        (rw compare_keys-eq-key_order at k));
  same = λ a b c h.
      simp compare_keys-eq-key_order (key_order-same a b c (rw compare_keys-eq-key_order at h));
}
