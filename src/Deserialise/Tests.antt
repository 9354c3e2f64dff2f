-- ===== src/Deserialise/Tests.antt =====
-- Messages that are read and written on concrete bytes, and what the theorems say of them.
use dvpn.Base.{
  ℕ, ◌≡◌, ◌≢◌, refl, true, false, some, none, [], ◌∷◌, ◌++◌, Result, ok, aborted, fault, stuck,
  replicate, arith, length, drop, inr, ◌+◌, ◌≤◌,
}
use dvpn.Bytes.{Bytes, memcmp}
use dvpn.Avl.Spine.{spine_insert}
use dvpn.Avl.Walk.{in_order}
use dvpn.Lsa.Types.{attr, bytes, attr_set, AttrTree, empty, branch, Lsa, nodes}
use dvpn.Lsa.Compare.{lsa_attr_compare_keys}
use dvpn.Lsa.Size.{lsa_attr_size, attr_tree_free}
use dvpn.Lsa.Totals.{tree_total, own_total}
use dvpn.Lsa.Build.{lsa_alloc, lsa_attr_set_add_attr, lsa_attr_set_add_attr_set}
use dvpn.Lsa.Platform.{lp64}
use dvpn.Lsa.Insert.{IsKeyed}
use dvpn.Lsa.View.{view}
use dvpn.Serialise.Dst.{seven_bit_groups, skip_empty, int_bytes, dst_append, Dst}
use dvpn.Serialise.Encoder.{lsa_serialise, lsa_serialise_length, lsa_attrs_serialise, counter}
use dvpn.Serialise.Encoding.{attr_code, attrs_code, lsa_attrs_serialise-attrs_code}
use dvpn.Serialise.Message
use dvpn.Serialise.Message.{body, lsa_serialise_length-body, lsa_serialise-message}
use dvpn.Serialise.Bound.{serialise_length-le, message-le-size}
use dvpn.Deserialise.Src.{got, src_read, read_size, read_int, read_first, read_groups}
use dvpn.Deserialise.Varint.{read_size-int_bytes}
use dvpn.Deserialise.Decoder.{Decoded, message, need_more, lsa_deserialise}
use dvpn.Deserialise.RoundTrip.{TreeFits, copy_with, deserialise-message}
use dvpn.Deserialise.Total.{lsa_deserialise-ne-stuck}
use dvpn.Deserialise.Errors.{lsa_deserialise_waits}

unfoldable run : Bytes → Result Decoded
unfolding lsa_deserialise read_size src_read lsa_alloc read_int lsa_attr_set_add_attr
    lsa_attr_set_add_attr_set spine_insert lsa_attr_size lsa_attr_compare_keys memcmp attr_tree_free
run buf = lsa_deserialise lp64 true buf

abbrev some_id : Bytes
some_id = replicate 32 7

-- A keepalive, with a byte of the next message behind it.
keepalive : run (0 ∷ 5 ∷ []) ≡ ok (message none 1)
unfolding run read_first read_groups
keepalive = refl

-- Two attributes of type 3 without a key.
abbrev twice : Bytes
twice = 40 ∷ (some_id ++ (3 ∷ 0 ∷ 1 ∷ 65 ∷ 3 ∷ 0 ∷ 1 ∷ 66 ∷ []))

duplicate : run twice ≡ aborted
unfolding run read_first read_groups
duplicate = refl

-- An empty nested set, and then a bad attribute.
abbrev bad : Bytes
bad = 36 ∷ (some_id ++ (3 ∷ 2 ∷ 0 ∷ 128 ∷ []))

null_read : run bad ≡ fault
unfolding run read_first read_groups
null_read = refl

-- An advertisement of a path, of one peer with its metric, and of a node name.
abbrev three_attrs : AttrTree
three_attrs =
    branch (branch empty (attr 1 false [] (bytes some_id)) empty)
      (attr 2 true some_id (attr_set (branch empty (attr 1 true [] (bytes (0 ∷ 9 ∷ []))) empty)))
      (branch empty (attr 3 true [] (bytes (104 ∷ 105 ∷ []))) empty)

abbrev sample : Lsa
sample = record { refcount = 1; size = 240; id = some_id; root = three_attrs }

sample_total : tree_total three_attrs ≡ 198
unfolding tree_total own_total
sample_total = refl

sample-IsKeyed : IsKeyed three_attrs
unfolding nodes in_order lsa_attr_compare_keys
sample-IsKeyed = ((refl, (refl, tt)), ((refl, tt), (tt, tt)))

nested-IsKeyed : IsKeyed (branch empty (attr 1 true [] (bytes (0 ∷ 9 ∷ []))) empty)
unfolding nodes in_order
nested-IsKeyed = (tt, tt)

sample_fits : TreeFits 8 three_attrs
sample_fits = (
  (tt, (omega arith, omega arith, tt), tt),
  (omega arith, omega arith, (nested-IsKeyed, (tt, (omega arith, omega arith, tt), tt))),
  (tt, (omega arith, omega arith, tt), tt),
)

deserialise-message_example :
    (root : AttrTree) × (lsa_deserialise lp64 true
        (Message.message sample false none ++ (1 ∷ 2 ∷ []))
      ≡ ok (
          message
            (some (copy_with lp64 sample (1 ∷ 2 ∷ []) root))
            (length (Message.message sample false none))))
    × (view root ≡ view three_attrs)
deserialise-message_example =
    deserialise-message lp64 sample (1 ∷ 2 ∷ []) refl sample-IsKeyed sample_fits
      (omega (arith, sample_total)) (omega arith)

length-body : length (body sample false (some some_id)) ≡ 145
unfolding attrs_code attr_code int_bytes seven_bit_groups skip_empty
length-body = refl

sample_le : length (Message.message sample true none) ≤ 240
sample_le = message-le-size sample true (omega (arith, sample_total)) refl

serialise_length-le_example :
    (n : ℕ) × (lsa_serialise_length sample true none ≡ ok n) × (length (int_bytes n) + n ≤ 240)
serialise_length-le_example =
    serialise_length-le sample true (omega (arith, sample_total)) refl (omega arith)

abbrev buffer : Bytes
buffer = replicate 256 0

lsa_serialise-message_example :
    lsa_serialise buffer (length buffer) (length (body sample true none)) sample true none
    ≡ ok (
      Message.message sample true none ++ drop (length (Message.message sample true none)) buffer,
      length (Message.message sample true none),
    )
lsa_serialise-message_example =
    lsa_serialise-message sample true none buffer (omega arith) (omega (arith, sample_le))

lsa_serialise_length-body_example :
    lsa_serialise_length sample false (some some_id)
    ≡ ok (length (body sample false (some some_id)))
lsa_serialise_length-body_example =
    lsa_serialise_length-body sample false (some some_id) refl (omega (arith, length-body))

lsa_attrs_serialise-attrs_code_example :
    lsa_attrs_serialise false (some some_id) three_attrs counter
    ≡ dst_append counter (attrs_code false (some some_id) three_attrs)
lsa_attrs_serialise-attrs_code_example =
    lsa_attrs_serialise-attrs_code false (some some_id) three_attrs counter

abbrev small_dst : Dst
small_dst = record { buf = 0 ∷ 0 ∷ 0 ∷ []; dstlen = 3; off = 1 }

read_size-int_bytes_example :
    read_size (record { rest = int_bytes 300 ++ (5 ∷ []); off = 4 })
    ≡ got (300, record { rest = 5 ∷ []; off = 4 + length (int_bytes 300) })
read_size-int_bytes_example = read_size-int_bytes 300 (5 ∷ []) 4 (omega arith)

lsa_deserialise-ne-stuck_example : lsa_deserialise lp64 true twice ≢ stuck
lsa_deserialise-ne-stuck_example = lsa_deserialise-ne-stuck lp64 true twice

-- A message of 5 bytes, all of which are there.
lsa_deserialise_waits_example :
    lsa_deserialise lp64 true (int_bytes 5 ++ (1 ∷ 2 ∷ 3 ∷ 4 ∷ 5 ∷ [])) ≡ ok need_more
lsa_deserialise_waits_example =
    lsa_deserialise_waits lp64 true 5 (1 ∷ 2 ∷ 3 ∷ 4 ∷ 5 ∷ []) (omega arith) (omega arith)
      (inr (omega arith))
