-- ===== src/Diff/Tests.antt =====
-- Two small advertisements and their differences.
use dvpn.Base.{ℕ, ◌≡◌, refl, Bool, true, false, List, [], ◌∷◌, some, ok, arith, replicate}
use dvpn.Avl.Order.{Sorted, Each}
use dvpn.Avl.Walk.{in_order}
use dvpn.Lsa.Types.{Attr, attr, bytes, attr_set, empty, branch, Lsa, nodes}
use dvpn.Lsa.Compare.{lsa_attr_compare_keys, compare_keys-IsOrder}
use dvpn.Lsa.Insert.{attrs, IsKeyed}
use dvpn.Serialise.Dst.{int_bytes, seven_bit_groups, skip_empty}
use dvpn.Serialise.Encoding.{attr_code}
use dvpn.Diff.Trees.{Change, avl_diff}
use dvpn.Diff.Merge.{Reports, avl_diff-Reports}
use dvpn.Diff.Attrs.{Event, attr_cmp, lsa_diff}
use dvpn.Diff.Content.{content, attr_cmp-Tells}
use dvpn.Diff.Zero.{IsSmall, Agree, lsa_diff-Agree}

abbrev name : Attr
name = attr 3 true [] (bytes (104 ∷ []))

abbrev other_name : Attr
other_name = attr 3 true [] (bytes (105 ∷ []))

abbrev version : Attr
version = attr 4 true [] (bytes (1 ∷ []))

-- An attribute that holds a set.
abbrev peer : Attr
peer = attr 5 true [] (attr_set (branch empty name empty))

one-Sorted : Sorted lsa_attr_compare_keys (name ∷ [])
one-Sorted = (tt, tt)

two-Sorted : Sorted lsa_attr_compare_keys (other_name ∷ version ∷ [])
unfolding lsa_attr_compare_keys
two-Sorted = ((refl, tt), (tt, tt))

avl_diff-Reports_example :
    (cs : List (Change Attr)) × (avl_diff lsa_attr_compare_keys
        (name ∷ [])
        (other_name ∷ version ∷ [])
      ≡ ok cs)
    × Reports lsa_attr_compare_keys (name ∷ []) (other_name ∷ version ∷ []) cs
avl_diff-Reports_example =
    avl_diff-Reports lsa_attr_compare_keys compare_keys-IsOrder (name ∷ [])
      (other_name ∷ version ∷ []) one-Sorted two-Sorted

abbrev first : Lsa
first = record { refcount = 1; size = 73; id = replicate 32 7; root = branch empty name empty }

abbrev second : Lsa
second = record {
  refcount = 1;
  size = 104;
  id = replicate 32 7;
  root = branch empty other_name (branch empty version empty);
}

first-IsKeyed : IsKeyed first.root
unfolding nodes in_order
first-IsKeyed = (tt, tt)

second-IsKeyed : IsKeyed second.root
unfolding nodes in_order lsa_attr_compare_keys
second-IsKeyed = ((refl, tt), (tt, tt))

name-IsSmall : IsSmall name
unfolding attr_code int_bytes seven_bit_groups skip_empty
name-IsSmall = omega arith

other_name-IsSmall : IsSmall other_name
unfolding attr_code int_bytes seven_bit_groups skip_empty
other_name-IsSmall = omega arith

version-IsSmall : IsSmall version
unfolding attr_code int_bytes seven_bit_groups skip_empty
version-IsSmall = omega arith

peer-IsSmall : IsSmall peer
unfolding attr_code int_bytes seven_bit_groups skip_empty
peer-IsSmall = omega arith

first-IsSmall : Each IsSmall (attrs first.root)
unfolding nodes in_order
first-IsSmall = (name-IsSmall, tt)

second-IsSmall : Each IsSmall (attrs second.root)
unfolding nodes in_order
second-IsSmall = (other_name-IsSmall, (version-IsSmall, tt))

attr_cmp-Tells_example :
    (c : Bool) × (attr_cmp peer peer ≡ ok c)
    × (c ≡ false → content peer ≡ content peer)
    × (content peer ≡ content peer → c ≡ false)
attr_cmp-Tells_example = attr_cmp-Tells peer peer peer-IsSmall (omega (arith, peer-IsSmall))

lsa_diff-Agree_example :
    (n : ℕ) × (es : List Event) × (lsa_diff false (some first) (some second) ≡ ok (n, es))
    × (n ≡ 0 → Agree first second)
    × (Agree first second → n ≡ 0)
lsa_diff-Agree_example =
    lsa_diff-Agree false first second first-IsKeyed second-IsKeyed first-IsSmall second-IsSmall
