-- ===== src/Lsa/Tests.antt =====
-- Advertisements that are built and freed, and what the theorems say of them.
use dvpn.Base.{
  Bool, ℕ, ◌+◌, ◌-◌, ◌<◌, ◌^◌, ◌≡◌, refl, true, false, some, none, [], ◌∷◌, ok, aborted, fault,
  arith, if◌then◌else◌, replicate,
}
use dvpn.Bytes.{Bytes, memcmp, is_eq}
use dvpn.Avl.Order.{Each, insert_in, erase_in, first_eq}
use dvpn.Avl.Walk.{in_order}
use dvpn.Lsa.Types.{
  attr_set, Attr, attr, bytes, AttrTree, empty, branch, Lsa, nodes, attr_type_peer,
  attr_type_adv_path,
}
use dvpn.Lsa.Compare.{lsa_attr_compare_keys}
use dvpn.Lsa.Size.{attr_tree_free}
use dvpn.Lsa.Totals.{tree_total, own_total}
use dvpn.Lsa.Free.{all_filled, attr_tree_free-tree_total}
use dvpn.Lsa.Build.{
  add_to_set, lsa_attr_set_find_attr, search_key, lsa_add_attr, lsa_del_attr_bykey,
}
use dvpn.Lsa.Platform.{lp64}
use dvpn.Lsa.Insert.{attrs, IsKeyed, lookup_attr, find_attr-lookup_attr, add_fresh, add_duplicate}
use dvpn.Lsa.Change.{IsWell, add_attr-IsWell, del_bykey-IsWell}
use dvpn.Lsa.AdvPath.{path_data, IsHop, lsa_path_contains, path_contains-IsHop}
use dvpn.Lsa.Alike.{TreeKeyed}
use dvpn.Lsa.Clone.{lsa_clone}
use dvpn.Lsa.Copy.{clone_copies}
use dvpn.Lsa.View.{view}
use dvpn.Lsa.Peer.{lsa_get_peer_info}
use dvpn.Lsa.Answer.{HoldsKeyed, Answers, get_peer_info-Answers}

-- An attribute of type 3 with the key 7.
abbrev name : Attr
name = attr 3 true (7 ∷ []) (bytes (104 ∷ 105 ∷ []))

abbrev one_attr : AttrTree
one_attr = branch empty name empty

abbrev sample : Lsa
sample = record { refcount = 1; size = 85; id = replicate 32 7; root = one_attr }

sample-IsKeyed : IsKeyed one_attr
unfolding nodes in_order
sample-IsKeyed = (tt, tt)

six_fresh : lookup_attr 6 [] (attrs one_attr) ≡ none
unfolding nodes in_order first_eq lsa_attr_compare_keys
six_fresh = refl

three_taken : lookup_attr 3 (7 ∷ []) (attrs one_attr) ≡ some name
unfolding nodes in_order first_eq lsa_attr_compare_keys memcmp
three_taken = refl

small : own_total (attr 6 false [] (bytes (1 ∷ []))) < 2 ^ 32
unfolding own_total
small = omega arith

total : tree_total one_attr ≡ 43
unfolding tree_total own_total
total = refl

attr_tree_free-tree_total_example :
    attr_tree_free false one_attr 85
    ≡ (if all_filled false one_attr then ok (85 - tree_total one_attr) else fault)
attr_tree_free-tree_total_example =
    attr_tree_free-tree_total false one_attr 85 (omega (arith, total)) (omega arith)

find_attr-lookup_attr_example :
    lsa_attr_set_find_attr one_attr 3 (7 ∷ []) ≡ lookup_attr 3 (7 ∷ []) (attrs one_attr)
find_attr-lookup_attr_example =
    find_attr-lookup_attr one_attr 3 (7 ∷ []) sample-IsKeyed (omega arith)

abbrev added : Attr
added = attr 6 false [] (bytes (1 ∷ []))

add_fresh_example :
    (set' : AttrTree) × (add_to_set lp64 sample one_attr added
      ≡ ok (record sample { size = 85 + own_total added }, set'))
    × (attrs set' ≡ insert_in lsa_attr_compare_keys added (attrs one_attr))
add_fresh_example =
    add_fresh lp64 sample one_attr 6 false [] (bytes (1 ∷ [])) refl sample-IsKeyed (omega arith)
      six_fresh small (omega arith)

add_duplicate_example : add_to_set lp64 sample one_attr (attr 3 false (7 ∷ []) (bytes [])) ≡ aborted
add_duplicate_example =
    add_duplicate lp64 sample one_attr 3 false (7 ∷ []) (bytes []) name sample-IsKeyed (omega arith)
      three_taken

one_counted : 85 ≡ 42 + tree_total one_attr
one_counted = omega (arith, total)

add_attr-IsWell_example :
    (lsa' : Lsa) × (lsa_add_attr lp64 sample 6 false [] (1 ∷ []) ≡ ok lsa')
    × IsWell lsa'
    × ((t : ℕ) (k : Bytes)
        → lookup_attr t k (attrs lsa'.root) ≡ (
            if is_eq (lsa_attr_compare_keys (search_key t k) added)
            then some added
            else lookup_attr t k (attrs one_attr)))
add_attr-IsWell_example =
    add_attr-IsWell lp64 sample 6 false [] (1 ∷ []) (refl, sample-IsKeyed, one_counted)
      (omega arith) small (omega arith) six_fresh

del_bykey-IsWell_example :
    (lsa' : Lsa) × (lsa_del_attr_bykey lp64 sample 3 (7 ∷ []) ≡ ok lsa')
    × IsWell lsa'
    × (lsa'.id ≡ sample.id)
    × (attrs lsa'.root ≡ erase_in (lsa_attr_compare_keys (search_key 3 (7 ∷ []))) (attrs one_attr))
    × (lookup_attr 3 (7 ∷ []) (attrs lsa'.root) ≡ none)
del_bykey-IsWell_example =
    del_bykey-IsWell lp64 sample 3 (7 ∷ []) name (refl, sample-IsKeyed, one_counted) (omega arith)
      (omega arith) three_taken refl

abbrev hop : ℕ → Bytes
hop n = replicate 32 n

-- A path through two nodes, the second of which is sought.
path_contains-IsHop_example :
    (b : Bool) × (lsa_path_contains lp64
        (attr attr_type_adv_path false [] (bytes (path_data (hop 1 ∷ hop 2 ∷ []))))
        (hop 2)
      ≡ ok b)
    × (b ≡ true → IsHop (hop 2) (hop 1 ∷ hop 2 ∷ []))
    × (IsHop (hop 2) (hop 1 ∷ hop 2 ∷ []) → b ≡ true)
path_contains-IsHop_example =
    path_contains-IsHop lp64 false [] (hop 1 ∷ hop 2 ∷ []) (hop 2) refl (refl, (refl, tt))

-- A neighbour with a metric and no flags.
abbrev peer_set : AttrTree
peer_set = branch empty (attr 1 true [] (bytes (1 ∷ 4 ∷ []))) empty

abbrev peer_tree : AttrTree
peer_tree = branch empty (attr 2 true (hop 9) (attr_set peer_set)) empty

peer_tree-IsKeyed : IsKeyed peer_tree
unfolding nodes in_order
peer_tree-IsKeyed = (tt, tt)

peer_set-IsKeyed : IsKeyed peer_set
unfolding nodes in_order
peer_set-IsKeyed = (tt, tt)

peer_tree_held : Each HoldsKeyed (attrs peer_tree)
unfolding nodes in_order
peer_tree_held = (peer_set-IsKeyed, tt)

get_peer_info-Answers_example :
    Answers
      (lookup_attr attr_type_peer (hop 9) (attrs peer_tree))
      (lsa_get_peer_info lp64 (record sample { root = peer_tree }) (hop 9))
get_peer_info-Answers_example =
    get_peer_info-Answers lp64 (omega arith) (record sample { root = peer_tree }) (hop 9)
      peer_tree-IsKeyed peer_tree_held refl

peer_total : tree_total peer_tree ≡ 104
unfolding tree_total own_total
peer_total = refl

peer_tree-TreeKeyed : TreeKeyed peer_tree
peer_tree-TreeKeyed = (tt, (omega arith, (peer_set-IsKeyed, (tt, (omega arith, tt), tt))), tt)

clone_copies_example :
    (root : AttrTree) × (lsa_clone lp64 true (record sample { root = peer_tree })
      ≡ ok (
          some (record {
            refcount = 1;
            size = 42 + tree_total peer_tree;
            id = sample.id;
            root = root;
          })))
    × (view root ≡ view peer_tree)
clone_copies_example =
    clone_copies lp64 (record sample { root = peer_tree }) refl peer_tree-IsKeyed
      peer_tree-TreeKeyed (omega (arith, peer_total))
