-- ===== src/AdjRibIn/Tests.antt =====
-- A small advertisement that a neighbour might send.
use dvpn.Base.{◌≡◌, refl, true, some, [], ◌∷◌, ok, arith, replicate}
use dvpn.Bytes.{memcmp}
use dvpn.Lsa.Types.{attr, bytes, AttrTree, empty, branch, Lsa}
use dvpn.Lsa.Totals.{IsCounted, tree_total, own_total}
use dvpn.Lsa.Platform.{lp64}
use dvpn.Base.{Bool}
use dvpn.Avl.Order.{Each, Sorted}
use dvpn.Avl.Walk.{leaf, node, in_order}
use dvpn.Lsa.Types.{nodes}
use dvpn.Lsa.Compare.{lsa_attr_compare_keys}
use dvpn.Lsa.Free.{all_filled}
use dvpn.Lsa.Insert.{attrs, IsKeyed}
use dvpn.Lsa.Build.{lsa_find_attr, attr_data}
use dvpn.Lsa.AdvPath.{lsa_path_contains}
use dvpn.Serialise.Encoder.{
  lsa_serialise_length, lsa_attr_set_serialise_length, lsa_attrs_serialise, attr_serialise,
  lsa_serialise,
}
use dvpn.Serialise.Dst.{dst_append_int, dst_append, int_bytes, seven_bit_groups, skip_empty}
use dvpn.Serialise.Encoding.{attr_code}
use dvpn.Diff.Zero.{IsSmall}
use dvpn.AdjRibIn.Rib.{Obj, AdjRibIn, compare_refs, adj_rib_in_add_lsa, adj_rib_in_truncate}
use dvpn.AdjRibIn.Account.{total}
use dvpn.AdjRibIn.Notify.{Sound, weight}
use dvpn.AdjRibIn.Keep.{Accounted}
use dvpn.AdjRibIn.Add.{add_lsa-Keeps}
use dvpn.AdjRibIn.Truncate.{truncate_empties}
use dvpn.AdjRibIn.Accept.{Crypto, Ends, accept}
use dvpn.AdjRibIn.Settled.{Settles, accept-Settles}
use dvpn.AdjRibIn.Valid.{Valid, accept-Valid}

abbrev crypto : Crypto
crypto = record {
  sha256 = λ d. replicate 32 7;
  pubkey_init = true;
  pubkey_import = λ d. true;
  verify_data = λ k d s. true;
}

abbrev ends : Ends
ends = record { myid = some (replicate 32 1); remoteid = some (replicate 32 2) }

-- A path of the neighbour alone, a key and a signature.
abbrev tree : AttrTree
tree =
    branch (branch empty (attr 1 true [] (bytes (replicate 32 2))) empty)
      (attr 5 true [] (bytes (48 ∷ []))) (branch empty (attr 6 true [] (bytes (49 ∷ []))) empty)

abbrev sample : Lsa
sample = record { refcount = 1; size = 166; id = replicate 32 7; root = tree }

counted : IsCounted sample
unfolding tree_total own_total
counted = refl

accept-Settles_example : Settles (accept lp64 crypto ends sample)
accept-Settles_example = accept-Settles lp64 crypto ends sample counted refl (omega arith)

accept-Valid_example :
    (accept lp64 crypto ends sample ≡ ok tt → Valid lp64 crypto ends sample)
    × (Valid lp64 crypto ends sample → accept lp64 crypto ends sample ≡ ok tt)
accept-Valid_example = accept-Valid lp64 crypto ends sample counted refl (omega arith)

-- A table that holds the advertisement, with one listener.
abbrev obj : Obj
obj = record { addr = 1; lsa = sample }

abbrev rib : AdjRibIn
rib = record {
  ends = ends;
  lsas = node leaf obj leaf;
  size = 166;
  listeners = 0 ∷ [];
  counts = λ a. 1;
  calls = [];
}

sample-IsKeyed : IsKeyed tree
unfolding nodes in_order lsa_attr_compare_keys
sample-IsKeyed = ((refl, (refl, tt)), ((refl, tt), (tt, tt)))

sample_filled : all_filled true tree ≡ true
unfolding all_filled
sample_filled = refl

sample-IsSmall : Each IsSmall (attrs tree)
unfolding nodes in_order attr_code int_bytes seven_bit_groups skip_empty
sample-IsSmall = (omega arith, (omega arith, (omega arith, tt)))

obj-Sound : Sound obj
obj-Sound = (counted, refl, omega arith, sample_filled, sample-IsKeyed, sample-IsSmall)

rib_total : 166 ≡ total (weight lp64 crypto ends) (in_order (node leaf obj leaf))
unfolding total in_order accept lsa_find_attr lsa_attr_compare_keys memcmp attr_data
    lsa_path_contains lsa_serialise_length lsa_attr_set_serialise_length lsa_attrs_serialise
    attr_serialise dst_append_int dst_append int_bytes skip_empty seven_bit_groups lsa_serialise
rib_total = refl

one-Sorted : Sorted compare_refs (in_order (node leaf obj leaf))
unfolding in_order
one-Sorted = (tt, tt)

one-Sound : Each Sound (in_order (node leaf obj leaf))
unfolding in_order
one-Sound = (obj-Sound, tt)

rib-Accounted : Accounted lp64 crypto rib
rib-Accounted = (one-Sorted, one-Sound, rib_total, omega arith)

-- The same advertisement, sent once more.
add_lsa-Keeps_example :
    (rib' : AdjRibIn) × (b : Bool) × (adj_rib_in_add_lsa lp64 crypto true rib obj ≡ ok (rib', b))
    × Accounted lp64 crypto rib'
add_lsa-Keeps_example = add_lsa-Keeps lp64 crypto rib obj true rib-Accounted obj-Sound

truncate_empties_example :
    (rib' : AdjRibIn) × (adj_rib_in_truncate lp64 crypto rib ≡ ok rib')
    × (rib'.lsas ≡ leaf)
    × (rib'.size ≡ 0)
truncate_empties_example = truncate_empties lp64 crypto rib rib-Accounted
