-- ===== src/LocRib/ChangeTests.antt =====
-- A second advertisement of a neighbour, added to the table and put in the place of the first.
use dvpn.Base.{◌≡◌, refl, true, none, some, ok, arith}
use dvpn.Bytes.{memcmp}
use dvpn.Avl.Order.{first_eq, insert_in, erase_in}
use dvpn.Avl.Walk.{in_order}
use dvpn.Lsa.Platform.{lp64}
use dvpn.Lsa.Build.{lsa_find_attr}
use dvpn.Lsa.Compare.{lsa_attr_compare_keys}
use dvpn.Lsa.Peer.{signed_number}
use dvpn.Lsa.Types.{nodes}
use dvpn.Lsa.Totals.{tree_total, own_total}
use dvpn.Lsa.Free.{all_filled}
use dvpn.Diff.Zero.{IsSmall}
use dvpn.Serialise.Dst.{int_bytes, seven_bit_groups, skip_empty}
use dvpn.Serialise.Encoding.{attr_code, attrs_code, set_code}
use dvpn.AdjRibIn.Notify.{Sound}
use dvpn.AdjRibIn.Rib.{Obj, get_obj, put_obj}
use dvpn.LocRib.State.{
  LsaRef, RibId, LocRib, compare_ids, compare_lsas, compare_lsa_refs, loc_rib_find_id, find_lsa_ref,
  lsa_get_version,
}
use dvpn.LocRib.Update.{loc_rib_add_lsa, loc_rib_mod_lsa}
use dvpn.LocRib.Table.{IsTable, new_ref}
use dvpn.LocRib.Changes.{got, IsAdded, add_lsa-IsAdded, changed, remaining, mod_lsa-IsTable}
use dvpn.LocRib.Tests.{me, path_attr, peer, near, my_lsa, near_lsa, rib_id, rib}

abbrev first : Obj
first = record { addr = 2; lsa = near_lsa }

abbrev second : Obj
second = record { addr = 3; lsa = near_lsa }

abbrev near_id : RibId
near_id = rib_id near 2 near_lsa

my_version : lsa_get_version lp64 my_lsa ≡ 0
unfolding lsa_get_version lsa_find_attr signed_number lsa_attr_compare_keys memcmp
my_version = refl

near_version : lsa_get_version lp64 near_lsa ≡ 0
unfolding lsa_get_version lsa_find_attr signed_number lsa_attr_compare_keys memcmp
near_version = refl

-- Everything has another reference.
abbrev shared : LocRib
shared = record rib { counts = λ a. 2 }

shared-IsTable : IsTable lp64 shared.ids
unfolding in_order compare_ids memcmp
shared-IsTable = (
  ((refl, tt), (tt, tt)),
  (
    ((tt, tt), (omega (arith, my_version), tt)),
    (((tt, tt), (omega (arith, near_version), tt)), tt),
  ),
)

near_known : loc_rib_find_id shared near ≡ some near_id
unfolding loc_rib_find_id memcmp
near_known = refl

second_new :
    first_eq
      (compare_lsa_refs lp64 (new_ref lp64 second))
      (in_order (got lp64 shared second (loc_rib_find_id shared near)).lsas)
    ≡ none
unfolding in_order first_eq compare_lsa_refs compare_lsas
second_new = rw near_known (ground arith)

add_lsa-IsAdded_example :
    IsAdded lp64 second
      (got lp64 shared second (loc_rib_find_id shared near))
      (loc_rib_add_lsa lp64 shared second)
add_lsa-IsAdded_example = add_lsa-IsAdded lp64 shared second shared-IsTable second_new

abbrev first_ref : LsaRef
first_ref = record { obj = first; cost = 0 }

first_found : find_lsa_ref lp64 near_id first ≡ some first_ref
unfolding find_lsa_ref compare_lsas
first_found = ground arith

second_only :
    first_eq
      (compare_lsa_refs lp64 (changed lp64 shared first second near_id first_ref))
      (remaining lp64 shared first second near_id first_ref)
    ≡ none
unfolding in_order first_eq erase_in compare_lsa_refs compare_lsas
second_only = ground arith

near_total : tree_total near_lsa.root ≡ 197
unfolding tree_total own_total
near_total = refl

near_path-IsSmall : IsSmall (path_attr near)
unfolding attr_code int_bytes seven_bit_groups skip_empty
near_path-IsSmall = omega arith

near_peer-IsSmall : IsSmall (peer me 1)
unfolding attr_code set_code attrs_code int_bytes seven_bit_groups skip_empty
near_peer-IsSmall = omega arith

first-Sound : Sound first
unfolding all_filled nodes in_order lsa_attr_compare_keys
first-Sound = (
  omega (arith, near_total),
  refl,
  omega arith,
  refl,
  ((refl, tt), (tt, tt)),
  (near_path-IsSmall, (near_peer-IsSmall, tt)),
)

mod_lsa-IsTable_example :
    (rib' : LocRib) × (loc_rib_mod_lsa lp64 shared first second ≡ ok rib')
    × IsTable lp64 rib'.ids
    × (rib'.recompute ≡ true)
    × (put_obj (get_obj shared.counts second) first ≡ ok rib'.counts)
    × (rid' : RibId) × (loc_rib_find_id rib' near ≡ some rid')
    × (in_order rid'.lsas
        ≡ insert_in
            (compare_lsa_refs lp64)
            (changed lp64 shared first second near_id first_ref)
            (remaining lp64 shared first second near_id first_ref))
    × (rid'.highest_version_seen ≡ 0)
mod_lsa-IsTable_example =
    mod_lsa-IsTable lp64 shared first second near_id first_ref shared-IsTable near_known first_found
      second_only first-Sound (omega (arith, near_version))
