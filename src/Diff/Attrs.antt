-- ===== src/Diff/Attrs.antt =====
-- lsa_diff.c: which attributes two advertisements differ in.
use dvpn.Base.{
  ℕ, ◌+◌, ◌-◌, Bool, true, false, not, ◌==◌, ltb, if◌then◌else◌, List, [], ◌∷◌, ◌++◌, length,
  replicate, Option, none, some, Result, ok, aborted, ◌>>=◌,
}
use dvpn.Bytes.{Bytes, memcmp, is_eq}
use dvpn.Lsa.Types.{Attr, attr, bytes, attr_set, Lsa}
use dvpn.Lsa.Compare.{lsa_attr_compare_keys}
use dvpn.Lsa.Insert.{attrs}
use dvpn.Serialise.Encoder.{lsa_attr_serialise, lsa_attr_serialise_length}
use dvpn.Diff.Trees.{Change, deleted, added, modified, avl_diff}

-- The buffer that alloca gives; what stands in it does not matter.
abbrev pub room : ℕ → Bytes
room n = replicate n 0

-- The part of attr_cmp for two nested sets: first the lengths, then the bytes.
unfoldable pub bytes_cmp : ℕ → Attr → Attr → Result Bool
bytes_cmp alen a b = do
  (abuf, n) ← lsa_attr_serialise (room (alen + 16)) (alen + 16) a
  (bbuf, m) ← lsa_attr_serialise (room (alen + 16)) (alen + 16) b
  ok (not (is_eq (memcmp alen abuf bbuf)))

unfoldable pub lengths_cmp : ℕ → ℕ → Attr → Attr → Result Bool
unfolding bytes_cmp
lengths_cmp alen blen a b =
    if not (alen == blen)
    then ok true
    else if ltb (65536 - 16) alen
    then aborted
    else bytes_cmp alen a b

unfoldable pub set_cmp : Attr → Attr → Result Bool
unfolding lengths_cmp
set_cmp a b = do
  alen ← lsa_attr_serialise_length a
  blen ← lsa_attr_serialise_length b
  lengths_cmp alen blen a b

-- Whether the data differ; `true` is an answer other than 0.
unfoldable pub attr_cmp : Attr → Attr → Result Bool
unfolding set_cmp
attr_cmp (attr t s k (bytes d)) (attr u r l (bytes e)) =
    if not (length d == length e) then ok true else ok (not (is_eq (memcmp (length d) d e)))
attr_cmp (attr t s k (attr_set d)) (attr u r l (bytes e)) = ok true
attr_cmp (attr t s k (bytes d)) (attr u r l (attr_set e)) = ok true
attr_cmp (attr t s k (attr_set d)) (attr u r l (attr_set e)) =
    set_cmp (attr t s k (attr_set d)) (attr u r l (attr_set e))

-- The calls of the callbacks. A callback that is a null pointer is called in vain.
pub data Event : Type 0 where
  attr_add attr_del : Attr → Event
  attr_mod : Attr → Attr → Event

abbrev pub mod_calls : Bool → Attr → Attr → List Event
mod_calls true a b = attr_mod a b ∷ []
mod_calls false a b = attr_del a ∷ attr_add b ∷ []

-- add, mod and del of lsa_diff.c: how much they add to the number of differences, and the calls they
-- make. `has_mod` says that attr_mod is no null pointer.
unfoldable pub on_change : Bool → Change Attr → Result (ℕ × List Event)
unfolding attr_cmp
on_change has_mod (added a) = ok (1, attr_add a ∷ [])
on_change has_mod (deleted a) = ok (1, attr_del a ∷ [])
on_change has_mod (modified a b) = do
  differ ← attr_cmp a b
  ok (if differ then (1, mod_calls has_mod a b) else (0, []))

unfoldable pub on_changes : Bool → List (Change Attr) → Result (ℕ × List Event)
unfolding on_change
on_changes has_mod [] = ok (0, [])
on_changes has_mod (c ∷ cs) = do
  (n, es) ← on_change has_mod c
  (m, fs) ← on_changes has_mod cs
  ok (n + m, es ++ fs)

abbrev pub attrs_of : Option Lsa → List Attr
attrs_of none = []
attrs_of (some lsa) = attrs lsa.root

-- The number of differences, and the calls in their order.
unfoldable pub lsa_diff : Bool → Option Lsa → Option Lsa → Result (ℕ × List Event)
unfolding avl_diff on_changes
lsa_diff has_mod a b = do
  cs ← avl_diff lsa_attr_compare_keys (attrs_of a) (attrs_of b)
  on_changes has_mod cs
