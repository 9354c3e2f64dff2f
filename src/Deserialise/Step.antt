-- ===== src/Deserialise/Step.antt =====
-- One round of the loop of lsa_deserialise_attr_set on an attribute that comes after all that the
-- set holds, which is how a serialised set is read.
use dvpn.Base.{
  ℕ, ◌+◌, ◌≤◌, ◌<◌, ◌^◌, ◌≡◌, refl, Bool, true, false, [], ◌∷◌, ◌++◌, length, arith, none, some,
  Option, ok,
}
use dvpn.Bytes.{Bytes}
use dvpn.Avl.Replace.{IsLast}
use dvpn.Lsa.Types.{attr, Data, bytes, attr_set, AttrTree, empty, Lsa}
use dvpn.Lsa.Compare.{lsa_attr_compare_keys}
use dvpn.Lsa.Platform.{Platform}
use dvpn.Lsa.Totals.{own_total, tree_total, attr_total}
use dvpn.Lsa.Build.{put_child, lsa_attr_set_add_attr, lsa_attr_set_add_attr_set}
use dvpn.Lsa.Insert.{attrs, IsKeyed}
use dvpn.Lsa.Last.{IsLast-payload, view_nested, add_last, put_child_last}
use dvpn.Lsa.View.{view, view_attr}
use dvpn.Deserialise.Decoder.{Reader, built, fill, place}
use dvpn.Deserialise.ReadAttr.{raw_of, is_tlv-attr_flags, is_signed-attr_flags}
use dvpn.Serialise.Encoding.{set_code}

-- `reader` reads back a set that was serialised.
abbrev pub ReadsBack : Reader → AttrTree → Type 0
ReadsBack reader set =
    (lsa : Lsa) (off : ℕ)
    → lsa.refcount ≡ 1
    → lsa.size + tree_total set < 2 ^ 32
    → (set' : AttrTree) × (reader lsa empty (record { rest = set_code false set; off = off })
        ≡ ok (record {
          lsa = record lsa { size = lsa.size + tree_total set };
          set = set';
          good = true;
        }))
      × (view set' ≡ view set)

-- The nested set, if the attribute holds one, is one that `child` reads back.
abbrev pub ChildReads : Option Reader → Data → Type 0
ChildReads child (bytes d) = Unit
ChildReads none (attr_set set) = ⊥
ChildReads (some reader) (attr_set set) = ReadsBack reader set

module _ (p : Platform) (lsa : Lsa) (set : AttrTree) (type : ℕ) (sign : Bool) (key : Bytes) where
  -- What a round leaves behind: the set with an attribute behind the others that holds the same.
  abbrev pub Placed : Option Reader → Data → Type 0
  Placed child d =
      (set' : AttrTree) × (d' : Data) × (place p child lsa set (raw_of (attr type sign key d))
        ≡ ok (record {
          lsa = record lsa { size = lsa.size + attr_total (attr type sign key d) };
          set = set';
          good = true;
        }))
      × (attrs set' ≡ attrs set ++ attr type sign key d' ∷ [])
      × (view_attr (attr type sign key d') ≡ view_attr (attr type sign key d))

  pub place_last :
      (child : Option Reader) (d : Data)
      → ChildReads child d
      → lsa.refcount ≡ 1
      → IsKeyed set
      → length key ≤ 65536
      → IsLast lsa_attr_compare_keys (attrs set) (attr type sign key d)
      → lsa.size + attr_total (attr type sign key d) < 2 ^ 32
      → Placed child d
  unfolding place built fill tree_total lsa_attr_set_add_attr lsa_attr_set_add_attr_set
  place_last child (bytes d) c one s short last room =
      let (set', e, o) =
        add_last p lsa set type sign key (bytes d) one s short last (omega arith) (omega arith) in
      let a = attr type sign key (bytes d) in
      let q : lsa.size + own_total a ≡ lsa.size + attr_total a = omega arith in
      (
        set',
        bytes d,
        rw (is_tlv-attr_flags type sign key (bytes d), is_signed-attr_flags type sign key (bytes d))
            (rw (e, q) refl),
        o,
        refl,
      )
  place_last none (attr_set t) c one s short last room = absurd c
  place_last (some reader) (attr_set t) c one s short last room =
      let a = attr type sign key (attr_set t) in
      let a₀ = attr type sign key (attr_set empty) in
      let last₀ =
        IsLast-payload (attrs set) type sign sign key (attr_set t) (attr_set empty) last in
      let own : own_total a₀ ≡ own_total a = unfold own_total in refl in
      let (set₁, e, o) =
        add_last p lsa set type sign key (attr_set empty) one s short last₀ (omega arith)
          (omega arith) in
      let (child, r, v) = c (record lsa { size = lsa.size + own_total a₀ }) 0 one (omega arith) in
      let q : lsa.size + own_total a₀ + tree_total t ≡ lsa.size + attr_total a = omega arith in
      (
        put_child type key child set₁,
        attr_set child,
        rw
            (
              is_tlv-attr_flags type sign key (attr_set t),
              is_signed-attr_flags type sign key (attr_set t),
            )
            (rw e (rw (r, q) refl)),
        put_child_last p lsa set type sign key set₁ child s last₀ o,
        view_nested type sign key child t v,
      )
