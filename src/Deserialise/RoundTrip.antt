-- ===== src/Deserialise/RoundTrip.antt =====
-- What lsa_serialise wrote, lsa_deserialise reads back.
use dvpn.Base.{
  ℕ, zero, suc, ◌+◌, ◌≤◌, ◌<◌, ◌^◌, ◌≡◌, refl, ap, ◌∙◌, sym, subst, append-nil, true, false, List,
  [], ◌∷◌, ◌++◌, length, length-append, arith, none, some, Option, ok, append_assoc, take,
}
use dvpn.Bytes.{Bytes, int_max}
use dvpn.Avl.Order.{Each, Each-append}
use dvpn.Avl.Walk.{in_order}
use dvpn.Lsa.Types.{
  Attr, attr, Data, bytes, attr_set, AttrTree, empty, branch, nodes, Lsa, node_id_len,
}
use dvpn.Lsa.Platform.{Platform}
use dvpn.Lsa.Totals.{tree_total, tree_total-in_order}
use dvpn.Lsa.Build.{lsa_alloc}
use dvpn.Lsa.Insert.{attrs, IsKeyed}
use dvpn.Lsa.View.{nil, view, view_before-attrs, list_view}
use dvpn.Serialise.Dst.{int_bytes}
use dvpn.Serialise.Varint.{length-int_bytes}
use dvpn.Serialise.Encoding.{attrs_code}
use dvpn.Serialise.Message.{message, body}
use dvpn.Serialise.Bound.{attrs_code-set_code, set_code-le}
use dvpn.Deserialise.Src.{Src, got, src_read}
use dvpn.Deserialise.Varint.{read_size-int_bytes}
use dvpn.Deserialise.Decoder
use dvpn.Deserialise.Decoder.{
  Reader, Decoded, ssize_max, attrs_loop, deserialise_attr_set, finish, read_lsa, with_length,
  start, lsa_deserialise,
}
use dvpn.Deserialise.ReadAttr.{take_front, src_read_front}
use dvpn.Deserialise.Step.{ReadsBack, ChildReads}
use dvpn.Deserialise.Loop.{list_code, set_code-list_code, AttrReads, Below, loop_reads}

-- Types are ints, keys can be searched for, sets are in order at every depth, and sets are nested at
-- most `depth` deep.
abbrev mutual
  pub TreeFits : ℕ → AttrTree → Type 0
  TreeFits depth empty = Unit
  TreeFits depth (branch l a r) = TreeFits depth l × AttrFits depth a × TreeFits depth r

  pub AttrFits : ℕ → Attr → Type 0
  AttrFits depth (attr type sign key d) = (type ≤ int_max) × (length key ≤ 65536) × DataFits depth d

  pub DataFits : ℕ → Data → Type 0
  DataFits depth (bytes d) = Unit
  DataFits zero (attr_set set) = ⊥
  DataFits (suc depth) (attr_set set) = IsKeyed set × TreeFits depth set

-- The reader that nested sets are read by.
abbrev child_reader : Platform → ℕ → Option Reader
child_reader p zero = none
child_reader p (suc depth) = some (deserialise_attr_set p depth)

module _ (p : Platform) where
  abbrev ReadsDepth : ℕ → Type 0
  ReadsDepth depth =
      (set : AttrTree)
      → IsKeyed set
      → TreeFits depth set
      → ReadsBack (deserialise_attr_set p depth) set

  abbrev ReadsBelow : ℕ → Type 0
  ReadsBelow zero = Unit
  ReadsBelow (suc depth) = ReadsDepth depth

  child_reads :
      (depth : ℕ) (d : Data)
      → ReadsBelow depth
      → DataFits depth d
      → ChildReads (child_reader p depth) d
  child_reads depth (bytes d) ih f = tt
  child_reads zero (attr_set set) ih f = f
  child_reads (suc depth) (attr_set set) ih (s, f) = ih set s f

  attr_reads :
      (depth : ℕ) (a : Attr)
      → ReadsBelow depth
      → AttrFits depth a
      → AttrReads (child_reader p depth) a
  attr_reads depth (attr type sign key d) ih (t, k, f) = (t, k, child_reads depth d ih f)

  attrs_read :
      (depth : ℕ) (set : AttrTree)
      → ReadsBelow depth
      → TreeFits depth set
      → Each (AttrReads (child_reader p depth)) (attrs set)
  unfolding nodes in_order
  attrs_read depth empty ih f = tt
  attrs_read depth (branch l a r) ih (fl, fa, fr) =
      Each-append _ (attrs l) (a ∷ attrs r) (attrs_read depth l ih fl)
        (attr_reads depth a ih fa, attrs_read depth r ih fr)

  deserialise_attr_set_lem :
      (depth : ℕ) (lsa : Lsa) (set : AttrTree) (src : Src)
      → deserialise_attr_set p depth lsa set src
        ≡ attrs_loop p (child_reader p depth) (length src.rest) lsa set src
  unfolding deserialise_attr_set
  deserialise_attr_set_lem zero lsa set src = refl
  deserialise_attr_set_lem (suc depth) lsa set src = refl

  all-Below_nothing : (child : Option Reader) (l : List Attr) → Below p child (attrs empty) l
  unfolding nodes in_order
  all-Below_nothing child [] = tt
  all-Below_nothing child (y ∷ l) = (tt, all-Below_nothing child l)

  attrs-empty : attrs empty ≡ []
  unfolding nodes in_order
  attrs-empty = refl

  reads_at : (depth : ℕ) → ReadsBelow depth → ReadsDepth depth
  reads_at depth ih set s f lsa off one room =
      let l = attrs set in
      let total = tree_total-in_order set in
      let (set', e, v) =
        loop_reads p (child_reader p depth) l (length (list_code l)) lsa empty off one
          (rw attrs-empty tt) (attrs_read depth set ih f) s
          (all-Below_nothing (child_reader p depth) l) (omega arith) (omega arith) in
      (
        set',
        rw (set_code-list_code set, deserialise_attr_set_lem depth) (e ∙ rw total refl),
        rw (view_before-attrs set', view_before-attrs set)
            (v nil ∙ rw attrs-empty (unfold list_view in refl)),
      )

  reads_back : (depth : ℕ) → ReadsDepth depth
  reads_back zero = reads_at zero tt
  reads_back (suc depth) = reads_at (suc depth) (reads_back depth)

src_read_all :
    (n : ℕ) (xs rest : Bytes) (off : ℕ)
    → length xs ≡ n
    → src_read n (record { rest = xs ++ rest; off = off })
      ≡ got (xs, record { rest = rest; off = off + n })
src_read_all n xs rest off e =
    subst
      (λ k.
        src_read k (record { rest = xs ++ rest; off = off })
        ≡ got (xs, record { rest = rest; off = off + k }))
      e (src_read_front xs rest off)

take_all : (n : ℕ) (xs rest : Bytes) → length xs ≡ n → take n (xs ++ rest) ≡ xs
take_all n xs rest e = subst (λ k. take k (xs ++ rest) ≡ xs) e (take_front xs rest)

-- A message that announces n bytes, all of which are there.
with_length_complete :
    (p : Platform) (buf : Bytes) (n : ℕ) (src : Src)
    → 0 < n
    → n + src.off ≤ length buf
    → n + src.off ≤ ssize_max
    → with_length p true buf n src
      ≡ read_lsa p true
          (n + src.off)
          (src_read node_id_len (record { rest = take n src.rest; off = src.off }))
unfolding with_length
with_length_complete p buf zero src h room small = absurd (omega arith)
with_length_complete p buf (suc n) src h room small = ground arith

take_id : (id : Bytes) → length id ≡ node_id_len → take node_id_len id ≡ id
take_id id e = ap (take node_id_len) (sym (append-nil id)) ∙ take_all node_id_len id [] e

module _ (p : Platform) (lsa : Lsa) (rest : Bytes) where
  -- The advertisement that reading gives, up to the shape of its tree.
  abbrev pub copy_with : AttrTree → Lsa
  copy_with root = record {
    refcount = 1;
    size = 42 + tree_total lsa.root;
    id = lsa.id;
    root = root;
  }

  read_lsa_body :
      (len off : ℕ)
      → length lsa.id ≡ node_id_len
      → IsKeyed lsa.root
      → TreeFits 8 lsa.root
      → 42 + tree_total lsa.root < 2 ^ 32
      → (root : AttrTree) × (read_lsa p true len
            (got (lsa.id, record { rest = attrs_code false none lsa.root; off = off }))
          ≡ ok (Decoder.message (some (copy_with root)) len))
        × (view root ≡ view lsa.root)
  unfolding read_lsa lsa_alloc finish
  read_lsa_body len off id s f room =
      let fresh : Lsa = record { refcount = 1; size = 42; id = lsa.id; root = empty } in
      let (root, e, v) = reads_back p 8 lsa.root s f fresh off refl room in
      (root, rw (attrs_code-set_code false lsa.root, take_id lsa.id id, e) refl, v)

  -- The message of an advertisement with a 32 byte id, that is in order at every depth, nests at most
  -- 8 deep and counts less than 2 ^ 32 bytes, with less than 2 ^ 32 bytes behind it in the buffer, is
  -- read back: the message is consumed to its last byte and no further, and the result has the id and
  -- the attributes of the original at every depth, one reference, and the count of its attributes.
  pub deserialise-message :
      length lsa.id ≡ node_id_len
      → IsKeyed lsa.root
      → TreeFits 8 lsa.root
      → 42 + tree_total lsa.root < 2 ^ 32
      → length rest < 2 ^ 32
      → (root : AttrTree) × (lsa_deserialise p true (message lsa false none ++ rest)
          ≡ ok (Decoder.message (some (copy_with root)) (length (message lsa false none))))
        × (view root ≡ view lsa.root)
  unfolding lsa_deserialise start
  deserialise-message id s f room small =
      let b = body lsa false none in
      let n = length b in
      let ib = int_bytes n in
      let l₁ = length-append lsa.id (attrs_code false none lsa.root) in
      let l₂ : length (attrs_code false none lsa.root) ≤ tree_total lsa.root =
        rw (attrs_code-set_code false lsa.root) (set_code-le false lsa.root) in
      let l₃ = length-int_bytes n in
      let l₄ = length-append (ib ++ b) rest in
      let l₅ = length-append ib b in
      let o : n + (0 + length ib) ≡ length (ib ++ b) = omega arith in
      let (root, e, v) =
        read_lsa_body (length (ib ++ b)) (0 + length ib + node_id_len) id s f room in
      (
        root,
        rw (append_assoc ib b rest) (
            rw (read_size-int_bytes n (b ++ rest) 0 (omega arith)) (
              rw
                (with_length_complete p (ib ++ (b ++ rest)) n
                  (record { rest = b ++ rest; off = 0 + length ib }) (omega arith)
                  (omega (arith, length-append ib (b ++ rest), length-append b rest)) (omega arith))
                (rw (take_all n b rest refl) (
                  rw
                    (src_read_all node_id_len lsa.id (attrs_code false none lsa.root)
                      (0 + length ib) id)
                    (rw o e))))),
        v,
      )
