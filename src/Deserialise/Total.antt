-- ===== src/Deserialise/Total.antt =====
-- lsa_deserialise returns on every input: each round of its loop takes bytes, and nesting is limited.
use dvpn.Base.{
  ℕ, zero, suc, ◌+◌, ◌≤◌, ◌≢◌, refl, Bool, true, false, [], ◌∷◌, length, take, arith, none, some,
  Option, Result, ok, err, aborted, fault, stuck, >>=-ne-stuck, ok-ne-stuck, Bool-cases, inl, inr,
  ◌==◌,
}
use dvpn.Bytes.{Bytes}
use dvpn.Lsa.Types.{Attr, attr, Data, bytes, attr_set, AttrTree, empty, branch, Lsa, node_id_len}
use dvpn.Lsa.Platform.{Platform}
use dvpn.Lsa.Size.{lsa_attr_size, attr_tree_free, attr_free, data_free, sub_size}
use dvpn.Lsa.Build.{
  lsa_alloc, lsa_put, free_root, add_to_set, lsa_attr_set_add_attr, lsa_attr_set_add_attr_set,
}
use dvpn.Deserialise.Leaves.{Leaves, read_attr-Leaves}
use dvpn.Deserialise.Src.{Src, Read, got, short_read, error, src_read, read_size}
use dvpn.Deserialise.Decoder.{
  Reader, Built, RawAttr, malformed, is_tlv, is_signed, read_attr, built, fill, place, after_read,
  attrs_loop, deserialise_attr_set, finish, read_lsa, with_length, start, lsa_deserialise,
}

-- None of the functions that a round calls runs out of fuel.
lsa_attr_size-ne-stuck : (a : Attr) → lsa_attr_size a ≢ stuck
unfolding lsa_attr_size
lsa_attr_size-ne-stuck (attr type sign [] (bytes d)) e = ground arith
lsa_attr_size-ne-stuck (attr type sign [] (attr_set t)) e = ground arith
lsa_attr_size-ne-stuck (attr type sign (k ∷ key) (bytes d)) e = ground arith
lsa_attr_size-ne-stuck (attr type sign (k ∷ key) (attr_set t)) e = ground arith

mutual
  unfolding attr_tree_free

  tree_free-ne-stuck :
      (checked : Bool) (t : AttrTree) (size : ℕ) → attr_tree_free checked t size ≢ stuck
  tree_free-ne-stuck true empty size = ok-ne-stuck size
  tree_free-ne-stuck false empty size = λ e. cc
  tree_free-ne-stuck checked (branch l a r) size =
      >>=-ne-stuck (lsa_attr_size a) _ (lsa_attr_size-ne-stuck a) λ n.
        >>=-ne-stuck (attr_tree_free true l (sub_size size n)) _ (tree_free-ne-stuck true l _)
          λ size₁.
            >>=-ne-stuck (attr_tree_free true r size₁) _ (tree_free-ne-stuck true r size₁)
              λ size₂. attr_free-ne-stuck a size₂

  attr_free-ne-stuck : (a : Attr) (size : ℕ) → attr_free a size ≢ stuck
  attr_free-ne-stuck (attr type sign key d) size = data_free-ne-stuck d size

  data_free-ne-stuck : (d : Data) (size : ℕ) → data_free d size ≢ stuck
  data_free-ne-stuck (bytes d) size = ok-ne-stuck size
  data_free-ne-stuck (attr_set t) size = tree_free-ne-stuck false t size

lsa_put-ne-stuck : (lsa : Lsa) → lsa_put lsa ≢ stuck
unfolding lsa_put
lsa_put-ne-stuck lsa = elim (Bool-cases (lsa.refcount == 1)) [
  | inl e ↦ rw e (>>=-ne-stuck (free_root lsa.root lsa.size) _ (root lsa.root) λ size. λ p. cc)
  | inr e ↦ rw e (λ p. cc)
]
  where
    root : (t : AttrTree) → free_root t lsa.size ≢ stuck
    root empty = ok-ne-stuck lsa.size
    root (branch l a r) = tree_free-ne-stuck false (branch l a r) lsa.size

module _ (p : Platform) where
  add_to_set-ne-stuck : (lsa : Lsa) (set : AttrTree) (a : Attr) → add_to_set p lsa set a ≢ stuck
  unfolding add_to_set
  add_to_set-ne-stuck lsa set (attr type sign key d) e =
      ground (arith, lsa_attr_size-ne-stuck (attr type sign key d))

  built-ne-stuck :
      (lsa : Lsa) (set : AttrTree) (r : Result (Lsa × AttrTree))
      → r ≢ stuck
      → built p lsa set r ≢ stuck
  unfolding built
  built-ne-stuck lsa set (ok (lsa₁, set₁)) h = λ e. cc
  built-ne-stuck lsa set err h = λ e. cc
  built-ne-stuck lsa set aborted h = λ e. cc
  built-ne-stuck lsa set fault h = λ e. cc
  built-ne-stuck lsa set stuck h = absurd (h refl)

  -- A reader that returns on every input.
  abbrev Returns : Reader → Type 0
  Returns reader = (lsa : Lsa) (set : AttrTree) (src : Src) → reader lsa set src ≢ stuck

  abbrev ChildReturns : Option Reader → Type 0
  ChildReturns none = Unit
  ChildReturns (some reader) = Returns reader

  fill-ne-stuck :
      (reader : Reader) (raw : RawAttr) (lsa : Lsa) (set : AttrTree) (r : Result (Lsa × AttrTree))
      → Returns reader
      → r ≢ stuck
      → fill p reader raw lsa set r ≢ stuck
  unfolding fill
  fill-ne-stuck reader raw lsa set (ok (lsa₁, set₁)) c h =
      >>=-ne-stuck (reader lsa₁ empty (record { rest = raw.payload; off = 0 })) _ (c lsa₁ empty _)
        (λ b e. cc)
  fill-ne-stuck reader raw lsa set err c h = λ e. cc
  fill-ne-stuck reader raw lsa set aborted c h = λ e. cc
  fill-ne-stuck reader raw lsa set fault c h = λ e. cc
  fill-ne-stuck reader raw lsa set stuck c h = absurd (h refl)

  place-ne-stuck :
      (child : Option Reader) (lsa : Lsa) (set : AttrTree) (raw : RawAttr)
      → ChildReturns child
      → place p child lsa set raw ≢ stuck
  unfolding place lsa_attr_set_add_attr lsa_attr_set_add_attr_set
  place-ne-stuck none lsa set raw c = elim (Bool-cases (is_tlv raw.flags)) [
    | inl e ↦ rw e (λ p. cc)
    | inr e ↦ rw e (
        built-ne-stuck lsa set _ (
          add_to_set-ne-stuck lsa set
            (attr raw.type (is_signed raw.flags) raw.key (bytes raw.payload))))
  ]
  place-ne-stuck (some reader) lsa set raw c = elim (Bool-cases (is_tlv raw.flags)) [
    | inl e ↦ rw e (
        fill-ne-stuck reader raw lsa set _ c (
          add_to_set-ne-stuck lsa set
            (attr raw.type (is_signed raw.flags) raw.key (attr_set empty))))
    | inr e ↦ rw e (
        built-ne-stuck lsa set _ (
          add_to_set-ne-stuck lsa set
            (attr raw.type (is_signed raw.flags) raw.key (bytes raw.payload))))
  ]

  after_read-ne-stuck :
      (child : Option Reader) (continue : Reader) (lsa : Lsa) (set : AttrTree) (n : ℕ)
      (r : Read (RawAttr × Src))
      → ChildReturns child
      → Leaves n r
      → ((l : Lsa) (s : AttrTree) (src : Src) → length src.rest ≤ n → continue l s src ≢ stuck)
      → after_read p child continue lsa set r ≢ stuck
  unfolding after_read
  after_read-ne-stuck child continue lsa set n (got (raw, src)) c h k =
      >>=-ne-stuck (place p child lsa set raw) _ (place-ne-stuck child lsa set raw c) λ b.
        elim (Bool-cases b.good) [ inl e ↦ rw e (k b.lsa b.set src h) | inr e ↦ rw e (λ p. cc) ]
  after_read-ne-stuck child continue lsa set n short_read c h k = λ e. cc
  after_read-ne-stuck child continue lsa set n error c h k = λ e. cc

  attrs_loop-ne-stuck :
      (child : Option Reader) (fuel : ℕ) (lsa : Lsa) (set : AttrTree) (rest : Bytes) (off : ℕ)
      → ChildReturns child
      → length rest ≤ fuel
      → attrs_loop p child fuel lsa set (record { rest = rest; off = off }) ≢ stuck
  unfolding attrs_loop
  attrs_loop-ne-stuck child zero lsa set [] off c h = λ e. cc
  attrs_loop-ne-stuck child zero lsa set (b ∷ bs) off c h = absurd (omega arith)
  attrs_loop-ne-stuck child (suc fuel) lsa set [] off c h = λ e. cc
  attrs_loop-ne-stuck child (suc fuel) lsa set (b ∷ bs) off c h =
      after_read-ne-stuck child (attrs_loop p child fuel) lsa set fuel
        (read_attr (record { rest = b ∷ bs; off = off })) c
        (read_attr-Leaves (record { rest = b ∷ bs; off = off }) fuel h)
        (λ l s src h'. attrs_loop-ne-stuck child fuel l s src.rest src.off c h')

  deserialise_attr_set-Returns : (depth : ℕ) → Returns (deserialise_attr_set p depth)
  unfolding deserialise_attr_set
  deserialise_attr_set-Returns zero lsa set src =
      attrs_loop-ne-stuck none (length src.rest) lsa set src.rest src.off tt (omega arith)
  deserialise_attr_set-Returns (suc depth) lsa set src =
      attrs_loop-ne-stuck (some (deserialise_attr_set p depth)) (length src.rest) lsa set src.rest
        src.off (deserialise_attr_set-Returns depth) (omega arith)

  finish-ne-stuck : (len : ℕ) (b : Built) → finish p len b ≢ stuck
  unfolding finish
  finish-ne-stuck len b = elim (Bool-cases b.good) [
    | inl e ↦ rw e (λ q. cc)
    | inr e ↦ rw e (
        >>=-ne-stuck (lsa_put (record b.lsa { root = b.set })) _
          (lsa_put-ne-stuck (record b.lsa { root = b.set })) (λ l. ok-ne-stuck malformed))
  ]

  read_lsa-ne-stuck : (mem : Bool) (len : ℕ) (r : Read (Bytes × Src)) → read_lsa p mem len r ≢ stuck
  unfolding read_lsa lsa_alloc
  read_lsa-ne-stuck mem len short_read = λ e. cc
  read_lsa-ne-stuck mem len error = λ e. cc
  read_lsa-ne-stuck false len (got (id, src)) = λ e. cc
  read_lsa-ne-stuck true len (got (id, src)) =
      >>=-ne-stuck (deserialise_attr_set p 8 _ _ src) _ (deserialise_attr_set-Returns 8 _ _ src)
        (finish-ne-stuck len)

  with_length-ne-stuck :
      (mem : Bool) (buf : Bytes) (n : ℕ) (src : Src) → with_length p mem buf n src ≢ stuck
  unfolding with_length
  with_length-ne-stuck mem buf zero src e = cc
  with_length-ne-stuck mem buf (suc n) src e = ground (
    arith,
    read_lsa-ne-stuck mem (suc n + src.off)
        (src_read node_id_len (record { rest = take (suc n) src.rest; off = src.off })),
  )

  -- Whatever the bytes, lsa_deserialise comes to an end: the loops of its model never run out of
  -- fuel.
  pub lsa_deserialise-ne-stuck : (mem : Bool) (buf : Bytes) → lsa_deserialise p mem buf ≢ stuck
  unfolding lsa_deserialise
  lsa_deserialise-ne-stuck mem buf = by_start (read_size (record { rest = buf; off = 0 }))
    where
      by_start : (r : Read (ℕ × Src)) → start p mem buf r ≢ stuck
      by_start (got (n, src)) = unfold start in with_length-ne-stuck mem buf n src
      by_start short_read = unfold start in (λ e. cc)
      by_start error = unfold start in (λ e. cc)
