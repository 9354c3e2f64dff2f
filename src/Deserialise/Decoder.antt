-- ===== src/Deserialise/Decoder.antt =====
-- The deserialiser of lsa_deserialise.c.
use dvpn.Base.{
  ℕ, zero, suc, ◌+◌, ◌-◌, ◌/◌, ◌%◌, Bool, true, false, ltb, ◌==◌, if◌then◌else◌, [], ◌∷◌, length,
  take, Option, none, some, Result, ok, err, aborted, fault, stuck,
}
use dvpn.Base.{◌>>=◌ as bind}
use dvpn.Bytes.{Bytes}
use dvpn.Lsa.Types.{AttrTree, empty, Lsa, node_id_len}
use dvpn.Lsa.Platform.{Platform}
use dvpn.Lsa.Build.{lsa_alloc, lsa_put, lsa_attr_set_add_attr, lsa_attr_set_add_attr_set, put_child}
use dvpn.Deserialise.Src.{Src, Read, got, short_read, error, ◌>>=◌, src_read, read_size, read_int}

-- One attribute as it stands in a message.
pub record RawAttr : Type 0 where
  pub type : ℕ
  pub flags : ℕ
  pub key : Bytes
  pub payload : Bytes

-- flags & LSA_ATTR_FLAG_HAS_KEY, & LSA_ATTR_FLAG_DATA_IS_TLV and & LSA_ATTR_FLAG_SIGNED
abbrev pub has_key : ℕ → Bool
has_key flags = flags % 2 == 1

abbrev pub is_tlv : ℕ → Bool
is_tlv flags = flags / 2 % 2 == 1

abbrev pub is_signed : ℕ → Bool
is_signed flags = flags / 4 % 2 == 1

unfoldable pub read_key : ℕ → Src → Read (Bytes × Src)
read_key flags src =
    if has_key flags
    then (do (keylen, src₁) ← read_size src; src_read keylen src₁)
    else got ([], src)

-- The head of the loop body of lsa_deserialise_attr_set.
unfoldable pub read_attr : Src → Read (RawAttr × Src)
unfolding read_key
read_attr src = do
  (type, src₁) ← read_int src
  (flags, src₂) ← read_int src₁
  (key, src₃) ← read_key flags src₂
  (datalen, src₄) ← read_size src₃
  (payload, src₅) ← src_read datalen src₄
  got (record { type = type; flags = flags; key = key; payload = payload }, src₅)

-- What has been built so far, and whether the function goes on or returns -1: the caller frees
-- what has been built.
pub record Built : Type 0 where
  pub lsa : Lsa
  pub set : AttrTree
  pub good : Bool

-- A function that adds the attributes of a message to a set.
abbrev pub Reader : Type 0
Reader = Lsa → AttrTree → Src → Result Built

module _ (p : Platform) where
  -- What an insertion returned: -1 leaves the set as it was.
  unfoldable pub built : Lsa → AttrTree → Result (Lsa × AttrTree) → Result Built
  built lsa set (ok (lsa₁, set₁)) = ok (record { lsa = lsa₁; set = set₁; good = true })
  built lsa set err = ok (record { lsa = lsa; set = set; good = false })
  built lsa set aborted = aborted
  built lsa set fault = fault
  built lsa set stuck = stuck

  -- The nested set, just inserted, is filled by `child`, and stands in `set₁` then.
  unfoldable pub fill : Reader → RawAttr → Lsa → AttrTree → Result (Lsa × AttrTree) → Result Built
  unfolding built put_child
  fill child raw lsa set (ok (lsa₁, set₁)) =
      bind (child lsa₁ empty (record { rest = raw.payload; off = 0 })) (λ b.
        ok (record { lsa = b.lsa; set = put_child raw.type raw.key b.set set₁; good = b.good }))
  fill child raw lsa set r = built lsa set r

  -- The rest of the loop body. `child` is none where maxdepth is 0.
  unfoldable pub place : Option Reader → Lsa → AttrTree → RawAttr → Result Built
  unfolding built fill
  place child lsa set raw =
      if is_tlv raw.flags
      then elim child [
        | none ↦ ok (record { lsa = lsa; set = set; good = false })
        | some reader ↦
            fill reader raw lsa set
              (lsa_attr_set_add_attr_set p lsa set raw.type (is_signed raw.flags) raw.key)
      ]
      else built lsa set
          (lsa_attr_set_add_attr p lsa set raw.type (is_signed raw.flags) raw.key raw.payload)

  unfoldable pub after_read :
      Option Reader
      → (Lsa → AttrTree → Src → Result Built)
      → Lsa
      → AttrTree
      → Read (RawAttr × Src)
      → Result Built
  after_read child continue lsa set (got (raw, src)) =
      bind (place child lsa set raw) (λ b. if b.good then continue b.lsa b.set src else ok b)
  after_read child continue lsa set short_read = ok (record { lsa = lsa; set = set; good = false })
  after_read child continue lsa set error = ok (record { lsa = lsa; set = set; good = false })

  -- The loop of lsa_deserialise_attr_set; the fuel is for the attributes that are still to come.
  unfoldable pub attrs_loop : Option Reader → ℕ → Reader
  unfolding after_read place read_attr
  attrs_loop child zero lsa set src = elim src.rest [
    | [] ↦ ok (record { lsa = lsa; set = set; good = true })
    | b ∷ bs ↦ stuck
  ]
  attrs_loop child (suc fuel) lsa set src = elim src.rest [
    | [] ↦ ok (record { lsa = lsa; set = set; good = true })
    | b ∷ bs ↦ after_read child (attrs_loop child fuel) lsa set (read_attr src)
  ]

  -- lsa_deserialise_attr_set by maxdepth. Every attribute takes a byte at least, so the bytes left
  -- are fuel enough.
  unfoldable pub deserialise_attr_set : ℕ → Reader
  unfolding attrs_loop
  deserialise_attr_set zero lsa set src = attrs_loop none (length src.rest) lsa set src
  deserialise_attr_set (suc maxdepth) lsa set src =
      attrs_loop (some (deserialise_attr_set maxdepth)) (length src.rest) lsa set src

-- What lsa_deserialise answers: it read `len` bytes, which hold an advertisement or none (the
-- message of length 0 that keeps a connection alive), or it wants more bytes (0), or the bytes are
-- no message (-1).
pub data Decoded : Type 0 where
  message : Option Lsa → ℕ → Decoded
  need_more malformed : Decoded

-- SSIZE_MAX
abbrev pub ssize_max : ℕ
ssize_max = 0x7fff_ffff_ffff_ffff

module _ (p : Platform) where
  -- The end of lsa_deserialise: an advertisement that was not read to its end is freed.
  unfoldable pub finish : ℕ → Built → Result Decoded
  unfolding lsa_put
  finish len b =
      let lsa = record b.lsa { root = b.set } in
      if b.good then ok (message (some lsa) len) else bind (lsa_put lsa) (λ l. ok malformed)

  unfoldable pub read_lsa : Bool → ℕ → Read (Bytes × Src) → Result Decoded
  unfolding finish deserialise_attr_set
  read_lsa mem len short_read = ok need_more
  read_lsa mem len error = ok malformed
  read_lsa mem len (got (id, src)) = elim (lsa_alloc mem id) [
    | none ↦ ok malformed
    | some lsa ↦ bind (deserialise_attr_set p 8 lsa lsa.root src) (finish len)
  ]

  -- `n` is the length that the message announces.
  unfoldable pub with_length : Bool → Bytes → ℕ → Src → Result Decoded
  unfolding read_lsa
  with_length mem buf zero src = ok (message none src.off)
  with_length mem buf (suc n) src =
      let len = suc n + src.off in
      if ltb (ssize_max - src.off) (suc n)
      then ok malformed
      else if ltb (length buf) len
      then ok need_more
      else read_lsa mem len
          (src_read node_id_len (record { rest = take (suc n) src.rest; off = src.off }))

  unfoldable pub start : Bool → Bytes → Read (ℕ × Src) → Result Decoded
  unfolding with_length
  start mem buf (got (n, src)) = with_length mem buf n src
  start mem buf short_read = ok need_more
  start mem buf error = ok malformed

  -- The length of the buffer is buflen. After a message that is read to its end src.off is the end
  -- that the message announced.
  unfoldable pub lsa_deserialise : Bool → Bytes → Result Decoded
  unfolding start
  lsa_deserialise mem buf = start mem buf (read_size (record { rest = buf; off = 0 }))
