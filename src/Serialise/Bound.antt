-- ===== src/Serialise/Bound.antt =====
-- The size that an advertisement counts bounds its message.
use dvpn.Base.{
  ok, ℕ, ◌+◌, ◌≤◌, ◌≡◌, refl, Bool, not, ◌&&◌, [], ◌∷◌, ◌++◌, length, length-append, none, arith,
  Bool-cases, inl, inr,
}
use dvpn.Bytes.{Bytes, size_max}
use dvpn.Lsa.Types.{Attr, attr, Data, bytes, attr_set, AttrTree, empty, branch, Lsa, node_id_len}
use dvpn.Lsa.Totals.{
  IsCounted, key_total, own_data, own_total, tree_total, attr_total, nested_total,
}
use dvpn.Serialise.Dst.{int_bytes}
use dvpn.Serialise.Varint.{length-int_bytes}
use dvpn.Serialise.Encoder.{lsa_serialise_length, attr_flags, preid_for}
use dvpn.Serialise.Encoding.{key_code, attr_code, data_code, set_code, attrs_code}
use dvpn.Serialise.Message.{lsa_serialise_length-body, message, body}

abbrev code_size : Bytes → Bytes → Bytes → Bytes → ℕ
code_size type flags key d = length type + (length flags + (length key + length d))

length-code :
    (type flags key d : Bytes) → length (type ++ (flags ++ (key ++ d))) ≡ code_size type flags key d
length-code type flags key d = omega (
  arith,
  length-append type (flags ++ (key ++ d)),
  length-append flags (key ++ d),
  length-append key d,
)

key_code-le : (key : Bytes) → length (key_code key) ≤ key_total key
key_code-le [] = omega arith
key_code-le (k ∷ key) =
    let n = length (k ∷ key) in
    omega (arith, length-int_bytes n, length-append (int_bytes n) (k ∷ key))

mutual
  unfolding attr_code own_total tree_total

  attr_code-le :
      (signed_only : Bool) (a : Attr) → length (attr_code signed_only none a) ≤ attr_total a
  attr_code-le signed_only (attr type sign key d) = elim (Bool-cases (signed_only && not sign)) [
    | inl e ↦ rw e (omega arith)
    | inr e ↦ rw e (
        rw (length-code _ _ (key_code key) _) (
          omega (
            arith,
            length-int_bytes type,
            length-int_bytes (attr_flags (attr type sign key d)),
            key_code-le key,
            data_code-le signed_only d,
          )))
  ]

  data_code-le :
      (signed_only : Bool) (d : Data)
      → length (data_code signed_only none d) ≤ 10 + own_data d + nested_total d
  data_code-le signed_only (bytes d) =
      omega (arith, length-int_bytes (length d), length-append (int_bytes (length d)) d)
  data_code-le signed_only (attr_set set) =
      let code = set_code signed_only set in
      omega (
        arith,
        length-int_bytes (length code),
        length-append (int_bytes (length code)) code,
        set_code-le signed_only set,
      )

  pub set_code-le :
      (signed_only : Bool) (set : AttrTree) → length (set_code signed_only set) ≤ tree_total set
  set_code-le signed_only empty = omega arith
  set_code-le signed_only (branch l a r) = omega (
    arith,
    length-append (set_code signed_only l) (attr_code signed_only none a ++ set_code signed_only r),
    length-append (attr_code signed_only none a) (set_code signed_only r),
    set_code-le signed_only l,
    attr_code-le signed_only a,
    set_code-le signed_only r,
  )

preid_for-none : (a : Attr) → preid_for none a ≡ none
preid_for-none a = ground arith

pub attrs_code-set_code :
    (signed_only : Bool) (set : AttrTree)
    → attrs_code signed_only none set ≡ set_code signed_only set
unfolding attrs_code set_code
attrs_code-set_code signed_only empty = refl
attrs_code-set_code signed_only (branch l a r) =
    rw (attrs_code-set_code signed_only l, attrs_code-set_code signed_only r, preid_for-none a) refl

-- The message of an advertisement that counts its attributes is no longer than its count, be it the
-- whole advertisement or its signed part.
pub message-le-size :
    (lsa : Lsa) (signed_only : Bool)
    → IsCounted lsa
    → length lsa.id ≡ node_id_len
    → length (message lsa signed_only none) ≤ lsa.size
message-le-size lsa signed_only counted id =
    let code = attrs_code signed_only none lsa.root in
    let n = length (body lsa signed_only none) in
    let le : length code ≤ tree_total lsa.root =
      rw (attrs_code-set_code signed_only lsa.root) (set_code-le signed_only lsa.root) in
    omega (
      arith,
      length-int_bytes n,
      length-append lsa.id code,
      length-append (int_bytes n) (body lsa signed_only none),
    )

-- For an advertisement that counts its attributes and has a 32 byte id, lsa_serialise_length returns,
-- and what it announces, with the bytes of the announcement itself, is no more than the count, be it
-- for the whole advertisement or for its signed part.
pub serialise_length-le :
    (lsa : Lsa) (signed_only : Bool)
    → IsCounted lsa
    → length lsa.id ≡ node_id_len
    → lsa.size ≤ size_max
    → (n : ℕ) × (lsa_serialise_length lsa signed_only none ≡ ok n)
      × (length (int_bytes n) + n ≤ lsa.size)
serialise_length-le lsa signed_only counted id small =
    let n = length (body lsa signed_only none) in
    let le = message-le-size lsa signed_only counted id in
    let l = length-append (int_bytes n) (body lsa signed_only none) in
    (n, lsa_serialise_length-body lsa signed_only none id (omega arith), omega arith)
