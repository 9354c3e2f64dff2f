-- ===== src/Serialise/Encoding.antt =====
-- The format of a message, and that the serialiser writes it.
use dvpn.Base.{
  ℕ, ◌+◌, ◌%◌, ◌≡◌, refl, sym, Bool, true, not, ◌&&◌, if◌then◌else◌, [], ◌∷◌, ◌++◌, length,
  length-append, add-zero, ◌-◌, Option, none, some, Result, ok, aborted, ◌>>=◌, arith, Bool-cases,
  inl, inr, ltb,
}
use mathlib.Core.Path.{fun_ext}
use dvpn.Bytes.{Bytes, size_max}
use dvpn.Lsa.Types.{Attr, attr, Data, bytes, attr_set, AttrTree, empty, branch, node_id_len}
use dvpn.Serialise.Dst.{Dst, dst_append, dst_append_int, int_bytes}
use dvpn.Serialise.Append.{appended, take-nil, write_at-nil, dst_append-append, dst_append-appended}
use dvpn.Serialise.Encoder.{
  attr_flags, key_serialise, bytes_serialise, counter, attr_serialise, data_serialise,
  set_serialise, preid_for, lsa_attrs_serialise,
}

abbrev pub key_code : Bytes → Bytes
key_code [] = []
key_code (k ∷ key) = int_bytes (length (k ∷ key)) ++ (k ∷ key)

abbrev pub bytes_code : Option Bytes → Bytes → Bytes
bytes_code (some preid) d = int_bytes ((length d + node_id_len) % (size_max + 1)) ++ (preid ++ d)
bytes_code none d = int_bytes (length d) ++ d

-- An attribute is its type, its flags, its key with the length before it if it has one, and its data
-- with their length before them; a set is its attributes.
unfoldable mutual
  pub attr_code : Bool → Option Bytes → Attr → Bytes
  attr_code signed_only preid (attr type sign key d) =
      if signed_only && not sign
      then []
      else int_bytes type
        ++ (int_bytes (attr_flags (attr type sign key d))
            ++ (key_code key ++ data_code signed_only preid d))

  pub data_code : Bool → Option Bytes → Data → Bytes
  data_code signed_only preid (bytes d) = bytes_code preid d
  data_code signed_only preid (attr_set set) =
      int_bytes (length (set_code signed_only set)) ++ set_code signed_only set

  pub set_code : Bool → AttrTree → Bytes
  set_code signed_only empty = []
  set_code signed_only (branch l a r) =
      set_code signed_only l ++ (attr_code signed_only none a ++ set_code signed_only r)

-- The attributes of an advertisement.
unfoldable pub attrs_code : Bool → Option Bytes → AttrTree → Bytes
attrs_code signed_only preid empty = []
attrs_code signed_only preid (branch l a r) =
    attrs_code signed_only preid l
    ++ (attr_code signed_only (preid_for preid a) a ++ attrs_code signed_only preid r)

appended-nil : (dst : Dst) → appended dst [] ≡ dst
unfolding appended
appended-nil dst = rw (take-nil (dst.dstlen - dst.off), write_at-nil, add-zero) refl

dst_append-nil : (dst : Dst) → dst_append dst [] ≡ ok dst
dst_append-nil dst = rw dst_append-appended (ground (arith, appended-nil dst))

-- What follows an append may be joined to it.
then_append :
    (dst : Dst) (xs ys : Bytes) (f : Dst → Result Dst)
    → ((dst' : Dst) → f dst' ≡ dst_append dst' ys)
    → (dst_append dst xs >>= f) ≡ dst_append dst (xs ++ ys)
then_append dst xs ys f h = rw (fun_ext h) (dst_append-append dst xs ys)

too_long :
    (dst : Dst) (xs ys : Bytes)
    → ltb size_max (length ys) ≡ true
    → dst_append dst (xs ++ ys) ≡ aborted
too_long dst xs ys h = rw dst_append-appended (ground (arith, length-append xs ys))

off-appended-counter : (code : Bytes) → (appended counter code).off ≡ length code
unfolding appended
off-appended-counter code = omega arith

-- A set is written behind its length, which is counted first.
count_then :
    (dst : Dst) (code : Bytes) (k : Dst → Result Dst)
    → ((dst' : Dst) → k dst' ≡ dst_append dst' code)
    → (dst_append counter code >>= λ count. dst_append_int dst count.off >>= k)
      ≡ dst_append dst (int_bytes (length code) ++ code)
unfolding dst_append_int
count_then dst code k h = elim (Bool-cases (ltb size_max (length code))) [
  | inl e ↦ rw (too_long counter [] code e) (sym (too_long dst (int_bytes (length code)) code e))
  | inr e ↦
      let fits : dst_append counter code ≡ ok (appended counter code) =
        rw dst_append-appended (ground arith) in
      rw (fits, off-appended-counter code) (then_append dst (int_bytes (length code)) code k h)
]

key_serialise-key_code :
    (key : Bytes) (dst : Dst) → key_serialise key dst ≡ dst_append dst (key_code key)
unfolding key_serialise dst_append_int
key_serialise-key_code [] dst = sym (dst_append-nil dst)
key_serialise-key_code (k ∷ key) dst =
    dst_append-append dst (int_bytes (length (k ∷ key))) (k ∷ key)

bytes_serialise-bytes_code :
    (preid : Option Bytes) (d : Bytes) (dst : Dst)
    → bytes_serialise preid d dst ≡ dst_append dst (bytes_code preid d)
unfolding bytes_serialise dst_append_int
bytes_serialise-bytes_code (some preid) d dst =
    then_append dst (int_bytes ((length d + node_id_len) % (size_max + 1))) (preid ++ d) _
      (λ dst'. dst_append-append dst' preid d)
bytes_serialise-bytes_code none d dst = dst_append-append dst (int_bytes (length d)) d

attr_steps :
    (type flags : ℕ) (key code : Bytes) (dst : Dst) (k : Dst → Result Dst)
    → ((dst' : Dst) → k dst' ≡ dst_append dst' code)
    → (dst_append_int dst type >>= λ dst₁.
        dst_append_int dst₁ flags >>= λ dst₂. key_serialise key dst₂ >>= k)
      ≡ dst_append dst (int_bytes type ++ (int_bytes flags ++ (key_code key ++ code)))
unfolding dst_append_int
attr_steps type flags key code dst k h = then_append dst (int_bytes type) _ _ (λ dst₁.
    then_append dst₁ (int_bytes flags) _ _
      (λ dst₂. rw key_serialise-key_code (then_append dst₂ (key_code key) code k h)))

mutual
  unfolding attr_serialise attr_code

  pub attr_serialise-attr_code :
      (signed_only : Bool) (preid : Option Bytes) (a : Attr) (dst : Dst)
      → attr_serialise signed_only preid a dst ≡ dst_append dst (attr_code signed_only preid a)
  attr_serialise-attr_code signed_only preid (attr type sign key d) dst =
      elim (Bool-cases (signed_only && not sign)) [
        | inl e ↦ rw e (sym (dst_append-nil dst))
        | inr e ↦ rw e (
            attr_steps type (attr_flags (attr type sign key d)) key (data_code signed_only preid d)
              dst (data_serialise signed_only preid d)
              (λ dst'. data_serialise-data_code signed_only preid d dst'))
      ]

  data_serialise-data_code :
      (signed_only : Bool) (preid : Option Bytes) (d : Data) (dst : Dst)
      → data_serialise signed_only preid d dst ≡ dst_append dst (data_code signed_only preid d)
  data_serialise-data_code signed_only preid (bytes d) dst = bytes_serialise-bytes_code preid d dst
  data_serialise-data_code signed_only preid (attr_set set) dst =
      rw (set_serialise-set_code signed_only set counter) (
        count_then dst (set_code signed_only set) (set_serialise signed_only set)
          (λ dst'. set_serialise-set_code signed_only set dst'))

  set_serialise-set_code :
      (signed_only : Bool) (set : AttrTree) (dst : Dst)
      → set_serialise signed_only set dst ≡ dst_append dst (set_code signed_only set)
  set_serialise-set_code signed_only empty dst = sym (dst_append-nil dst)
  set_serialise-set_code signed_only (branch l a r) dst =
      rw (set_serialise-set_code signed_only l dst) (
        then_append dst (set_code signed_only l) _ _ (λ dst₁.
          rw (attr_serialise-attr_code signed_only none a dst₁) (
            then_append dst₁ (attr_code signed_only none a) _ _
              (λ dst₂. set_serialise-set_code signed_only r dst₂))))

-- On every buffer, the loop over the attributes of an advertisement appends exactly their bytes as
-- Encoding defines them, also where that overflows the buffer or aborts.
pub lsa_attrs_serialise-attrs_code :
    (signed_only : Bool) (preid : Option Bytes) (set : AttrTree) (dst : Dst)
    → lsa_attrs_serialise signed_only preid set dst
      ≡ dst_append dst (attrs_code signed_only preid set)
unfolding lsa_attrs_serialise attrs_code
lsa_attrs_serialise-attrs_code signed_only preid empty dst = sym (dst_append-nil dst)
lsa_attrs_serialise-attrs_code signed_only preid (branch l a r) dst =
    rw (lsa_attrs_serialise-attrs_code signed_only preid l dst) (
      then_append dst (attrs_code signed_only preid l) _ _ (λ dst₁.
        rw (attr_serialise-attr_code signed_only (preid_for preid a) a dst₁) (
          then_append dst₁ (attr_code signed_only (preid_for preid a) a) _ _
            (λ dst₂. lsa_attrs_serialise-attrs_code signed_only preid r dst₂))))
