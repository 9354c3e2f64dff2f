-- ===== src/Serialise/Encoder.antt =====
-- The serialiser of lsa_serialise.c: attributes, sets and whole advertisements.
use dvpn.Base.{
  ℕ, ◌+◌, ◌%◌, ◌==◌, Bool, false, not, ◌&&◌, if◌then◌else◌, [], ◌∷◌, length, Option, none, some,
  Result, ok, aborted, ◌>>=◌,
}
use dvpn.Bytes.{Bytes, size_max}
use dvpn.Lsa.Types.{
  Attr, attr, attr_type, Data, bytes, attr_set, AttrTree, empty, branch, is_attr_set, Lsa,
  node_id_len, attr_type_adv_path,
}
use dvpn.Serialise.Dst.{Dst, dst_append, dst_append_int}

-- LSA_ATTR_FLAG_HAS_KEY, LSA_ATTR_FLAG_DATA_IS_TLV and LSA_ATTR_FLAG_SIGNED are three bits, so that
-- `|=` of them is their sum.
abbrev pub key_flag : Bytes → ℕ
key_flag [] = 0
key_flag (k ∷ key) = 1

abbrev pub attr_flags : Attr → ℕ
attr_flags (attr type sign key d) =
    key_flag key + (if is_attr_set d then 2 else 0) + (if sign then 4 else 0)

-- if (attr->keylen) { ... }
unfoldable pub key_serialise : Bytes → Dst → Result Dst
key_serialise [] dst = ok dst
key_serialise (k ∷ key) dst = do
  dst₁ ← dst_append_int dst (length (k ∷ key))
  dst_append dst₁ (k ∷ key)

-- The data that are bytes, behind the node id that is to come first in a path.
unfoldable pub bytes_serialise : Option Bytes → Bytes → Dst → Result Dst
bytes_serialise (some preid) d dst = do
  dst₁ ← dst_append_int dst ((length d + node_id_len) % (size_max + 1))
  dst₂ ← dst_append dst₁ preid
  dst_append dst₂ d
bytes_serialise none d dst = do dst₁ ← dst_append_int dst (length d); dst_append dst₁ d

-- A buffer of no bytes, which counts what would be written.
abbrev pub counter : Dst
counter = record { buf = []; dstlen = 0; off = 0 }

-- __lsa_attr_serialise, and its loop over a nested set, whose attributes get no preid. That the
-- length of the set is counted by lsa_attrs_serialise with no preid comes to the same loop.
unfoldable mutual
  unfolding key_serialise bytes_serialise

  pub attr_serialise : Bool → Option Bytes → Attr → Dst → Result Dst
  attr_serialise signed_only preid (attr type sign key d) dst =
      if signed_only && not sign then ok dst else do
        dst₁ ← dst_append_int dst type
        dst₂ ← dst_append_int dst₁ (attr_flags (attr type sign key d))
        dst₃ ← key_serialise key dst₂
        data_serialise signed_only preid d dst₃

  pub data_serialise : Bool → Option Bytes → Data → Dst → Result Dst
  data_serialise signed_only preid (bytes d) dst = bytes_serialise preid d dst
  data_serialise signed_only preid (attr_set set) dst = do
    count ← set_serialise signed_only set counter
    dst₁ ← dst_append_int dst count.off
    set_serialise signed_only set dst₁

  pub set_serialise : Bool → AttrTree → Dst → Result Dst
  set_serialise signed_only empty dst = ok dst
  set_serialise signed_only (branch l a r) dst = do
    dst₁ ← set_serialise signed_only l dst
    dst₂ ← attr_serialise signed_only none a dst₁
    set_serialise signed_only r dst₂

-- lsa_attrs_serialise: only an advertised path gets the preid.
abbrev pub preid_for : Option Bytes → Attr → Option Bytes
preid_for preid a = if attr_type a == attr_type_adv_path then preid else none

unfoldable pub lsa_attrs_serialise : Bool → Option Bytes → AttrTree → Dst → Result Dst
lsa_attrs_serialise signed_only preid empty dst = ok dst
lsa_attrs_serialise signed_only preid (branch l a r) dst = do
  dst₁ ← lsa_attrs_serialise signed_only preid l dst
  dst₂ ← attr_serialise signed_only (preid_for preid a) a dst₁
  lsa_attrs_serialise signed_only preid r dst₂

unfoldable pub lsa_attr_set_serialise_length : AttrTree → Bool → Option Bytes → Result ℕ
lsa_attr_set_serialise_length set signed_only preid = do
  count ← lsa_attrs_serialise signed_only preid set counter
  ok count.off

unfoldable pub lsa_serialise_length : Lsa → Bool → Option Bytes → Result ℕ
lsa_serialise_length lsa signed_only preid = do
  n ← lsa_attr_set_serialise_length lsa.root signed_only preid
  ok ((node_id_len + n) % (size_max + 1))

-- The buffer is returned beside the number of bytes of the message.
unfoldable pub lsa_serialise : Bytes → ℕ → ℕ → Lsa → Bool → Option Bytes → Result (Bytes × ℕ)
lsa_serialise buf buflen serlen lsa signed_only preid = do
  dst₁ ← dst_append_int (record { buf = buf; dstlen = buflen; off = 0 }) serlen
  dst₂ ← dst_append dst₁ lsa.id
  dst₃ ← lsa_attrs_serialise signed_only preid lsa.root dst₂
  if (serlen + dst₁.off) % (size_max + 1) == dst₃.off then ok (dst₃.buf, dst₃.off) else aborted

-- With no buffer this is lsa_attr_serialise_length.
unfoldable pub lsa_attr_serialise : Bytes → ℕ → Attr → Result (Bytes × ℕ)
lsa_attr_serialise buf buflen a = do
  dst ← attr_serialise false none a (record { buf = buf; dstlen = buflen; off = 0 })
  ok (dst.buf, dst.off)

unfoldable pub lsa_attr_serialise_length : Attr → Result ℕ
lsa_attr_serialise_length a = do (buf, off) ← lsa_attr_serialise [] 0 a; ok off
