-- ===== src/Deserialise/ReadAttr.antt =====
-- The reads of one attribute, on what the serialiser wrote for it.
use dvpn.Base.{
  ℕ, ◌+◌, ◌≤◌, ◌<◌, ◌^◌, ◌≡◌, refl, ap, Bool, false, [], ◌∷◌, ◌++◌, append_assoc, length,
  length-append, take, drop, arith, none, ltb, ◌==◌,
}
use dvpn.Bytes.{Bytes, int_max}
use dvpn.Lsa.Types.{Attr, attr, Data, bytes, attr_set, is_attr_set}
use dvpn.Serialise.Dst.{int_bytes}
use dvpn.Serialise.Encoder.{attr_flags, key_flag}
use dvpn.Serialise.Encoding.{key_code, attr_code, data_code, set_code}
use dvpn.Deserialise.Src.{got, src_read}
use dvpn.Deserialise.Varint.{read_size-int_bytes, read_int-int_bytes}
use dvpn.Deserialise.Decoder.{RawAttr, has_key, is_tlv, is_signed, read_key, read_attr}

abbrev pub payload_of : Data → Bytes
payload_of (bytes d) = d
payload_of (attr_set set) = set_code false set

abbrev pub raw_of : Attr → RawAttr
raw_of (attr type sign key d) = record {
  type = type;
  flags = attr_flags (attr type sign key d);
  key = key;
  payload = payload_of d;
}

pub take_front : (xs rest : Bytes) → take (length xs) (xs ++ rest) ≡ xs
take_front [] rest = refl
take_front (x ∷ xs) rest = ap (λ l. x ∷ l) (take_front xs rest)

drop_front : (xs rest : Bytes) → drop (length xs) (xs ++ rest) ≡ rest
drop_front [] rest = refl
drop_front (x ∷ xs) rest = drop_front xs rest

pub src_read_front :
    (xs rest : Bytes) (off : ℕ)
    → src_read (length xs) (record { rest = xs ++ rest; off = off })
      ≡ got (xs, record { rest = rest; off = off + length xs })
unfolding src_read
src_read_front xs rest off =
    let enough : ltb (length (xs ++ rest)) (length xs) ≡ false =
      ground (arith, length-append xs rest) in
    rw (enough, take_front, drop_front) refl

pub has_key-attr_flags :
    (type : ℕ) (sign : Bool) (key : Bytes) (d : Data)
    → has_key (attr_flags (attr type sign key d)) ≡ (key_flag key == 1)
has_key-attr_flags type sign [] d = ground arith
has_key-attr_flags type sign (k ∷ key) d = ground arith

pub is_tlv-attr_flags :
    (type : ℕ) (sign : Bool) (key : Bytes) (d : Data)
    → is_tlv (attr_flags (attr type sign key d)) ≡ is_attr_set d
is_tlv-attr_flags type sign [] d = ground arith
is_tlv-attr_flags type sign (k ∷ key) d = ground arith

pub is_signed-attr_flags :
    (type : ℕ) (sign : Bool) (key : Bytes) (d : Data)
    → is_signed (attr_flags (attr type sign key d)) ≡ sign
is_signed-attr_flags type sign [] d = ground arith
is_signed-attr_flags type sign (k ∷ key) d = ground arith

attr_flags-le :
    (type : ℕ) (sign : Bool) (key : Bytes) (d : Data) → attr_flags (attr type sign key d) ≤ 7
attr_flags-le type sign [] d = ground arith
attr_flags-le type sign (k ∷ key) d = ground arith

data_code-payload :
    (d : Data) → data_code false none d ≡ int_bytes (length (payload_of d)) ++ payload_of d
unfolding data_code
data_code-payload (bytes d) = refl
data_code-payload (attr_set set) = refl

read_key-key_code :
    (flags : ℕ) (key rest : Bytes) (off : ℕ)
    → has_key flags ≡ (key_flag key == 1)
    → length key < 2 ^ 64
    → (off' : ℕ) × (read_key flags (record { rest = key_code key ++ rest; off = off })
        ≡ got (key, record { rest = rest; off = off' }))
unfolding read_key
read_key-key_code flags [] rest off e h = (off, rw e refl)
read_key-key_code flags (k ∷ key) rest off e h =
    let n = int_bytes (length (k ∷ key)) in
    (
      off + length n + length (k ∷ key),
      rw (e, append_assoc)
          (rw (read_size-int_bytes (length (k ∷ key)) ((k ∷ key) ++ rest) off h)
            (src_read_front (k ∷ key) rest (off + length n))),
    )

-- One attribute is read back as it was written, and what follows it is left.
pub read_attr-attr_code :
    (type : ℕ) (sign : Bool) (key : Bytes) (d : Data) (rest : Bytes) (off : ℕ)
    → type ≤ int_max
    → length key < 2 ^ 64
    → length (payload_of d) < 2 ^ 64
    → (off' : ℕ) × (read_attr
          (record { rest = attr_code false none (attr type sign key d) ++ rest; off = off })
        ≡ got (raw_of (attr type sign key d), record { rest = rest; off = off' }))
unfolding read_attr attr_code
read_attr-attr_code type sign key d rest off ht hk hd =
    let flags = attr_flags (attr type sign key d) in
    let t = int_bytes type in
    let f = int_bytes flags in
    let n = int_bytes (length (payload_of d)) in
    let o₂ = off + length t + length f in
    let (o₃, at_key) =
      read_key-key_code flags key (n ++ (payload_of d ++ rest)) o₂
        (has_key-attr_flags type sign key d) hk in
    (
      o₃ + length n + length (payload_of d),
      rw (data_code-payload d, append_assoc t _ rest, append_assoc f _ rest)
          (rw (append_assoc (key_code key) _ rest, append_assoc n _ rest)
            (rw
              (read_int-int_bytes type (f ++ (key_code key ++ (n ++ (payload_of d ++ rest)))) off
                ht)
              (rw
                (read_int-int_bytes flags (key_code key ++ (n ++ (payload_of d ++ rest)))
                  (off + length t) (omega (arith, attr_flags-le type sign key d)))
                (rw at_key (
                  rw (read_size-int_bytes (length (payload_of d)) (payload_of d ++ rest) o₃ hd)
                    (rw (src_read_front (payload_of d) rest (o₃ + length n)) refl)))))),
    )
