-- ===== src/Serialise/Dst.antt =====
-- struct dst of lsa_serialise.c, a bounded output buffer that counts on when it is full.
use dvpn.Base.{
  ℕ, zero, suc, ◌+◌, ◌-◌, ◌/◌, ◌%◌, ◌^◌, ltb, ◌==◌, if◌then◌else◌, [], ◌∷◌, length, take, Result,
  ok, aborted,
}
use dvpn.Bytes.{Bytes, size_max}

-- `buf` is the memory of dstlen bytes that the dst pointer leads to.
pub record Dst : Type 0 where
  pub buf : Bytes
  pub dstlen : ℕ
  pub off : ℕ

-- The buffer after memcpy(buf + off, src, length of src).
unfoldable pub write_at : ℕ → Bytes → Bytes → Bytes
write_at n src [] = []
write_at zero [] (b ∷ buf) = b ∷ buf
write_at zero (s ∷ src) (b ∷ buf) = s ∷ write_at zero src buf
write_at (suc n) src (b ∷ buf) = b ∷ write_at n src buf

unfoldable pub dst_append : Dst → Bytes → Result Dst
unfolding write_at
dst_append dst src =
    let off = dst.off in
    if ltb (size_max - off) (length src)
    then aborted
    else if ltb off dst.dstlen
    then (let space = dst.dstlen - off in
        let space' = if ltb (length src) space then length src else space in
        ok (record dst { buf = write_at off (take space' src) dst.buf; off = off + length src }))
    else ok (record dst { off = off + length src })

-- The array val of dst_append_int, in arithmetic: `>>` is a division, `&` with a mask of ones is a
-- remainder, and `0x80 |` over seven bits is a sum.
unfoldable pub seven_bit_groups : ℕ → Bytes
seven_bit_groups value =
    (128 + value / 2 ^ 63 % 2)
    ∷ (128 + value / 2 ^ 56 % 128)
    ∷ (128 + value / 2 ^ 49 % 128)
    ∷ (128 + value / 2 ^ 42 % 128)
    ∷ (128 + value / 2 ^ 35 % 128)
    ∷ (128 + value / 2 ^ 28 % 128)
    ∷ (128 + value / 2 ^ 21 % 128)
    ∷ (128 + value / 2 ^ 14 % 128)
    ∷ (128 + value / 2 ^ 7 % 128)
    ∷ (value % 128)
    ∷ []

-- while (val[i] == 0x80) i++; the last byte is below 0x80.
unfoldable pub skip_empty : Bytes → Bytes
skip_empty [] = []
skip_empty (b ∷ bs) = if b == 0x80 then skip_empty bs else b ∷ bs

-- What dst_append_int appends.
unfoldable pub int_bytes : ℕ → Bytes
int_bytes value = skip_empty (seven_bit_groups value)

unfoldable pub dst_append_int : Dst → ℕ → Result Dst
dst_append_int dst value = dst_append dst (int_bytes value)
