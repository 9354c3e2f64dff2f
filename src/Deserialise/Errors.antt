-- ===== src/Deserialise/Errors.antt =====
-- What lsa_deserialise answers to bytes that are no whole message, and to messages that end the
-- program.
use dvpn.Base.{
  ℕ, zero, suc, ◌+◌, ◌<◌, ◌^◌, ◌≡◌, refl, ◌⊎◌, inl, inr, Bool, true, ◌++◌, length, length-append,
  length-take, take, ltb, arith, ok,
}
use dvpn.Bytes.{Bytes}
use dvpn.Lsa.Types.{node_id_len}
use dvpn.Lsa.Platform.{Platform}
use dvpn.Serialise.Dst.{int_bytes}
use dvpn.Serialise.Varint.{length-int_bytes}
use dvpn.Deserialise.Src.{Src, src_read}
use dvpn.Deserialise.Varint.{read_size-int_bytes}
use dvpn.Deserialise.Decoder.{need_more, read_lsa, with_length, start, lsa_deserialise}

read_short :
    (p : Platform) (mem : Bool) (len n : ℕ) (src : Src)
    → n < node_id_len
    → read_lsa p mem len (src_read node_id_len (record { rest = take n src.rest; off = src.off }))
      ≡ ok need_more
unfolding read_lsa src_read
read_short p mem len n src h =
    let short : ltb (length (take n src.rest)) node_id_len ≡ true =
      ground (arith, length-take n src.rest) in
    rw short refl

module _ (p : Platform) (mem : Bool) where
  waits :
      (buf : Bytes) (n : ℕ) (src : Src)
      → 0 < n
      → n + src.off < 2 ^ 32
      → (length buf < n + src.off) ⊎ (n < node_id_len)
      → with_length p mem buf n src ≡ ok need_more
  unfolding with_length
  waits buf zero src pos small h = absurd (omega arith)
  waits buf (suc n) src pos small h = ground (arith, read_short p mem (suc n + src.off) (suc n) src)

  -- A buffer whose first number n is not 0 and is less than 2 ^ 31 makes the caller wait for more
  -- bytes if fewer than n bytes follow, and also, whatever follows, if n is less than the length of a
  -- node id.
  pub lsa_deserialise_waits :
      (n : ℕ) (rest : Bytes)
      → 0 < n
      → n < 2 ^ 31
      → (length rest < n) ⊎ (n < node_id_len)
      → lsa_deserialise p mem (int_bytes n ++ rest) ≡ ok need_more
  unfolding lsa_deserialise start
  lsa_deserialise_waits n rest pos small h =
      let ib = int_bytes n in
      rw (read_size-int_bytes n rest 0 (omega arith)) (
        waits (ib ++ rest) n (record { rest = rest; off = 0 + length ib }) pos
          (omega (arith, length-int_bytes n)) (lengths h))
    where
      lengths :
          (length rest < n) ⊎ (n < node_id_len)
          → (length (int_bytes n ++ rest) < n + (0 + length (int_bytes n))) ⊎ (n < node_id_len)
      lengths (inl a) = inl (omega (arith, length-append (int_bytes n) rest))
      lengths (inr b) = inr b
