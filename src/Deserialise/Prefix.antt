-- ===== src/Deserialise/Prefix.antt =====
-- What lsa_deserialise answers to the start of a buffer is what it answers to all of it, unless it
-- waits for more.
use dvpn.Base.{
  ℕ, zero, suc, ◌+◌, ◌-◌, ◌*◌, ◌%◌, ◌≤◌, ◌<◌, ◌≡◌, ◌≢◌, refl, ap, Bool, true, false, [], ◌∷◌, ◌++◌,
  append-nil, length, length-append, take, Option, none, some, Result, ok, aborted, fault, stuck,
  err, arith, Bool-cases, inl, inr, ltb, ◌==◌,
}
use dvpn.Base.{◌>>=◌ as bind}
use dvpn.Bytes.{Bytes, size_max}
use dvpn.Lsa.Types.{Lsa, node_id_len}
use dvpn.Lsa.Platform.{Platform}
use dvpn.Lsa.Build.{lsa_alloc, lsa_put}
use dvpn.Deserialise.Src.{
  Src, Read, got, short_read, error, src_read, read_groups, read_first, read_size,
}
use dvpn.Deserialise.Leaves.{Leaves, read_size-Leaves}
use dvpn.Deserialise.Decoder.{
  Built, Decoded, message, need_more, malformed, ssize_max, finish, read_lsa, with_length, start,
  deserialise_attr_set, lsa_deserialise,
}

module _ (more : Bytes) where
  abbrev extend : Src → Src
  extend src = record { rest = src.rest ++ more; off = src.off }

  -- A number that is read of a prefix, with the bytes taken and left.
  abbrev Extends : ℕ → Read (ℕ × Src) → Read (ℕ × Src) → Type 0
  Extends total (got (n, src)) r = (r ≡ got (n, extend src)) × (src.off + length src.rest ≡ total)
  Extends total short_read r = Unit
  Extends total error r = r ≡ error

  groups_done :
      (cnt v val : ℕ) (bs : Bytes) (off : ℕ)
      → ltb val 128 ≡ true
      → read_groups cnt v val bs off ≡ got (v, record { rest = bs; off = off })
  unfolding read_groups
  groups_done cnt v val [] off e = rw e refl
  groups_done cnt v val (b ∷ bs) off e = rw e refl

  groups_error :
      (cnt v val : ℕ) (bs : Bytes) (off : ℕ)
      → ltb val 128 ≡ false
      → (cnt + 1 == 10) ≡ true
      → read_groups cnt v val bs off ≡ error
  unfolding read_groups
  groups_error cnt v val [] off e f = rw (e, f) refl
  groups_error cnt v val (b ∷ bs) off e f = rw (e, f) refl

  read_groups-Extends :
      (cnt v val : ℕ) (bs : Bytes) (off total : ℕ)
      → off + length bs ≡ total
      → Extends total (read_groups cnt v val bs off) (read_groups cnt v val (bs ++ more) off)
  unfolding read_groups
  read_groups-Extends cnt v val [] off total t = elim (Bool-cases (ltb val 128)) [
    | inl e ↦
        rw (groups_done cnt v val [] off e, groups_done cnt v val ([] ++ more) off e) (refl, t)
    | inr e ↦ elim (Bool-cases (cnt + 1 == 10)) [
      | inl f ↦
          rw (groups_error cnt v val [] off e f, groups_error cnt v val ([] ++ more) off e f) refl
      | inr f ↦ rw (e, f) tt
    ]
  ]
  read_groups-Extends cnt v val (b ∷ bs) off total t = elim (Bool-cases (ltb val 128)) [
    | inl e ↦
        rw (groups_done cnt v val (b ∷ bs) off e, groups_done cnt v val ((b ∷ bs) ++ more) off e)
          (refl, t)
    | inr e ↦ elim (Bool-cases (cnt + 1 == 10)) [
      | inl f ↦
          rw
            (
              groups_error cnt v val (b ∷ bs) off e f,
              groups_error cnt v val ((b ∷ bs) ++ more) off e f,
            )
            refl
      | inr f ↦
          rw (e, f)
            (read_groups-Extends (cnt + 1) (v * 128 % (size_max + 1) + b % 128) b bs (off + 1) total
              (omega arith))
    ]
  ]

  read_size-Extends :
      (buf : Bytes)
      → Extends
          (length buf)
          (read_size (record { rest = buf; off = 0 }))
          (read_size (record { rest = buf ++ more; off = 0 }))
  unfolding read_size read_first
  read_size-Extends [] = tt
  read_size-Extends (b ∷ bs) = elim (Bool-cases (b == 0x80)) [
    | inl e ↦ rw e refl
    | inr e ↦ rw e (read_groups-Extends 0 (b % 128) b bs 1 (suc (length bs)) (omega arith))
  ]

  take_prefix : (n : ℕ) (a : Bytes) → n ≤ length a → take n (a ++ more) ≡ take n a
  take_prefix zero a h = refl
  take_prefix (suc n) [] h = absurd (omega arith)
  take_prefix (suc n) (x ∷ a) h = ap (λ l. x ∷ l) (take_prefix n a (omega arith))

  module _ (p : Platform) (mem : Bool) where
    with_length-append :
        (buf : Bytes) (n : ℕ) (src : Src)
        → src.off + length src.rest ≡ length buf
        → with_length p mem buf n src ≢ ok need_more
        → with_length p mem (buf ++ more) n (extend src) ≡ with_length p mem buf n src
    unfolding with_length
    with_length-append buf zero src t h = refl
    with_length-append buf (suc n) src t h = elim (Bool-cases (ltb (ssize_max - src.off) (suc n))) [
      | inl e ↦ rw e refl
      | inr e ↦ elim (Bool-cases (ltb (length buf) (suc n + src.off))) [
        | inl f ↦ absurd (h (rw (e, f) refl))
        | inr f ↦
            let f' : ltb (length (buf ++ more)) (suc n + src.off) ≡ false =
              ground (arith, length-append buf more) in
            rw (e, f, f', take_prefix (suc n) src.rest (ground arith)) refl
      ]
    ]

    start-append :
        (buf : Bytes) (r r' : Read (ℕ × Src))
        → Extends (length buf) r r'
        → start p mem buf r ≢ ok need_more
        → start p mem (buf ++ more) r' ≡ start p mem buf r
    unfolding start
    start-append buf (got (n, src)) r' (e, t) h = rw e (with_length-append buf n src t h)
    start-append buf short_read r' e h = absurd (h refl)
    start-append buf error r' e h = rw e refl

    -- What lsa_deserialise answers to a buffer, other than that it waits for more, it answers too when
    -- more bytes stand behind.
    pub lsa_deserialise-append :
        (buf : Bytes)
        → lsa_deserialise p mem buf ≢ ok need_more
        → lsa_deserialise p mem (buf ++ more) ≡ lsa_deserialise p mem buf
    unfolding lsa_deserialise
    lsa_deserialise-append buf h =
        start-append buf (read_size (record { rest = buf; off = 0 })) _ (read_size-Extends buf) h

module _ (p : Platform) (mem : Bool) where
  -- The bytes of a message: one at least, and all of them in the buffer.
  abbrev pub InBuffer : ℕ → Result Decoded → Type 0
  InBuffer n (ok (message m len)) = (0 < len) × (len ≤ n)
  InBuffer n _ = Unit

  finish-InBuffer : (n len : ℕ) (b : Built) → 0 < len → len ≤ n → InBuffer n (finish p len b)
  unfolding finish
  finish-InBuffer n len b pos h = elim (Bool-cases b.good) [
    | inl e ↦ rw e (pos, h)
    | inr e ↦ rw e (by_put (lsa_put (record b.lsa { root = b.set })))
  ]
    where
      by_put : (r : Result (Option Lsa)) → InBuffer n (bind r (λ l. ok malformed))
      by_put (ok l) = tt
      by_put err = tt
      by_put aborted = tt
      by_put fault = tt
      by_put stuck = tt

  by_built : (n len : ℕ) (r : Result Built) → 0 < len → len ≤ n → InBuffer n (bind r (finish p len))
  by_built n len (ok b) pos h = finish-InBuffer n len b pos h
  by_built n len err pos h = tt
  by_built n len aborted pos h = tt
  by_built n len fault pos h = tt
  by_built n len stuck pos h = tt

  read_lsa-InBuffer :
      (n len : ℕ) (r : Read (Bytes × Src)) → 0 < len → len ≤ n → InBuffer n (read_lsa p mem len r)
  unfolding read_lsa
  read_lsa-InBuffer n len short_read pos h = tt
  read_lsa-InBuffer n len error pos h = tt
  read_lsa-InBuffer n len (got (id, src)) pos h = by_alloc (lsa_alloc mem id)
    where
      by_alloc :
          (a : Option Lsa)
          → InBuffer n (elim a [
            | none ↦ ok malformed
            | some lsa ↦ bind (deserialise_attr_set p 8 lsa lsa.root src) (finish p len)
          ])
      by_alloc none = tt
      by_alloc (some lsa) = by_built n len (deserialise_attr_set p 8 lsa lsa.root src) pos h

  with_length-InBuffer :
      (buf : Bytes) (n : ℕ) (src : Src)
      → 0 < src.off
      → src.off + length src.rest ≡ length buf
      → InBuffer (length buf) (with_length p mem buf n src)
  unfolding with_length
  with_length-InBuffer buf zero src pos t = (pos, omega arith)
  with_length-InBuffer buf (suc n) src pos t =
      elim (Bool-cases (ltb (ssize_max - src.off) (suc n))) [
        | inl e ↦ rw e tt
        | inr e ↦ elim (Bool-cases (ltb (length buf) (suc n + src.off))) [
          | inl f ↦ rw (e, f) tt
          | inr f ↦
              rw (e, f)
                (read_lsa-InBuffer (length buf) (suc n + src.off) (src_read node_id_len _)
                  (omega arith) (ground arith))
        ]
      ]

  start-InBuffer :
      (b : ℕ) (buf : Bytes) (r : Read (ℕ × Src))
      → Leaves (length buf) r
      → Extends [] (length (b ∷ buf)) r r
      → InBuffer (length (b ∷ buf)) (start p mem (b ∷ buf) r)
  unfolding start
  start-InBuffer b buf (got (n, src)) h (e, t) =
      with_length-InBuffer (b ∷ buf) n src (omega arith) t
  start-InBuffer b buf short_read h e = tt
  start-InBuffer b buf error h e = tt

  -- A message that lsa_deserialise finds is in the buffer, and not empty.
  pub lsa_deserialise-InBuffer : (buf : Bytes) → InBuffer (length buf) (lsa_deserialise p mem buf)
  unfolding lsa_deserialise read_size read_first
  lsa_deserialise-InBuffer [] = unfold start in tt
  lsa_deserialise-InBuffer (b ∷ buf) =
      start-InBuffer b buf (read_size (record { rest = b ∷ buf; off = 0 }))
        (read_size-Leaves (record { rest = b ∷ buf; off = 0 }) (length buf) (omega arith))
        (rw (append-nil buf) at (read_size-Extends [] (b ∷ buf)))
