-- ===== src/Serialise/Message.antt =====
-- Whole messages: lsa_serialise_length announces, and lsa_serialise writes, exactly the message.
use dvpn.Base.{
  ℕ, ◌+◌, ◌-◌, ◌%◌, ◌≤◌, ◌≡◌, refl, ap, ◌∙◌, Bool, [], ◌∷◌, ◌++◌, length, length-append, Option,
  Result, ok, arith, drop, ◌==◌, append_assoc, if◌then◌else◌, aborted,
}
use dvpn.Bytes.{Bytes, size_max}
use dvpn.Lsa.Types.{Lsa, node_id_len}
use dvpn.Serialise.Dst.{Dst, write_at, dst_append, dst_append_int, int_bytes}
use dvpn.Serialise.Append.{
  appended, off-appended, appended-appended, take-full, dst_append-appended,
}
use dvpn.Serialise.Encoder.{
  counter, lsa_attr_set_serialise_length, lsa_serialise_length, lsa_serialise,
}
use dvpn.Serialise.Encoding.{attrs_code, lsa_attrs_serialise-attrs_code}

-- What the announced length counts.
abbrev pub body : Lsa → Bool → Option Bytes → Bytes
body lsa signed_only preid = lsa.id ++ attrs_code signed_only preid lsa.root

abbrev pub message : Lsa → Bool → Option Bytes → Bytes
message lsa signed_only preid =
    int_bytes (length (body lsa signed_only preid)) ++ body lsa signed_only preid

write_at_front :
    (src buf : Bytes) → length src ≤ length buf → write_at 0 src buf ≡ src ++ drop (length src) buf
unfolding write_at
write_at_front [] [] h = refl
write_at_front [] (b ∷ buf) h = refl
write_at_front (s ∷ src) [] h = absurd (omega arith)
write_at_front (s ∷ src) (b ∷ buf) h = ap (λ l. s ∷ l) (write_at_front src buf (omega arith))

pub fits :
    (dst : Dst) (src : Bytes)
    → dst.off + length src ≤ size_max
    → dst_append dst src ≡ ok (appended dst src)
fits dst src h = rw dst_append-appended (ground arith)

-- An append to an empty buffer that has room.
pub appended_front :
    (src buf : Bytes)
    → length src ≤ length buf
    → (appended (record { buf = buf; dstlen = length buf; off = 0 }) src).buf
      ≡ src ++ drop (length src) buf
unfolding appended
appended_front src buf h =
    let z : length buf - 0 ≡ length buf = omega arith in
    rw (z, take-full (length buf) src h) (write_at_front src buf h)

-- The last test of lsa_serialise passes if the count is that of the message.
length_agrees :
    (n off₁ : ℕ) (dst : Dst) {code : Bytes} {m : ℕ}
    → n + off₁ ≡ m
    → dst.off ≡ m
    → m ≤ size_max
    → dst.buf ≡ code
    → if◌then◌else◌ {A = Result (Bytes × ℕ)}
        ((n + off₁) % (size_max + 1) == dst.off)
        (ok (dst.buf, dst.off))
        aborted
      ≡ ok (code, m)
length_agrees n off₁ dst e f h b = ground arith

module _ (lsa : Lsa) (signed_only : Bool) (preid : Option Bytes) where
  -- The length that is announced is that of the id and the attributes, if the id has 32 bytes and the
  -- length fits a size_t.
  pub lsa_serialise_length-body :
      length lsa.id ≡ node_id_len
      → length (body lsa signed_only preid) ≤ size_max
      → lsa_serialise_length lsa signed_only preid ≡ ok (length (body lsa signed_only preid))
  unfolding lsa_serialise_length lsa_attr_set_serialise_length
  lsa_serialise_length-body id h =
      let code = attrs_code signed_only preid lsa.root in
      let n : length (lsa.id ++ code) ≡ length lsa.id + length code = length-append lsa.id code in
      rw (lsa_attrs_serialise-attrs_code signed_only preid lsa.root counter) (
        rw (fits counter code (omega arith)) (rw (off-appended counter code) (ap ok (omega arith))))

  -- Into a buffer with room for it, lsa_serialise writes exactly the message, signed part or whole, with
  -- or without a preid, leaves the bytes behind it as they were, and returns its length.
  pub lsa_serialise-message :
      (buf : Bytes)
      → length buf ≤ size_max
      → length (message lsa signed_only preid) ≤ length buf
      → lsa_serialise buf (length buf) (length (body lsa signed_only preid)) lsa signed_only preid
        ≡ ok (
          message lsa signed_only preid ++ drop (length (message lsa signed_only preid)) buf,
          length (message lsa signed_only preid),
        )
  unfolding lsa_serialise dst_append_int
  lsa_serialise-message buf small h =
      let code = attrs_code signed_only preid lsa.root in
      let d₀ : Dst = record { buf = buf; dstlen = length buf; off = 0 } in
      let n = length (body lsa signed_only preid) in
      let d₁ = appended d₀ (int_bytes n) in
      let d₂ = appended d₁ lsa.id in
      let o₁ = off-appended d₀ (int_bytes n) in
      let o₂ = off-appended d₁ lsa.id in
      let o₃ = off-appended d₂ code in
      let m = message lsa signed_only preid in
      let whole : appended d₂ code ≡ appended d₀ m =
        ap (λ d. appended d code) (appended-appended d₀ (int_bytes n) lsa.id)
        ∙ appended-appended d₀ (int_bytes n ++ lsa.id) code
        ∙ ap (appended d₀) (append_assoc (int_bytes n) lsa.id code) in
      let l₁ : length m ≡ length (int_bytes n) + n = length-append (int_bytes n) _ in
      let l₂ : n ≡ length lsa.id + length code = length-append lsa.id code in
      rw (fits d₀ (int_bytes n) (omega arith)) (
        rw (fits d₁ lsa.id (omega arith)) (
          rw (lsa_attrs_serialise-attrs_code signed_only preid lsa.root d₂) (
            rw (fits d₂ code (omega arith)) (
              length_agrees n d₁.off (appended d₂ code) (omega arith) (omega arith) (omega arith)
                (ap (λ (d : Dst). d.buf) whole ∙ appended_front m buf h)))))
