-- ===== src/Dgp/Cut.antt =====
-- However a stream of bytes is cut into reads, dgp_reader.c finds the same messages in it.
use dvpn.Base.{
  ℕ, zero, suc, ◌≤◌, ◌<◌, ◌≡◌, ◌≢◌, refl, sym, ap, ◌∙◌, subst, Bool, true, false, ◌==◌, ◌&&◌, [],
  ◌∷◌, ◌++◌, append_assoc, length, length-append, length-drop, drop, Result, ok, err, aborted,
  fault, stuck, ◌>>=◌, arith, ◌⊎◌, inl, inr,
}
use dvpn.Bytes.{Bytes}
use dvpn.Lsa.Platform.{Platform}
use dvpn.Deserialise.Decoder.{Decoded, message, need_more, malformed, lsa_deserialise}
use dvpn.Deserialise.Prefix.{lsa_deserialise-append, InBuffer, lsa_deserialise-InBuffer}
use dvpn.AdjRibIn.Accept.{Crypto}
use dvpn.Dgp.Reader.{
  Peering, DgpReader, buf_size, on_message, on_decoded, messages_loop, take_bytes,
}

>>=-ext {ℓ κ} :
    {A : Type ℓ} {B : Type κ} (m : Result A) (f g : A → Result B)
    → ((a : A) → f a ≡ g a)
    → (m >>= f) ≡ (m >>= g)
>>=-ext (ok a) f g h = h a
>>=-ext err f g h = refl
>>=-ext aborted f g h = refl
>>=-ext fault f g h = refl
>>=-ext stuck f g h = refl

>>=-assoc_ext {ℓ κ ℓ'} :
    {A : Type ℓ} {B : Type κ} {C : Type ℓ'} (m : Result A) (f : A → Result C) (g : A → Result B)
    (k : B → Result C)
    → ((a : A) → f a ≡ (g a >>= k))
    → (m >>= f) ≡ ((m >>= g) >>= k)
>>=-assoc_ext (ok a) f g k h = h a
>>=-assoc_ext err f g k h = refl
>>=-assoc_ext aborted f g k h = refl
>>=-assoc_ext fault f g k h = refl
>>=-assoc_ext stuck f g k h = refl

need_more-cases : (r : Result Decoded) → (r ≡ ok need_more) ⊎ (r ≢ ok need_more)
need_more-cases (ok (message m len)) = inr (λ e. cc)
need_more-cases (ok need_more) = inl refl
need_more-cases (ok malformed) = inr (λ e. cc)
need_more-cases err = inr (λ e. cc)
need_more-cases aborted = inr (λ e. cc)
need_more-cases fault = inr (λ e. cc)
need_more-cases stuck = inr (λ e. cc)

drop_prefix : (n : ℕ) (a d : Bytes) → n ≤ length a → drop n (a ++ d) ≡ drop n a ++ d
drop_prefix zero a d h = refl
drop_prefix (suc n) [] d h = absurd (omega arith)
drop_prefix (suc n) (x ∷ a) d h = drop_prefix n a d (omega arith)

module _ (p : Platform) (crypto : Crypto) (mem : Bool) where
  -- What follows a message only matters for the lengths that a message can have.
  decoded_ext :
      (n : ℕ) (first : Bool) (dr : Peering) (rest : Bytes)
      (k k' : Peering → ℕ → Result (Peering × Bytes)) (r : Result Decoded)
      → InBuffer p mem n r
      → ((dr₁ : Peering) (len : ℕ) → 0 < len → len ≤ n → k dr₁ len ≡ k' dr₁ len)
      → (r >>= on_decoded p crypto mem first dr rest k)
        ≡ (r >>= on_decoded p crypto mem first dr rest k')
  decoded_ext n first dr rest k k' (ok (message m len)) (pos, h) e =
      >>=-ext (on_message p crypto mem dr m) (λ dr₁. k dr₁ len) (λ dr₁. k' dr₁ len)
        (λ dr₁. e dr₁ len pos h)
  decoded_ext n first dr rest k k' (ok need_more) h e = refl
  decoded_ext n first dr rest k k' (ok malformed) h e = refl
  decoded_ext n first dr rest k k' err h e = refl
  decoded_ext n first dr rest k k' aborted h e = refl
  decoded_ext n first dr rest k k' fault h e = refl
  decoded_ext n first dr rest k k' stuck h e = refl

  -- More fuel changes nothing.
  loop_fuel :
      (m n : ℕ) (first : Bool) (dr : Peering) (buf : Bytes)
      → length buf ≤ m
      → length buf ≤ n
      → messages_loop p crypto mem m first dr buf ≡ messages_loop p crypto mem n first dr buf
  unfolding messages_loop
  loop_fuel m n first dr [] h k = refl
  loop_fuel zero n first dr (b ∷ buf) h k = absurd (omega arith)
  loop_fuel (suc m) zero first dr (b ∷ buf) h k = absurd (omega arith)
  loop_fuel (suc m) (suc n) first dr (b ∷ buf) h k =
      decoded_ext (length (b ∷ buf)) first dr (b ∷ buf) _ _ (lsa_deserialise p mem (b ∷ buf))
        (lsa_deserialise-InBuffer p mem (b ∷ buf))
        (λ dr₁ len pos room.
          let left = length-drop len (b ∷ buf) in
          loop_fuel m n false dr₁ (drop len (b ∷ buf)) (omega arith) (omega arith))

  -- off == 0 only matters for a full buffer.
  not_full :
      (first : Bool) (dr : Peering) (rest : Bytes) (k : Peering → ℕ → Result (Peering × Bytes))
      (r : Result Decoded)
      → length rest < buf_size
      → (r >>= on_decoded p crypto mem first dr rest k)
        ≡ (r >>= on_decoded p crypto mem true dr rest k)
  not_full true dr rest k r h = refl
  not_full false dr rest k (ok (message m len)) h = refl
  not_full false dr rest k (ok need_more) h =
      let room : (length rest == buf_size) ≡ false = ground arith in rw room refl
  not_full false dr rest k (ok malformed) h = refl
  not_full false dr rest k err h = refl
  not_full false dr rest k aborted h = refl
  not_full false dr rest k fault h = refl
  not_full false dr rest k stuck h = refl

  loop_first :
      (m : ℕ) (first : Bool) (dr : Peering) (buf : Bytes)
      → length buf < buf_size
      → messages_loop p crypto mem m first dr buf ≡ messages_loop p crypto mem m true dr buf
  unfolding messages_loop
  loop_first m first dr [] h = refl
  loop_first zero first dr (b ∷ buf) h = refl
  loop_first (suc m) first dr (b ∷ buf) h =
      not_full first dr (b ∷ buf) _ (lsa_deserialise p mem (b ∷ buf)) h

  -- A full buffer may be there only at the first message.
  abbrev Fits : Bool → ℕ → Type 0
  Fits true n = n ≤ buf_size
  Fits false n = n < buf_size

  room_le : (first : Bool) (n : ℕ) → Fits first n → n ≤ buf_size
  room_le true n h = h
  room_le false n h = omega arith

  -- The loop goes on with what it has left and the bytes that follow.
  abbrev go_on : Bytes → Peering × Bytes → Result (Peering × Bytes)
  go_on d (dr, rest) = messages_loop p crypto mem (length (rest ++ d)) true dr (rest ++ d)

  loop_again :
      (m : ℕ) (first : Bool) (dr : Peering) (buf : Bytes)
      → length buf ≤ m
      → Fits first (length buf)
      → messages_loop p crypto mem m first dr buf
        ≡ messages_loop p crypto mem (length buf) true dr buf
  loop_again m true dr buf h k = loop_fuel m (length buf) true dr buf h (omega arith)
  loop_again m false dr buf h k =
      loop_first m false dr buf k ∙ loop_fuel m (length buf) true dr buf h (omega arith)

  module _ (m n : ℕ) (first : Bool) (dr : Peering) (b : ℕ) (a d : Bytes) where
    abbrev Again : Type 0
    Again =
        (dr₁ : Peering) (len : ℕ)
        → 0 < len
        → len ≤ suc (length a)
        → messages_loop p crypto mem m false dr₁ (drop len (b ∷ a) ++ d)
          ≡ (messages_loop p crypto mem n false dr₁ (drop len (b ∷ a)) >>= go_on d)

    -- What the loop makes of an answer about the shorter buffer.
    abbrev Stepped : Result Decoded → Result Decoded → Type 0
    Stepped r r' =
        (r'
          >>= on_decoded p crypto mem first dr (b ∷ (a ++ d))
              (λ dr₁ len. messages_loop p crypto mem m false dr₁ (drop len (b ∷ (a ++ d)))))
        ≡ ((r
              >>= on_decoded p crypto mem first dr (b ∷ a)
                  (λ dr₁ len. messages_loop p crypto mem n false dr₁ (drop len (b ∷ a))))
            >>= go_on d)

    decoded_step :
        (r : Result Decoded)
        → r ≢ ok need_more
        → InBuffer p mem (suc (length a)) r
        → Again
        → Stepped r r
    decoded_step (ok (message x len)) h (pos, room) ih =
        >>=-assoc_ext (on_message p crypto mem dr x) _ _ (go_on d) (λ dr₁.
          ap (messages_loop p crypto mem m false dr₁) (drop_prefix len (b ∷ a) d room)
          ∙ ih dr₁ len pos room)
    decoded_step (ok need_more) h i ih = absurd (h refl)
    decoded_step (ok malformed) h i ih = refl
    decoded_step err h i ih = refl
    decoded_step aborted h i ih = refl
    decoded_step fault h i ih = refl
    decoded_step stuck h i ih = refl

    loop_step :
        length (a ++ d) ≤ m
        → length a ≤ n
        → suc (length a) < buf_size
        → Fits first (suc (length (a ++ d)))
        → Again
        → messages_loop p crypto mem (suc m) first dr (b ∷ (a ++ d))
          ≡ (messages_loop p crypto mem (suc n) first dr (b ∷ a) >>= go_on d)
    unfolding messages_loop
    loop_step h k room fits ih = elim (need_more-cases (lsa_deserialise p mem (b ∷ a))) [
      | inl e ↦
          let free : (first && (suc (length a) == buf_size)) ≡ false = ground arith in
          rw (e, free) (loop_again (suc m) first dr (b ∷ (a ++ d)) (omega arith) fits)
      | inr h ↦
          subst (Stepped (lsa_deserialise p mem (b ∷ a)))
            (sym (lsa_deserialise-append d p mem (b ∷ a) h))
            (decoded_step (lsa_deserialise p mem (b ∷ a)) h (lsa_deserialise-InBuffer p mem (b ∷ a))
              ih)
    ]

  loop-append :
      (m n : ℕ) (first : Bool) (dr : Peering) (a d : Bytes)
      → length (a ++ d) ≤ m
      → length a ≤ n
      → length a < buf_size
      → Fits first (length (a ++ d))
      → messages_loop p crypto mem m first dr (a ++ d)
        ≡ (messages_loop p crypto mem n first dr a >>= go_on d)
  unfolding messages_loop
  loop-append m n first dr [] d h k room fits = loop_again m first dr d h fits
  loop-append zero n first dr (b ∷ a) d h k room fits = absurd (omega arith)
  loop-append (suc m) zero first dr (b ∷ a) d h k room fits = absurd (omega arith)
  loop-append (suc m) (suc n) first dr (b ∷ a) d h k room fits =
      loop_step m n first dr b a d (omega arith) (omega arith) room fits (λ dr₁ len pos small.
        let left = length-drop len (b ∷ a) in
        loop-append m n false dr₁ (drop len (b ∷ a)) d
          (omega (arith, length-append (drop len (b ∷ a)) d, length-append a d)) (omega arith)
          (omega arith)
          (omega (
            arith,
            length-append (drop len (b ∷ a)) d,
            length-append a d,
            room_le first (suc (length (a ++ d))) fits,
          )))

  abbrev finished : Result (Peering × Bytes) → Result DgpReader
  finished r = r >>= λ q. ok (record { peering = q.0; buf = q.1 })

  finished-go_on :
      (d : Bytes) (r : Result (Peering × Bytes))
      → finished (r >>= go_on d) ≡ (finished r >>= λ dr. take_bytes p crypto mem dr d)
  unfolding take_bytes
  finished-go_on d (ok q) = refl
  finished-go_on d err = refl
  finished-go_on d aborted = refl
  finished-go_on d fault = refl
  finished-go_on d stuck = refl

  -- Bytes that come in two reads, which the buffer has room for, are taken as if they had come in one:
  -- the same messages are found and handled, the same bytes are left, and if one of the ways ends the
  -- connection or the program, so does the other.
  pub take_bytes-append :
      (dr : DgpReader) (a d : Bytes)
      → length (dr.buf ++ a) < buf_size
      → length (dr.buf ++ (a ++ d)) ≤ buf_size
      → take_bytes p crypto mem dr (a ++ d)
        ≡ (take_bytes p crypto mem dr a >>= λ dr₁. take_bytes p crypto mem dr₁ d)
  unfolding take_bytes
  take_bytes-append dr a d room fits =
      ap finished (
        rw (append_assoc dr.buf a d) at (
          loop-append (length ((dr.buf ++ a) ++ d)) (length (dr.buf ++ a)) true dr.peering
            (dr.buf ++ a) d (omega arith) (omega arith) room
            (omega (arith, ap length (append_assoc dr.buf a d)))))
      ∙ finished-go_on d
          (messages_loop p crypto mem (length (dr.buf ++ a)) true dr.peering (dr.buf ++ a))
