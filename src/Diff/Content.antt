-- ===== src/Diff/Content.antt =====
-- What attr_cmp finds: whether the data of two attributes are the same bytes.
use dvpn.Base.{
  ℕ, ◌+◌, ◌≤◌, ◌≡◌, refl, ap, subst, Bool, true, false, not, ◌==◌, if◌then◌else◌, [], ◌++◌, length,
  length-replicate, none, ok, arith, drop,
}
use dvpn.Bytes.{Bytes, memcmp, is_eq, size_max}
use dvpn.Lsa.Types.{Attr, attr, bytes, attr_set}
use dvpn.Bytes.Memcmp.{memcmp-eq, memcmp_self, memcmp-append_both}
use dvpn.Serialise.Dst.{Dst}
use dvpn.Serialise.Append.{appended, off-appended}
use dvpn.Serialise.Encoder.{lsa_attr_serialise, lsa_attr_serialise_length}
use dvpn.Serialise.Encoding.{attr_code, attr_serialise-attr_code}
use dvpn.Serialise.Message.{appended_front, fits}
use dvpn.Diff.Attrs.{room, bytes_cmp, lengths_cmp, set_cmp, attr_cmp}

-- The bytes by which attributes are compared: the data, or the serialised attribute with its set.
abbrev pub content : Attr → Bool × Bytes
content (attr type sign key (bytes d)) = (false, d)
content (attr type sign key (attr_set set)) =
    (true, attr_code false none (attr type sign key (attr_set set)))

attr_serialise_lem :
    (n : ℕ) (a : Attr)
    → length (attr_code false none a) ≤ n
    → n ≤ size_max
    → lsa_attr_serialise (room n) n a
      ≡ ok (
        attr_code false none a ++ drop (length (attr_code false none a)) (room n),
        length (attr_code false none a),
      )
unfolding lsa_attr_serialise
attr_serialise_lem n a h k =
    let code = attr_code false none a in
    let l : length (room n) ≡ n = length-replicate {A = ℕ} n 0 in
    let dst : Dst = record { buf = room n; dstlen = n; off = 0 } in
    let front =
      subst
        (λ m.
          (appended (record { buf = room n; dstlen = m; off = 0 }) code).buf
          ≡ code ++ drop (length code) (room n))
        l (appended_front code (room n) (omega arith)) in
    rw (attr_serialise-attr_code false none a dst) (
      rw (fits dst code (omega arith)) (
        rw (front, off-appended dst code)
          (ap (λ m. ok (code ++ drop (length code) (room n), m)) (omega arith))))

attr_serialise_length_lem :
    (a : Attr)
    → length (attr_code false none a) ≤ size_max
    → lsa_attr_serialise_length a ≡ ok (length (attr_code false none a))
unfolding lsa_attr_serialise_length lsa_attr_serialise
attr_serialise_length_lem a h =
    let code = attr_code false none a in
    let dst : Dst = record { buf = []; dstlen = 0; off = 0 } in
    rw (attr_serialise-attr_code false none a dst)
      (rw (fits dst code (omega arith)) (rw (off-appended dst code) (ap ok (omega arith))))

-- Whether two strings differ in length or in a byte.
unfoldable differs : Bytes → Bytes → Bool
differs xs ys =
    if not (length xs == length ys) then true else not (is_eq (memcmp (length xs) xs ys))

abbrev Tells : Bool → Bool × Bytes → Bool × Bytes → Type 0
Tells c x y = (c ≡ false → x ≡ y) × (x ≡ y → c ≡ false)

differs-eq : (xs ys : Bytes) → differs xs ys ≡ false → xs ≡ ys
unfolding differs
differs-eq xs ys h = memcmp-eq (length xs) xs ys refl (ground arith) (ground arith)

differs_self : (xs : Bytes) → differs xs xs ≡ false
unfolding differs
differs_self xs = ground (arith, memcmp_self (length xs) xs)

differs-Tells : (b : Bool) (xs ys : Bytes) → Tells (differs xs ys) (b, xs) (b, ys)
differs-Tells b xs ys = (
  λ h. ap (λ l. (b, l)) (differs-eq xs ys h),
  λ e. subst (λ l. differs xs l ≡ false) (ap (λ (q : Bool × Bytes). q.1) e) (differs_self xs),
)

module _ (a b : Attr) where
  abbrev code_a : Bytes
  code_a = attr_code false none a

  abbrev code_b : Bytes
  code_b = attr_code false none b

  bytes_cmp_lem :
      length code_a ≤ 65520
      → length code_b ≡ length code_a
      → bytes_cmp (length code_a) a b ≡ ok (not (is_eq (memcmp (length code_a) code_a code_b)))
  unfolding bytes_cmp
  bytes_cmp_lem h e =
      rw
        (
          attr_serialise_lem (length code_a + 16) a (omega arith) (omega arith),
          attr_serialise_lem (length code_a + 16) b (omega arith) (omega arith),
        )
        (rw (memcmp-append_both (length code_a) code_a _ code_b _ refl e) refl)

  set_cmp-differs :
      length code_a ≤ 65520 → length code_b ≤ size_max → set_cmp a b ≡ ok (differs code_a code_b)
  unfolding set_cmp lengths_cmp differs
  set_cmp-differs h k =
      rw (attr_serialise_length_lem a (omega arith), attr_serialise_length_lem b k)
        (ground (arith, bytes_cmp_lem h))

-- Where the serialised attributes are short enough for the buffers of attr_cmp, it answers 0 if and
-- only if both attributes hold the same bytes, or both hold a set and are serialised alike.
pub attr_cmp-Tells :
    (a b : Attr)
    → length (attr_code false none a) ≤ 65520
    → length (attr_code false none b) ≤ size_max
    → (c : Bool) × (attr_cmp a b ≡ ok c)
      × (c ≡ false → content a ≡ content b)
      × (content a ≡ content b → c ≡ false)
unfolding attr_cmp
attr_cmp-Tells (attr t s k (bytes d)) (attr u r l (bytes e)) h k' =
    let (from, to) = differs-Tells false d e in
    (differs d e, unfold differs in ground arith, from, to)
attr_cmp-Tells (attr t s k (bytes d)) (attr u r l (attr_set e)) h k' =
    (true, refl, (λ q. absurd (ground arith)), (λ q. absurd (ground arith)))
attr_cmp-Tells (attr t s k (attr_set d)) (attr u r l (bytes e)) h k' =
    (true, refl, (λ q. absurd (ground arith)), (λ q. absurd (ground arith)))
attr_cmp-Tells (attr t s k (attr_set d)) (attr u r l (attr_set e)) h k' =
    let a = attr t s k (attr_set d) in
    let b = attr u r l (attr_set e) in
    let (from, to) = differs-Tells true (code_a a b) (code_b a b) in
    (differs (code_a a b) (code_b a b), set_cmp-differs a b h k', from, to)
