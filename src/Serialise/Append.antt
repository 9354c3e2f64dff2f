-- ===== src/Serialise/Append.antt =====
-- Appending is an action: two appends, one after the other, are one append of both.
use dvpn.Base.{
  ℕ, zero, suc, ◌+◌, ◌-◌, ◌≤◌, ◌≡◌, refl, ap, false, ltb, leb, if◌then◌else◌, [], ◌∷◌, ◌++◌, length,
  length-append, take, arith, ok, aborted, ◌>>=◌, append-nil, add-zero, Bool-cases, inl, inr,
}
use dvpn.Bytes.{Bytes, size_max}
use dvpn.Serialise.Dst.{Dst, write_at, dst_append}

zero-sub : (n : ℕ) → 0 - n ≡ 0
zero-sub n = omega arith

sub_suc : (m n : ℕ) → suc m - suc n ≡ m - n
sub_suc m n = omega arith

sub-zero : (m : ℕ) → m - 0 ≡ m
sub-zero m = omega arith

take-append : (n : ℕ) (xs ys : Bytes) → take n (xs ++ ys) ≡ take n xs ++ take (n - length xs) ys
take-append zero [] ys = refl
take-append zero (x ∷ xs) ys = rw (zero-sub (length (x ∷ xs)))
take-append (suc n) [] ys = rw sub-zero refl
take-append (suc n) (x ∷ xs) ys = rw (sub_suc n (length xs)) (ap (λ l. x ∷ l) (take-append n xs ys))

pub take-full : (n : ℕ) (xs : Bytes) → length xs ≤ n → take n xs ≡ xs
take-full zero [] h = refl
take-full (suc n) [] h = refl
take-full zero (x ∷ xs) h = absurd (omega arith)
take-full (suc n) (x ∷ xs) h = ap (λ l. x ∷ l) (take-full n xs (omega arith))

pub take-nil : (n : ℕ) → take {A = ℕ} n [] ≡ []
take-nil zero = refl
take-nil (suc n) = refl

pub write_at-nil : (n : ℕ) (buf : Bytes) → write_at n [] buf ≡ buf
unfolding write_at
write_at-nil n [] = refl
write_at-nil zero (b ∷ buf) = refl
write_at-nil (suc n) (b ∷ buf) = ap (λ l. b ∷ l) (write_at-nil n buf)

write_at-append :
    (n : ℕ) (xs ys buf : Bytes)
    → write_at (n + length xs) ys (write_at n xs buf) ≡ write_at n (xs ++ ys) buf
unfolding write_at
write_at-append n xs ys [] = refl
write_at-append zero [] ys (b ∷ buf) = rw (add-zero 0) (refl)
write_at-append zero (x ∷ xs) ys (b ∷ buf) =
    let e : 0 + suc (length xs) ≡ suc (0 + length xs) = omega arith in
    rw e (ap (λ l. x ∷ l) (write_at-append zero xs ys buf))
write_at-append (suc n) xs ys (b ∷ buf) =
    let e : suc n + length xs ≡ suc (n + length xs) = omega arith in
    rw e (ap (λ l. b ∷ l) (write_at-append n xs ys buf))

take-clip :
    (n : ℕ) (src : Bytes) → take (if ltb (length src) n then length src else n) src ≡ take n src
take-clip n src = elim (Bool-cases (ltb (length src) n)) [
  | inl e ↦ rw (e, take-full (length src) src (omega arith), take-full n src (ground arith)) refl
  | inr e ↦ rw e
]

-- The buffer after an append that does not overflow the count.
unfoldable pub appended : Dst → Bytes → Dst
appended dst src = record dst {
  buf = write_at dst.off (take (dst.dstlen - dst.off) src) dst.buf;
  off = dst.off + length src;
}

no_space :
    (dst : Dst) (src : Bytes)
    → ltb dst.off dst.dstlen ≡ false
    → write_at dst.off (take (dst.dstlen - dst.off) src) dst.buf ≡ dst.buf
no_space dst src f =
    let z : dst.dstlen - dst.off ≡ 0 = ground arith in rw z (write_at-nil dst.off dst.buf)

-- dst_append without its case distinction on the space that is left.
pub dst_append-appended :
    (dst : Dst) (src : Bytes)
    → dst_append dst src
      ≡ (if ltb (size_max - dst.off) (length src) then aborted else ok (appended dst src))
unfolding dst_append appended
dst_append-appended dst src = elim (Bool-cases (ltb (size_max - dst.off) (length src))) [
  | inl e ↦ rw e
  | inr e ↦ elim (Bool-cases (ltb dst.off dst.dstlen)) [
    | inl f ↦ rw (e, f) (rw take-clip)
    | inr f ↦ rw (e, f) (rw (no_space dst src f))
  ]
]

-- Two writes, each cut off at the same end, are one write of both.
write_cut :
    (o n : ℕ) (xs ys buf : Bytes)
    → write_at (o + length xs) (take (n - length xs) ys) (write_at o (take n xs) buf)
      ≡ write_at o (take n (xs ++ ys)) buf
write_cut o n xs ys buf = elim (Bool-cases (leb (length xs) n)) [
  | inl e ↦
      rw (take-append n xs ys, take-full n xs (ground arith))
        (write_at-append o xs (take (n - length xs) ys) buf)
  | inr e ↦
      let z : n - length xs ≡ 0 = ground arith in
      rw (take-append n xs ys, z) (rw (append-nil, write_at-nil) refl)
]

pub appended-appended :
    (dst : Dst) (xs ys : Bytes) → appended (appended dst xs) ys ≡ appended dst (xs ++ ys)
unfolding appended
appended-appended dst xs ys =
    let n = dst.dstlen - dst.off in
    let e : dst.dstlen - (dst.off + length xs) ≡ n - length xs = omega arith in
    let o : dst.off + length xs + length ys ≡ dst.off + length (xs ++ ys) =
      omega (arith, length-append xs ys) in
    rw (e, o, write_cut dst.off n xs ys dst.buf) refl

pub off-appended : (dst : Dst) (src : Bytes) → (appended dst src).off ≡ dst.off + length src
unfolding appended
off-appended dst src = refl

-- Appending two strings, one after the other, is appending both at once, also where that aborts.
pub dst_append-append :
    (dst : Dst) (xs ys : Bytes)
    → (dst_append dst xs >>= λ dst'. dst_append dst' ys) ≡ dst_append dst (xs ++ ys)
dst_append-append dst xs ys = simp dst_append-appended (
    ground (
      arith,
      length-append xs ys,
      off-appended dst xs,
      appended-appended dst xs ys,
      dst_append-appended (appended dst xs) ys,
    ))
