-- ===== src/Deserialise/Leaves.antt =====
-- How many bytes a read leaves: every read of a number takes one at least.
use dvpn.Base.{
  ℕ, suc, ◌+◌, ◌%◌, ◌≤◌, [], ◌∷◌, length, length-drop, arith, Bool-cases, inl, inr, ltb, ◌==◌,
}
use dvpn.Bytes.{Bytes, int_max}
use dvpn.Deserialise.Src.{
  Src, Read, got, short_read, error, ◌>>=◌, src_read, read_groups, read_first, read_size, read_int,
}
use dvpn.Deserialise.Decoder.{has_key, read_key, read_attr}

-- A read that succeeds leaves at most n bytes.
abbrev pub Leaves : {A : Type 0} → ℕ → Read (A × Src) → Type 0
Leaves n (got (a, src)) = length src.rest ≤ n
Leaves n short_read = Unit
Leaves n error = Unit

Leaves-bind :
    {A B : Type 0} (n : ℕ) (m : Read (A × Src)) (f : A × Src → Read (B × Src))
    → Leaves n m
    → ((a : A) (src : Src) → length src.rest ≤ n → Leaves n (f (a, src)))
    → Leaves n (m >>= f)
Leaves-bind n (got (a, src)) f h k = k a src h
Leaves-bind n short_read f h k = tt
Leaves-bind n error f h k = tt

read_groups-Leaves :
    (cnt v val : ℕ) (bs : Bytes) (off n : ℕ)
    → length bs ≤ n
    → Leaves n (read_groups cnt v val bs off)
unfolding read_groups
read_groups-Leaves cnt v val [] off n h = elim (Bool-cases (ltb val 128)) [
  | inl e ↦ rw e h
  | inr e ↦ elim (Bool-cases (cnt + 1 == 10)) [ inl f ↦ rw (e, f) tt | inr f ↦ rw (e, f) tt ]
]
read_groups-Leaves cnt v val (b ∷ bs) off n h = elim (Bool-cases (ltb val 128)) [
  | inl e ↦ rw e h
  | inr e ↦ elim (Bool-cases (cnt + 1 == 10)) [
    | inl f ↦ rw (e, f) tt
    | inr f ↦ rw (e, f) (read_groups-Leaves (cnt + 1) _ b bs (off + 1) n (omega arith))
  ]
]

read_first-Leaves : (bs : Bytes) (off n : ℕ) → length bs ≤ suc n → Leaves n (read_first bs off)
unfolding read_first
read_first-Leaves [] off n h = tt
read_first-Leaves (b ∷ bs) off n h = elim (Bool-cases (b == 0x80)) [
  | inl e ↦ rw e tt
  | inr e ↦ rw e (read_groups-Leaves 0 (b % 128) b bs (off + 1) n (omega arith))
]

-- A number takes a byte at least.
pub read_size-Leaves : (src : Src) (n : ℕ) → length src.rest ≤ suc n → Leaves n (read_size src)
unfolding read_size
read_size-Leaves src n h = read_first-Leaves src.rest src.off n h

read_int-Leaves : (src : Src) (n : ℕ) → length src.rest ≤ suc n → Leaves n (read_int src)
unfolding read_int
read_int-Leaves src n h =
    Leaves-bind n (read_size src) _ (read_size-Leaves src n h)
      (λ v src' k. elim (Bool-cases (ltb int_max v)) [ inl e ↦ rw e tt | inr e ↦ rw e k ])

src_read-Leaves : (k : ℕ) (src : Src) (n : ℕ) → length src.rest ≤ n → Leaves n (src_read k src)
unfolding src_read
src_read-Leaves k src n h = elim (Bool-cases (ltb (length src.rest) k)) [
  | inl e ↦ rw e tt
  | inr e ↦ rw e (omega (arith, length-drop k src.rest))
]

read_key-Leaves :
    (flags : ℕ) (src : Src) (n : ℕ) → length src.rest ≤ n → Leaves n (read_key flags src)
unfolding read_key
read_key-Leaves flags src n h = elim (Bool-cases (has_key flags)) [
  | inl e ↦ rw e (
      Leaves-bind n (read_size src) _ (read_size-Leaves src n (omega arith))
        (λ k src' h'. src_read-Leaves k src' n h'))
  | inr e ↦ rw e h
]

pub read_attr-Leaves : (src : Src) (n : ℕ) → length src.rest ≤ suc n → Leaves n (read_attr src)
unfolding read_attr
read_attr-Leaves src n h = Leaves-bind n (read_int src) _ (read_int-Leaves src n h) λ type s₁ h₁.
    Leaves-bind n (read_int s₁) _ (read_int-Leaves s₁ n (omega arith)) λ flags s₂ h₂.
      Leaves-bind n (read_key flags s₂) _ (read_key-Leaves flags s₂ n h₂) λ key s₃ h₃.
        Leaves-bind n (read_size s₃) _ (read_size-Leaves s₃ n (omega arith)) λ datalen s₄ h₄.
          Leaves-bind n (src_read datalen s₄) _ (src_read-Leaves datalen s₄ n h₄)
            λ payload s₅ h₅. h₅
