-- ===== src/Serialise/Varint.antt =====
-- The bytes of a number, by recursion on the number of groups.
use dvpn.Base.{
  ℕ, zero, suc, ◌+◌, ◌/◌, ◌%◌, ◌^◌, ◌≤◌, ◌<◌, ◌≡◌, refl, ◌==◌, [], ◌∷◌, length, arith, Bool-cases,
  false, inl, inr,
}
use dvpn.Bytes.{Bytes}
use dvpn.Serialise.Dst.{seven_bit_groups, skip_empty, int_bytes}

-- `value` without its lowest k groups.
unfoldable pub shifted : ℕ → ℕ → ℕ
shifted zero value = value
shifted (suc k) value = shifted k value / 128

-- k groups that others follow, and the last one.
unfoldable pub groups : ℕ → ℕ → Bytes
groups zero value = (value % 128) ∷ []
groups (suc k) value = (128 + shifted (suc k) value % 128) ∷ groups k value

pub seven_bit_groups-eq-groups :
    (value : ℕ) → value < 2 ^ 64 → seven_bit_groups value ≡ groups 9 value
unfolding seven_bit_groups groups shifted
seven_bit_groups-eq-groups value h = ground arith

length-skip_empty : (bs : Bytes) → length (skip_empty bs) ≤ length bs
unfolding skip_empty
length-skip_empty [] = omega arith
length-skip_empty (b ∷ bs) = elim (Bool-cases (b == 0x80)) [
  | inl e ↦ rw e (omega (arith, length-skip_empty bs))
  | inr e ↦ rw e (omega arith)
]

pub length-groups : (k value : ℕ) → length (groups k value) ≡ k + 1
unfolding groups
length-groups zero value = refl
length-groups (suc k) value = omega (arith, length-groups k value)

length-seven_bit_groups : (value : ℕ) → length (seven_bit_groups value) ≡ 10
unfolding seven_bit_groups
length-seven_bit_groups value = refl

-- A number takes ten bytes at most.
pub length-int_bytes : (value : ℕ) → length (int_bytes value) ≤ 10
unfolding int_bytes
length-int_bytes value =
    omega (arith, length-skip_empty (seven_bit_groups value), length-seven_bit_groups value)

skip_empty_pos : (k value : ℕ) → 0 < length (skip_empty (groups k value))
unfolding skip_empty groups
skip_empty_pos zero value =
    let ne : (value % 128 == 128) ≡ false = ground arith in rw ne (omega arith)
skip_empty_pos (suc k) value = elim (Bool-cases ((128 + shifted (suc k) value % 128) == 128)) [
  | inl e ↦ rw e (skip_empty_pos k value)
  | inr e ↦ rw e (omega arith)
]

pub int_bytes_pos : (value : ℕ) → value < 2 ^ 64 → 0 < length (int_bytes value)
unfolding int_bytes
int_bytes_pos value h = rw (seven_bit_groups-eq-groups value h) (skip_empty_pos 9 value)
