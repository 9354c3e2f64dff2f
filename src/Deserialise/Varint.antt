-- ===== src/Deserialise/Varint.antt =====
-- SRC_READ_UINT64_T reads back every number that dst_append_int wrote.
use dvpn.Base.{
  ℕ, zero, suc, ◌+◌, ◌*◌, ◌/◌, ◌%◌, ◌^◌, ◌≤◌, ◌<◌, ◌≡◌, refl, ◌==◌, [], ◌∷◌, ◌++◌, length, arith,
  Bool-cases, false, inl, inr,
}
use dvpn.Bytes.{Bytes, size_max, int_max}
use dvpn.Serialise.Dst.{skip_empty, int_bytes, seven_bit_groups}
use dvpn.Serialise.Varint.{shifted, groups, length-groups, seven_bit_groups-eq-groups}
use dvpn.Deserialise.Src.{got, read_groups, read_first, read_size, read_int}

last_group :
    (cnt v val : ℕ) (rest : Bytes) (off : ℕ)
    → val < 128
    → read_groups cnt v val rest off ≡ got (v, record { rest = rest; off = off })
unfolding read_groups
last_group cnt v val [] off h = ground arith
last_group cnt v val (b ∷ bs) off h = ground arith

next_group :
    (cnt v val b : ℕ) (bs : Bytes) (off : ℕ)
    → 128 ≤ val
    → cnt < 9
    → read_groups cnt v val (b ∷ bs) off
      ≡ read_groups (cnt + 1) (v * 128 % (size_max + 1) + b % 128) b bs (off + 1)
unfolding read_groups
next_group cnt v val b bs off h k = ground arith

shifted-le : (k value : ℕ) → shifted k value ≤ value
unfolding shifted
shifted-le zero value = omega arith
shifted-le (suc k) value = omega (arith, shifted-le k value)

shifted_ten : (value : ℕ) → value < 2 ^ 64 → shifted 10 value ≡ 0
unfolding shifted
shifted_ten value h = omega arith

int_bytes_lem : (value : ℕ) → int_bytes value ≡ skip_empty (seven_bit_groups value)
unfolding int_bytes
int_bytes_lem value = refl

-- `v` holds what stands before the last k + 1 groups.
read_groups-groups :
    (k cnt v val value : ℕ) (rest : Bytes) (off : ℕ)
    → 128 ≤ val
    → v ≡ shifted (suc k) value
    → cnt + k < 9
    → value < 2 ^ 64
    → read_groups cnt v val (groups k value ++ rest) off
      ≡ got (value, record { rest = rest; off = off + (k + 1) })
unfolding groups shifted
read_groups-groups zero cnt v val value rest off hv e c h =
    let w : v * 128 % (size_max + 1) + value % 128 % 128 ≡ value = omega arith in
    rw (next_group cnt v val (value % 128) rest off hv (omega arith))
      (rw w (last_group (cnt + 1) value (value % 128) rest (off + 1) (omega arith)))
read_groups-groups (suc k) cnt v val value rest off hv e c h =
    let s = shifted k value / 128 in
    let w : v * 128 % (size_max + 1) + (128 + s % 128) % 128 ≡ s =
      omega (arith, shifted-le k value) in
    let o : off + 1 + (k + 1) ≡ off + (suc k + 1) = omega arith in
    rw (next_group cnt v val (128 + s % 128) (groups k value ++ rest) off hv (omega arith)) (
      rw (w, ← o)
        (read_groups-groups k (cnt + 1) s (128 + s % 128) value rest (off + 1) (omega arith) refl
          (omega arith) h))

read_first-groups :
    (k value : ℕ) (rest : Bytes) (off : ℕ)
    → shifted (suc k) value ≡ 0
    → k ≤ 9
    → value < 2 ^ 64
    → read_first (skip_empty (groups k value) ++ rest) off
      ≡ got (value, record { rest = rest; off = off + length (skip_empty (groups k value)) })
unfolding read_first skip_empty groups shifted
read_first-groups zero value rest off z c h =
    let ne : (value % 128 == 128) ≡ false = ground arith in
    let v : value % 128 % 128 ≡ value = omega arith in
    rw (ne, ne) (rw v (last_group 0 value (value % 128) rest (off + 1) (omega arith)))
read_first-groups (suc k) value rest off z c h =
    let s = shifted k value / 128 in
    elim (Bool-cases ((128 + s % 128) == 128)) [
      | inl e ↦ rw e (read_first-groups k value rest off (ground arith) (omega arith) h)
      | inr e ↦
          let v : (128 + s % 128) % 128 ≡ s = omega arith in
          let o : off + suc (length (groups k value)) ≡ off + 1 + (k + 1) =
            omega (arith, length-groups k value) in
          rw (e, e)
            (rw (v, o)
              (read_groups-groups k 0 s (128 + s % 128) value rest (off + 1) (omega arith) refl
                (omega arith) h))
    ]

-- Whatever follows it, a number is read back from its bytes, and the offset moves past them.
pub read_size-int_bytes :
    (value : ℕ) (rest : Bytes) (off : ℕ)
    → value < 2 ^ 64
    → read_size (record { rest = int_bytes value ++ rest; off = off })
      ≡ got (value, record { rest = rest; off = off + length (int_bytes value) })
unfolding read_size
read_size-int_bytes value rest off h =
    rw (int_bytes_lem value, seven_bit_groups-eq-groups value h)
      (read_first-groups 9 value rest off (shifted_ten value h) (omega arith) h)

pub read_int-int_bytes :
    (value : ℕ) (rest : Bytes) (off : ℕ)
    → value ≤ int_max
    → read_int (record { rest = int_bytes value ++ rest; off = off })
      ≡ got (value, record { rest = rest; off = off + length (int_bytes value) })
unfolding read_int
read_int-int_bytes value rest off h =
    rw (read_size-int_bytes value rest off (omega arith)) (ground arith)
