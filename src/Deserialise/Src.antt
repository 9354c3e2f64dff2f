-- ===== src/Deserialise/Src.antt =====
-- struct src of lsa_deserialise.c and the macros that read from it.
use dvpn.Base.{ℕ, ◌+◌, ◌*◌, ◌%◌, ltb, ◌==◌, if◌then◌else◌, [], ◌∷◌, length, take, drop}
use dvpn.Bytes.{Bytes, size_max, int_max}

-- `rest` is what stands from src + off up to src + srclen.
pub record Src : Type 0 where
  pub rest : Bytes
  pub off : ℕ

-- A read succeeds, or goes to short_read, or goes to error.
pub data Read {ℓ} (A : Type ℓ) : Type ℓ where
  got : A → Read A
  short_read : Read A
  error : Read A

infixl 5 ◌>>=◌
abbrev pub ◌>>=◌ {ℓ κ} : {A : Type ℓ} {B : Type κ} → Read A → (A → Read B) → Read B
got a >>= f = f a
short_read >>= f = short_read
error >>= f = error

-- SRC_GET_PTR and SRC_READ
unfoldable pub src_read : ℕ → Src → Read (Bytes × Src)
src_read n src =
    if ltb (length src.rest) n
    then short_read
    else got (take n src.rest, record { rest = drop n src.rest; off = src.off + n })

-- The loop of SRC_READ_UINT64_T: `val` is the byte just read and `v` the number so far. The test of
-- the top bit of a byte is the test that it is 128 at least, and `|` adds seven bits to a number
-- whose lowest seven bits are clear.
unfoldable pub read_groups : ℕ → ℕ → ℕ → Bytes → ℕ → Read (ℕ × Src)
read_groups cnt v val [] off =
    if ltb val 128
    then got (v, record { rest = []; off = off })
    else if cnt + 1 == 10
    then error
    else short_read
read_groups cnt v val (b ∷ bs) off =
    let more = read_groups (cnt + 1) (v * 128 % (size_max + 1) + b % 128) b bs (off + 1) in
    if ltb val 128
    then got (v, record { rest = b ∷ bs; off = off })
    else if cnt + 1 == 10
    then error
    else more

unfoldable pub read_first : Bytes → ℕ → Read (ℕ × Src)
read_first [] off = short_read
read_first (b ∷ bs) off = if b == 0x80 then error else read_groups 0 (b % 128) b bs (off + 1)

-- SRC_READ_UINT64_T, and SRC_READ_SIZE_T where size_t has 64 bits.
unfoldable pub read_size : Src → Read (ℕ × Src)
read_size src = read_first src.rest src.off

-- SRC_READ_INT
unfoldable pub read_int : Src → Read (ℕ × Src)
read_int src = do (v, src₁) ← read_size src; if ltb int_max v then error else got (v, src₁)
