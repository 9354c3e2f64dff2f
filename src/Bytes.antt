-- ===== src/Bytes.antt =====
-- Byte strings as the program compares and reads them: memcmp of the C library, and the numbers
-- that ntohs and ntohl make of bytes in network order.
pub mod Lex
pub mod Memcmp
use dvpn.Base.{ℕ, zero, suc, ◌+◌, ◌*◌, ◌<◌, compare, Ordering, List, [], ◌∷◌, Bool, true, false}

abbrev pub Bytes : Type 0
Bytes = List ℕ

abbrev pub IsByte : ℕ → Type 0
IsByte b = b < 256

-- SIZE_MAX and INT_MAX of an LP64 platform.
abbrev pub size_max : ℕ
size_max = 0xffff_ffff_ffff_ffff

abbrev pub int_max : ℕ
int_max = 0x7fff_ffff

-- `then_by o p` is `o` unless that is a tie.
abbrev pub then_by : Ordering → Ordering → Ordering
then_by Ordering.lt p = Ordering.lt
then_by Ordering.eq p = p
then_by Ordering.gt p = Ordering.gt

abbrev pub opposite : Ordering → Ordering
opposite Ordering.lt = Ordering.gt
opposite Ordering.eq = Ordering.eq
opposite Ordering.gt = Ordering.lt

-- memcmp(a, b, n); a read past the end of a buffer is undefined in C, and here the end comes before
-- every byte.
unfoldable pub memcmp : ℕ → Bytes → Bytes → Ordering
memcmp zero a b = Ordering.eq
memcmp (suc n) (x ∷ a) (y ∷ b) = then_by (compare x y) (memcmp n a b)
memcmp (suc n) [] [] = Ordering.eq
memcmp (suc n) [] (y ∷ b) = Ordering.lt
memcmp (suc n) (x ∷ a) [] = Ordering.gt

abbrev pub is_eq : Ordering → Bool
is_eq Ordering.eq = true
is_eq _ = false

abbrev pub is_lt : Ordering → Bool
is_lt Ordering.lt = true
is_lt _ = false

-- The number that bytes in network order stand for.
unfoldable pub big_endian : ℕ → Bytes → ℕ
big_endian acc [] = acc
big_endian acc (b ∷ bs) = big_endian (acc * 256 + b) bs
