-- ===== src/Int.antt =====
-- The values of a C int, and of sums of them.
use dvpn.Base.{ℕ, suc, ◌+◌, ◌-◌, ◌<◌, Bool, ltb, leb, ◌==◌, if◌then◌else◌, ◌&&◌}
use dvpn.Bytes.{int_max}

-- `negsuc k` is - (k + 1).
pub data ℤ : Type 0 where
  pos negsuc : ℕ → ℤ

-- How far a number lies above 0, and below.
abbrev pub above : ℤ → ℕ
above (pos k) = k
above (negsuc k) = 0

abbrev pub below : ℤ → ℕ
below (pos k) = 0
below (negsuc k) = suc k

abbrev pub minus : ℕ → ℕ → ℤ
minus up down = if ltb up down then negsuc (down - up - 1) else pos (up - down)

infixl 65 ◌+ℤ◌
infix 50 ◌<ℤ◌
unfoldable pub ◌+ℤ◌ : ℤ → ℤ → ℤ
x +ℤ y = minus (above x + above y) (below x + below y)

abbrev pub ◌<ℤ◌ : ℤ → ℤ → Type 0
x <ℤ y = above x + below y < above y + below x

abbrev pub ltb_ℤ : ℤ → ℤ → Bool
ltb_ℤ x y = ltb (above x + below y) (above y + below x)

abbrev pub leb_ℤ : ℤ → ℤ → Bool
leb_ℤ x y = leb (above x + below y) (above y + below x)

abbrev pub eqb_ℤ : ℤ → ℤ → Bool
eqb_ℤ x y = above x + below y == above y + below x

-- INT_MAX, and whether a sum is an int.
abbrev pub max_int : ℤ
max_int = pos int_max

abbrev pub is_int : ℤ → Bool
is_int x = leb (above x) int_max && leb (below x) (int_max + 1)
