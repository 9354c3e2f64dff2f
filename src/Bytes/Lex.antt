-- ===== src/Bytes/Lex.antt =====
-- memcmp over equal lengths is the lexicographic order of byte strings, and that order is total.
use dvpn.Base.{ℕ, suc, min, compare, Ordering, [], ◌∷◌, ◌≡◌, refl, arith, length}
use dvpn.Bytes.{Bytes, then_by, opposite, memcmp}

-- A proper prefix comes first.
unfoldable pub lex : Bytes → Bytes → Ordering
lex [] [] = Ordering.eq
lex [] (y ∷ b) = Ordering.lt
lex (x ∷ a) [] = Ordering.gt
lex (x ∷ a) (y ∷ b) = then_by (compare x y) (lex a b)

min-suc : (m n : ℕ) → min (suc m) (suc n) ≡ suc (min m n)
min-suc m n = omega arith

-- Comparing the common length first and the lengths next is the lexicographic order.
pub memcmp-lex :
    (a b : Bytes)
    → then_by (memcmp (min (length a) (length b)) a b) (compare (length a) (length b)) ≡ lex a b
unfolding memcmp lex
memcmp-lex [] [] = refl
memcmp-lex [] (y ∷ b) = ground arith
memcmp-lex (x ∷ a) [] = ground arith
memcmp-lex (x ∷ a) (y ∷ b) = rw (min-suc (length a) (length b)) (ground (arith, memcmp-lex a b))

pub lex_self : (a : Bytes) → lex a a ≡ Ordering.eq
unfolding lex
lex_self [] = refl
lex_self (x ∷ a) = ground (arith, lex_self a)

pub lex-eq : (a b : Bytes) → lex a b ≡ Ordering.eq → a ≡ b
unfolding lex
lex-eq [] [] h = refl
lex-eq [] (y ∷ b) h = cc
lex-eq (x ∷ a) [] h = cc
lex-eq (x ∷ a) (y ∷ b) h = ground (arith, lex-eq a b)

-- Swapping the arguments turns the answer round.
pub lex-swap : (a b : Bytes) → lex b a ≡ opposite (lex a b)
unfolding lex
lex-swap [] [] = refl
lex-swap [] (y ∷ b) = refl
lex-swap (x ∷ a) [] = refl
lex-swap (x ∷ a) (y ∷ b) = ground (arith, lex-swap a b)

pub lex_trans :
    (a b c : Bytes) → lex a b ≡ Ordering.lt → lex b c ≡ Ordering.lt → lex a c ≡ Ordering.lt
unfolding lex
lex_trans [] [] c h k = cc
lex_trans [] (y ∷ b) [] h k = cc
lex_trans [] (y ∷ b) (z ∷ c) h k = refl
lex_trans (x ∷ a) [] c h k = cc
lex_trans (x ∷ a) (y ∷ b) [] h k = cc
lex_trans (x ∷ a) (y ∷ b) (z ∷ c) h k = ground (arith, lex_trans a b c)
