-- ===== src/Bytes/Memcmp.antt =====
-- memcmp over strings that are long enough.
use dvpn.Base.{zero, suc, ℕ, Ordering, [], ◌∷◌, ◌++◌, ◌≡◌, refl, arith, length, take, ap, compare}
use dvpn.Bytes.{Bytes, memcmp, then_by}
use dvpn.Bytes.Lex.{lex}

pub memcmp-append : (n : ℕ) (a b id : Bytes) → length a ≡ n → memcmp n (a ++ b) id ≡ memcmp n a id
unfolding memcmp
memcmp-append zero a b id e = refl
memcmp-append (suc n) [] b id e = absurd (omega arith)
memcmp-append (suc n) (x ∷ a) b [] e = refl
memcmp-append (suc n) (x ∷ a) b (y ∷ id) e = rw (memcmp-append n a b id (omega arith)) refl

pub memcmp-append_both :
    (n : ℕ) (a x b y : Bytes)
    → length a ≡ n
    → length b ≡ n
    → memcmp n (a ++ x) (b ++ y) ≡ memcmp n a b
unfolding memcmp
memcmp-append_both zero a x b y e f = refl
memcmp-append_both (suc n) [] x b y e f = absurd (omega arith)
memcmp-append_both (suc n) (c ∷ a) x [] y e f = absurd (omega arith)
memcmp-append_both (suc n) (c ∷ a) x (d ∷ b) y e f =
    rw (memcmp-append_both n a x b y (omega arith) (omega arith)) refl

-- Two strings of n bytes that memcmp finds equal are the same.
pub memcmp-eq :
    (n : ℕ) (a b : Bytes) → length a ≡ n → length b ≡ n → memcmp n a b ≡ Ordering.eq → a ≡ b
unfolding memcmp
memcmp-eq zero [] [] e f h = refl
memcmp-eq zero [] (y ∷ b) e f h = absurd (omega arith)
memcmp-eq zero (x ∷ a) b e f h = absurd (omega arith)
memcmp-eq (suc n) [] b e f h = absurd (omega arith)
memcmp-eq (suc n) (x ∷ a) [] e f h = absurd (omega arith)
memcmp-eq (suc n) (x ∷ a) (y ∷ b) e f h =
    ground (arith, memcmp-eq n a b (omega arith) (omega arith))

pub memcmp_self : (n : ℕ) (a : Bytes) → memcmp n a a ≡ Ordering.eq
unfolding memcmp
memcmp_self zero a = refl
memcmp_self (suc n) [] = refl
memcmp_self (suc n) (x ∷ a) = ground (arith, memcmp_self n a)

-- memcmp orders by the first n bytes.
pub memcmp-lex-take : (n : ℕ) (a b : Bytes) → memcmp n a b ≡ lex (take n a) (take n b)
unfolding memcmp lex
memcmp-lex-take zero [] [] = refl
memcmp-lex-take zero [] (y ∷ b) = refl
memcmp-lex-take zero (x ∷ a) [] = refl
memcmp-lex-take zero (x ∷ a) (y ∷ b) = refl
memcmp-lex-take (suc n) [] [] = refl
memcmp-lex-take (suc n) [] (y ∷ b) = refl
memcmp-lex-take (suc n) (x ∷ a) [] = refl
memcmp-lex-take (suc n) (x ∷ a) (y ∷ b) = ap (then_by (compare x y)) (memcmp-lex-take n a b)
