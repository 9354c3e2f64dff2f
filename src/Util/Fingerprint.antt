-- ===== src/Util/Fingerprint.antt =====
-- Fingerprints in util.c: node ids in base 32, alone or as a part of a host name.
use dvpn.Base.{
  ℕ, zero, suc, ◌+◌, ◌-◌, ◌*◌, ◌/◌, ◌%◌, ◌^◌, Bool, true, false, ltb, leb, ◌==◌, ◌&&◌, not,
  if◌then◌else◌, List, [], ◌∷◌, length, get_or, set, take, drop, replicate, Option, none, some,
}
use dvpn.Bytes.{Bytes, memcmp, is_eq}
use dvpn.Lsa.Types.{node_id_len}

-- base32idx; -1 is `none`.
abbrev base32idx : List (Option ℕ)
base32idx =
    none
    ∷ some 10
    ∷ some 11
    ∷ some 12
    ∷ none
    ∷ some 13
    ∷ some 14
    ∷ some 15
    ∷ none
    ∷ some 16
    ∷ some 17
    ∷ some 18
    ∷ some 19
    ∷ some 20
    ∷ none
    ∷ some 21
    ∷ some 22
    ∷ some 23
    ∷ some 24
    ∷ some 25
    ∷ some 26
    ∷ some 27
    ∷ some 28
    ∷ some 29
    ∷ some 30
    ∷ some 31
    ∷ []

-- base32, as ASCII codes.
abbrev base32 : Bytes
base32 =
    48 ∷ 49 ∷ 50 ∷ 51 ∷ 52 ∷ 53 ∷ 54 ∷ 55 ∷ 56 ∷ 57 ∷ 98 ∷ 99 ∷ 100 ∷ 102 ∷ 103 ∷ 104 ∷ 106 ∷ 107
    ∷ 108 ∷ 109 ∷ 110 ∷ 112 ∷ 113 ∷ 114 ∷ 115 ∷ 116 ∷ 117 ∷ 118 ∷ 119 ∷ 120 ∷ 121 ∷ 122 ∷ []

abbrev is_between : ℕ → ℕ → ℕ → Bool
is_between low high c = leb low c && leb c high

unfoldable pub base32char : ℕ → Option ℕ
base32char c =
    if is_between 48 57 c
    then some (c - 48)
    else if is_between 65 90 c
    then get_or base32idx (c - 65) none
    else if is_between 97 122 c
    then get_or base32idx (c - 97) none
    else none

-- The bitwise or of two numbers, as far as the lowest `bits` bits go.
unfoldable pub bit_or : ℕ → ℕ → ℕ → ℕ
bit_or zero a b = 0
bit_or (suc bits) a b = (if a % 2 == 1 then 1 else b % 2) + 2 * bit_or bits (a / 2) (b / 2)

abbrev pub or_at : Bytes → ℕ → ℕ → Bytes
or_at id byte v = set id byte (bit_or 8 (get_or id byte 0) v)

-- What a digit at bit j adds to the id.
unfoldable pub add_digit : Bytes → ℕ → ℕ → Bytes
unfolding bit_or
add_digit id j digit =
    let v = digit * 2 ^ (j % 8) in
    let id₁ = or_at id (j / 8) (v % 256) in
    if not (v / 256 % 256 == 0) && ltb (j / 8 + 1) node_id_len
    then or_at id₁ (j / 8 + 1) (v / 256)
    else id₁

abbrev pub digit_or : Bytes → Option ℕ → (ℕ → Bytes × Bool) → Bytes × Bool
digit_or id none next = (id, false)
digit_or id (some digit) next = next digit

-- The id is written to until a character is none of the alphabet, as the end of the string is not.
unfoldable pub parse_loop : ℕ → ℕ → Bytes → Bytes → Bytes × Bool
unfolding base32char add_digit
parse_loop zero i id fp = (id, true)
parse_loop (suc n) i id fp =
    digit_or id (base32char (get_or fp i 0))
      (λ digit. parse_loop n (i + 1) (add_digit id (5 * i) digit) fp)

unfoldable pub parse_base32_fingerprint : Bytes → Bytes × Bool
unfolding parse_loop
parse_base32_fingerprint fp = parse_loop 52 0 (replicate node_id_len 0) fp

-- What follows the first dot.
unfoldable pub after_dot : Bytes → Option Bytes
after_dot [] = none
after_dot (c ∷ cs) = if c == 46 then some cs else after_dot cs

-- "z2bq"
abbrev pub prefix : Bytes
prefix = 122 ∷ 50 ∷ 98 ∷ 113 ∷ []

abbrev pub id_or : Option Bytes → (Bytes → Option Bytes) → Option Bytes
id_or none next = none
id_or (some rest) next = next rest

abbrev pub starts : Bytes → Bool
starts hostname = is_eq (memcmp 4 (take 4 hostname) prefix)

-- The id is told where the host name has a label that is one; each round drops a label, so that the
-- length of the name is fuel enough.
unfoldable pub hostname_loop : ℕ → Bytes → Option Bytes
unfolding parse_base32_fingerprint after_dot memcmp
hostname_loop zero hostname = none
hostname_loop (suc fuel) hostname =
    if not (ltb 56 (length hostname))
    then none
    else if starts hostname
        && (parse_base32_fingerprint (drop 4 hostname)).1
        && (get_or hostname 56 0 == 46)
    then some (parse_base32_fingerprint (drop 4 hostname)).0
    else id_or (after_dot hostname) (λ rest. hostname_loop fuel rest)

unfoldable pub parse_hostname_fingerprint : Bytes → Option Bytes
unfolding hostname_loop
parse_hostname_fingerprint hostname = hostname_loop (length hostname) hostname

-- The digit at bit j of an id; two bytes side by side are a sum.
abbrev pub digit_at : Bytes → ℕ → ℕ
digit_at id j =
    (get_or id (j / 8) 0
      + (if ltb (j / 8 + 1) node_id_len then get_or id (j / 8 + 1) 0 * 256 else 0))
    / 2 ^ (j % 8)
    % 32

unfoldable pub print_loop : ℕ → ℕ → Bytes → Bytes
print_loop zero j id = []
print_loop (suc n) j id = get_or base32 (digit_at id j) 0 ∷ print_loop n (j + 5) id

unfoldable pub print_fingerprint : Bytes → Bytes
unfolding print_loop
print_fingerprint id = print_loop 52 0 id
