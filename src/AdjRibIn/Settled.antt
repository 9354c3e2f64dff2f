-- ===== src/AdjRibIn/Settled.antt =====
-- An advertisement that counts its attributes is accepted or refused, and never ends the program.
use dvpn.Base.{
  ℕ, zero, suc, ◌+◌, ◌-◌, ◌%◌, ◌≤◌, ◌≡◌, refl, sym, Bool, true, false, not, ltb, [], ◌∷◌, ◌++◌,
  length, length-drop, length-append, length-replicate, subst, drop, Option, none, some, Result, ok,
  err, aborted, fault, stuck, ◌>>=◌, ◌>>◌, arith, Bool-cases, inl, inr, Ordering,
}
use dvpn.Bytes.{Bytes, memcmp, is_eq, size_max}
use dvpn.Lsa.Types.{
  Attr, attr_type, Lsa, nodes, node_id_len, attr_type_adv_path, attr_type_pubkey,
  attr_type_signature,
}
use dvpn.Lsa.Platform.{Platform}
use dvpn.Lsa.Totals.{IsCounted}
use dvpn.Avl.Walk.{Tree, leaf, node, walk}
use dvpn.Lsa.Compare.{lsa_attr_compare_keys, compare_keys-eq}
use dvpn.Lsa.Build.{attr_data, lsa_find_attr, lsa_attr_set_find_attr, search_key}
use dvpn.Lsa.AdvPath.{path_loop, lsa_path_contains}
use dvpn.Serialise.Encoder.{lsa_serialise}
use dvpn.Serialise.Message.{message, body, lsa_serialise_length-body, lsa_serialise-message}
use dvpn.Serialise.Bound.{message-le-size}
use dvpn.Serialise.Dst.{int_bytes}
use dvpn.Serialise.Varint.{length-int_bytes}
use dvpn.Deserialise.ReadAttr.{take_front}
use dvpn.Diff.Attrs.{room}
use dvpn.AdjRibIn.Accept.{
  Crypto, Ends, check, assert, found, from_remote, contains_me, check_signature, check_path,
  check_key, with_path, with_key, is_bounded, is_path, is_key_of, accept,
}

-- It returns, and no abort is called and no null pointer read on the way.
abbrev pub Settles {ℓ} : {A : Type ℓ} → Result A → Type 0
Settles (ok a) = Unit
Settles err = Unit
Settles aborted = ⊥
Settles fault = ⊥
Settles stuck = ⊥

Settles-bind :
    {A B : Type 0} (m : Result A) (f : A → Result B)
    → Settles m
    → ((a : A) → m ≡ ok a → Settles (f a))
    → Settles (m >>= f)
Settles-bind (ok a) f h k = k a refl
Settles-bind err f h k = tt
Settles-bind aborted f h k = h
Settles-bind fault f h k = h
Settles-bind stuck f h k = h

-- A test, and what is done after it if it holds.
Settles-check :
    {A : Type 0} (b : Bool) (rest : Result A)
    → (b ≡ true → Settles rest)
    → Settles (check b >> rest)
Settles-check true rest h = h refl
Settles-check false rest h = tt

Settles-found :
    {A : Type 0} (o : Option Attr) (f : Attr → Result A)
    → ((a : Attr) → o ≡ some a → Settles (f a))
    → Settles (found o >>= f)
Settles-found none f h = tt
Settles-found (some a) f h = h a refl

check-Settles : (b : Bool) → Settles (check b)
check-Settles true = tt
check-Settles false = tt

path_loop-Settles :
    (fuel : ℕ) (data' id : Bytes)
    → length data' ≤ fuel
    → length data' % node_id_len ≡ 0
    → Settles (path_loop fuel data' id)
unfolding path_loop
path_loop-Settles zero [] id h m = tt
path_loop-Settles (suc fuel) [] id h m = tt
path_loop-Settles zero (b ∷ bs) id h m = absurd (omega arith)
path_loop-Settles (suc fuel) (b ∷ bs) id h m =
    let long : ltb (length (b ∷ bs)) node_id_len ≡ false = ground arith in
    let left = length-drop node_id_len (b ∷ bs) in
    let ih = path_loop-Settles fuel (drop node_id_len (b ∷ bs)) id (omega arith) (omega arith) in
    elim (Bool-cases (is_eq (memcmp node_id_len (b ∷ bs) id))) [
      | inl e ↦ rw (long, e) tt
      | inr e ↦ rw (long, e) ih
    ]

assert-true : (b : Bool) → b ≡ true → assert b ≡ ok tt
assert-true true e = refl
assert-true false e = cc

module _ (p : Platform) (crypto : Crypto) (lsa : Lsa) where
  -- The buffer of map has room for the signed part.
  serialised :
      length (body lsa true none) ≤ 65408
      → lsa_serialise
          (room (length (body lsa true none) + 128))
          (length (body lsa true none) + 128)
          (length (body lsa true none))
          lsa
          true
          none
        ≡ ok (
          message lsa true none
              ++ drop (length (message lsa true none)) (room (length (body lsa true none) + 128)),
          length (message lsa true none),
        )
  serialised h =
      let n = length (body lsa true none) in
      let m = message lsa true none in
      let l = length-append (int_bytes n) (body lsa true none) in
      let r : length (room (n + 128)) ≡ n + 128 = length-replicate {A = ℕ} (n + 128) 0 in
      subst
        (λ k.
          lsa_serialise (room (n + 128)) k n lsa true none
          ≡ ok (m ++ drop (length m) (room (n + 128)), length m))
        r
        (lsa_serialise-message lsa true none (room (n + 128)) (omega arith)
          (omega (arith, length-int_bytes n)))

  -- map verifies the signature of the serialised signed part.
  pub signature_lem :
      (der : Bytes) (sig : Attr)
      → length lsa.id ≡ node_id_len
      → length (body lsa true none) ≤ 65408
      → check_signature p crypto lsa der sig
        ≡ check (crypto.verify_data der (message lsa true none) (attr_data p sig))
  unfolding check_signature
  signature_lem der sig i h =
      let n = length (body lsa true none) in
      let m = message lsa true none in
      let l = length-append (int_bytes n) (body lsa true none) in
      rw (lsa_serialise_length-body lsa true none i (omega arith)) (
        rw (assert-true (not (ltb (65536 - 128) n)) (ground arith)) (
          rw (serialised h) (
            rw (assert-true (not (ltb (n + 128) (length m))) (ground (arith, length-int_bytes n)))
              (rw (take_front m (drop (length m) (room (n + 128)))) refl))))

walk-is_eq :
    {A : Type 0} (probe : A → Ordering) (t : Tree A) (a : A)
    → walk probe t ≡ some a
    → probe a ≡ Ordering.eq
unfolding walk
walk-is_eq probe leaf a h = absurd (ground arith)
walk-is_eq probe (node l b r) a h = ground (arith, walk-is_eq probe l a, walk-is_eq probe r a)

-- What is found has the type that was sought.
find_attr-attr_type :
    (lsa : Lsa) (type : ℕ) (a : Attr) → lsa_find_attr lsa type [] ≡ some a → attr_type a ≡ type
unfolding lsa_find_attr lsa_attr_set_find_attr
find_attr-attr_type lsa type a h =
    sym
      (compare_keys-eq (search_key type []) a
        (walk-is_eq (lsa_attr_compare_keys (search_key type [])) (nodes lsa.root) a h)).0

module _ (p : Platform) (crypto : Crypto) (ends : Ends) (lsa : Lsa) where
  contains_me-Settles :
      (me : Option Bytes) (path : Attr)
      → attr_type path ≡ attr_type_adv_path
      → length (attr_data p path) % node_id_len ≡ 0
      → Settles (contains_me p crypto me path)
  unfolding lsa_path_contains
  contains_me-Settles none path t m = tt
  contains_me-Settles (some id) path t m =
      rw t (path_loop-Settles (length (attr_data p path)) (attr_data p path) id (omega arith) m)

  check_path-Settles :
      (path : Attr) → attr_type path ≡ attr_type_adv_path → Settles (check_path p crypto ends path)
  unfolding check_path
  check_path-Settles path t = Settles-check (is_path (attr_data p path)) _ λ e.
      Settles-check (from_remote ends.remoteid (attr_data p path)) _ λ f.
        Settles-bind (contains_me p crypto ends.myid path) (λ loop. check (not loop))
          (contains_me-Settles ends.myid path t (ground arith)) λ loop g. check-Settles (not loop)

  check_key-Settles :
      (der : Bytes)
      → length lsa.id ≡ node_id_len
      → length (body lsa true none) ≤ 65408
      → Settles (check_key p crypto lsa der)
  unfolding check_key
  check_key-Settles der i h = Settles-check (is_key_of p crypto lsa der) _ λ e.
      Settles-check crypto.pubkey_init _ λ f. Settles-check (crypto.pubkey_import der) _ λ g.
        Settles-found (lsa_find_attr lsa attr_type_signature []) (check_signature p crypto lsa der)
          λ sig j.
            rw (signature_lem p crypto lsa der sig i h)
              (check-Settles (crypto.verify_data der (message lsa true none) (attr_data p sig)))

  -- An advertisement that counts its attributes, at most SIZE_MAX - 32 bytes, and has a 32 byte id
  -- is accepted or refused, whatever it holds: no abort of map, of the serialiser or of the path
  -- search is reached, and no byte behind the path is read.
  pub accept-Settles :
      IsCounted lsa
      → length lsa.id ≡ node_id_len
      → lsa.size + node_id_len ≤ size_max
      → Settles (accept p crypto ends lsa)
  unfolding accept
  accept-Settles c i h = Settles-check (is_bounded lsa) _ λ e.
      Settles-found (lsa_find_attr lsa attr_type_adv_path []) (with_path p crypto ends lsa)
        λ path f.
          Settles-bind (check_path p crypto ends path) _
            (check_path-Settles path (find_attr-attr_type lsa attr_type_adv_path path f))
            λ v g.
              Settles-found (lsa_find_attr lsa attr_type_pubkey []) (with_key p crypto lsa) λ key j.
                check_key-Settles (attr_data p key) i (
                  let le = message-le-size lsa true c i in
                  let l =
                    length-append (int_bytes (length (body lsa true none))) (body lsa true none) in
                  ground (arith, le, l))
