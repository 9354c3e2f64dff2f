-- ===== src/AdjRibIn/Valid.antt =====
-- What an accepted advertisement has.
use dvpn.Base.{
  ◌+◌, ◌≤◌, ◌≡◌, refl, ◌∙◌, sym, Bool, true, false, not, [], length, length-append, Option, none,
  some, Result, ok, err, aborted, fault, stuck, ◌>>=◌, ◌>>◌, arith,
}
use dvpn.Bytes.{size_max}
use dvpn.Lsa.Types.{
  Attr, Lsa, node_id_len, attr_type_adv_path, attr_type_pubkey, attr_type_signature,
}
use dvpn.Lsa.Platform.{Platform}
use dvpn.Lsa.Totals.{IsCounted}
use dvpn.Lsa.Build.{attr_data, lsa_find_attr}
use dvpn.Serialise.Dst.{int_bytes}
use dvpn.Serialise.Message.{message, body}
use dvpn.Serialise.Bound.{message-le-size}
use dvpn.AdjRibIn.Accept.{
  Crypto, Ends, check, found, from_remote, contains_me, check_signature, check_path, check_key,
  with_path, with_key, is_bounded, is_path, is_key_of, accept,
}
use dvpn.AdjRibIn.Settled.{signature_lem}

module _ {A : Type 0} (u : A) where
  check-then : (b : Bool) (rest : Result A) → (check b >> rest) ≡ ok u → (b ≡ true) × (rest ≡ ok u)
  check-then true rest h = (refl, h)
  check-then false rest h = cc

  found-then :
      (o : Option Attr) (f : Attr → Result A)
      → (found o >>= f) ≡ ok u
      → (a : Attr) × (o ≡ some a) × (f a ≡ ok u)
  found-then none f h = cc
  found-then (some a) f h = (a, refl, h)

bool-then : (m : Result Bool) (u : Unit {0}) → (m >>= λ b. check (not b)) ≡ ok u → m ≡ ok false
bool-then (ok true) u h = cc
bool-then (ok false) u h = refl
bool-then err u h = cc
bool-then aborted u h = cc
bool-then fault u h = cc
bool-then stuck u h = cc

check_then_ok : (b : Bool) (u : Unit {0}) → check b ≡ ok u → b ≡ true
check_then_ok true u h = refl
check_then_ok false u h = cc

unit_then :
    (m : Result (Unit {0})) (rest : Result (Unit {0}))
    → (m >> rest) ≡ ok tt
    → (m ≡ ok tt) × (rest ≡ ok tt)
unit_then (ok u) rest h = (refl, h)
unit_then err rest h = cc
unit_then aborted rest h = cc
unit_then fault rest h = cc
unit_then stuck rest h = cc

module _ (p : Platform) (crypto : Crypto) (ends : Ends) (lsa : Lsa) where
  -- The tests that the path passes.
  abbrev pub PathFits : Attr → Type 0
  PathFits path =
      (is_path (attr_data p path) ≡ true)
      × (from_remote ends.remoteid (attr_data p path) ≡ true)
      × (contains_me p crypto ends.myid path ≡ ok false)

  -- The tests that key and signature pass.
  abbrev pub KeyFits : Attr → Attr → Type 0
  KeyFits key sig =
      (is_key_of p crypto lsa (attr_data p key) ≡ true)
      × (crypto.pubkey_init ≡ true)
      × (crypto.pubkey_import (attr_data p key) ≡ true)
      × (crypto.verify_data (attr_data p key) (message lsa true none) (attr_data p sig) ≡ true)

  -- A path that starts with the neighbour and does not lead through this node, a key whose hash is the
  -- id, and a signature of the signed part by that key.
  abbrev pub Valid : Type 0
  Valid =
      (is_bounded lsa ≡ true)
      × (path : Attr) × (key : Attr) × (sig : Attr) × (lsa_find_attr lsa attr_type_adv_path []
          ≡ some path)
      × (lsa_find_attr lsa attr_type_pubkey [] ≡ some key)
      × (lsa_find_attr lsa attr_type_signature [] ≡ some sig)
      × PathFits path
      × KeyFits key sig

  path_fits : (path : Attr) → check_path p crypto ends path ≡ ok tt → PathFits path
  unfolding check_path
  path_fits path h =
      let (b, h₁) = check-then tt (is_path (attr_data p path)) _ h in
      let (c, h₂) = check-then tt (from_remote ends.remoteid (attr_data p path)) _ h₁ in
      (b, c, bool-then (contains_me p crypto ends.myid path) tt h₂)

  key_fits :
      (key : Attr)
      → length lsa.id ≡ node_id_len
      → length (body lsa true none) ≤ 65408
      → check_key p crypto lsa (attr_data p key) ≡ ok tt
      → (sig : Attr) × (lsa_find_attr lsa attr_type_signature [] ≡ some sig) × KeyFits key sig
  unfolding check_key
  key_fits key i small h =
      let der = attr_data p key in
      let (a, h₁) = check-then tt (is_key_of p crypto lsa der) _ h in
      let (b, h₂) = check-then tt crypto.pubkey_init _ h₁ in
      let (c, h₃) = check-then tt (crypto.pubkey_import der) _ h₂ in
      let (sig, f, h₄) =
        found-then tt (lsa_find_attr lsa attr_type_signature []) (check_signature p crypto lsa der)
          h₃ in
      let v = sym (signature_lem p crypto lsa der sig i small) ∙ h₄ in
      (sig, f, (a, b, c, check_then_ok _ tt v))

  -- Of the advertisements that count their attributes, at most SIZE_MAX - 32 bytes, and have a 32
  -- byte id, map returns exactly those that are within LSA_MAX_BYTES, whose path is of whole ids, starts
  -- with the neighbour and does not lead through this node, whose key is one that GnuTLS reads and hashes
  -- to their id, and whose signature that key verifies for the message of their signed part.
  pub accept-Valid :
      IsCounted lsa
      → length lsa.id ≡ node_id_len
      → lsa.size + node_id_len ≤ size_max
      → (accept p crypto ends lsa ≡ ok tt → Valid) × (Valid → accept p crypto ends lsa ≡ ok tt)
  unfolding accept check_path check_key
  accept-Valid c i room =
      let le = message-le-size lsa true c i in
      let l = length-append (int_bytes (length (body lsa true none))) (body lsa true none) in
      (
        (λ h.
            let (b, h₁) = check-then tt (is_bounded lsa) _ h in
            let (path, f, h₂) =
              found-then tt (lsa_find_attr lsa attr_type_adv_path []) (with_path p crypto ends lsa)
                h₁ in
            let (h₃, h₄) = unit_then (check_path p crypto ends path) _ h₂ in
            let (key, g, h₅) =
              found-then tt (lsa_find_attr lsa attr_type_pubkey []) (with_key p crypto lsa) h₄ in
            let (sig, s, k) = key_fits key i (ground (arith, le, l)) h₅ in
            (b, path, key, sig, f, g, s, path_fits path h₃, k)),
        (λ (b, path, key, sig, f, g, s, (x, y, z), (a, b', c', v)).
            rw (b, f)
              (rw (x, y, z)
                (rw g (
                  rw (a, b', c', s)
                    (rw (signature_lem p crypto lsa (attr_data p key) sig i (ground (arith, le, l)))
                      (rw v refl)))))),
      )
