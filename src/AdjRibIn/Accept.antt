-- ===== src/AdjRibIn/Accept.antt =====
-- map of adj_rib_in.c: whether an advertisement of a neighbour is passed on.
use dvpn.Base.{
  ℕ, ◌+◌, ◌-◌, ◌%◌, Bool, true, false, not, ◌&&◌, ◌==◌, ltb, [], length, take, Option, none, some,
  Result, ok, err, aborted, ◌>>=◌, ◌>>◌,
}
use dvpn.Bytes.{Bytes, memcmp, is_eq, size_max}
use dvpn.Lsa.Types.{
  Attr, Lsa, node_id_len, attr_type_adv_path, attr_type_pubkey, attr_type_signature,
}
use dvpn.Lsa.Platform.{Platform}
use dvpn.Lsa.Build.{attr_data, lsa_find_attr}
use dvpn.Lsa.AdvPath.{lsa_path_contains}
use dvpn.Serialise.Encoder.{lsa_serialise_length, lsa_serialise}
use dvpn.Diff.Attrs.{room}

-- What the program takes from nettle and GnuTLS: SHA-256, whether gnutls_pubkey_init succeeds,
-- whether bytes are a public key in DER form, and whether a key verifies a signature of data.
pub record Crypto : Type 0 where
  pub sha256 : Bytes → Bytes
  pub pubkey_init : Bool
  pub pubkey_import : Bytes → Bool
  pub verify_data : Bytes → Bytes → Bytes → Bool

-- LSA_MAX_BYTES
abbrev pub lsa_max_bytes : ℕ
lsa_max_bytes = 32768

-- The fields of struct adj_rib_in that map reads.
pub record Ends : Type 0 where
  pub myid : Option Bytes
  pub remoteid : Option Bytes

-- A test that must hold, or else NULL is returned.
abbrev pub check : Bool → Result (Unit {0})
check true = ok tt
check false = err

-- A test that must hold, or else abort is called.
abbrev pub assert : Bool → Result (Unit {0})
assert true = ok tt
assert false = aborted

abbrev pub found : Option Attr → Result Attr
found none = err
found (some a) = ok a

abbrev pub from_remote : Option Bytes → Bytes → Bool
from_remote none path = false
from_remote (some id) path = is_eq (memcmp node_id_len id path)

-- The advertisement, with an id that a neighbour may add to its path, is not too large.
abbrev pub is_bounded : Lsa → Bool
is_bounded lsa = not (ltb lsa_max_bytes ((lsa.size + node_id_len) % (size_max + 1)))

-- The path is one node id or more.
abbrev pub is_path : Bytes → Bool
is_path path = not (ltb (length path) node_id_len) && (length path % node_id_len == 0)

module _ (p : Platform) (crypto : Crypto) where
  abbrev pub contains_me : Option Bytes → Attr → Result Bool
  contains_me none path = ok false
  contains_me (some id) path = lsa_path_contains p path id

  -- The signature over the signed part of the message.
  unfoldable pub check_signature : Lsa → Bytes → Attr → Result (Unit {0})
  check_signature lsa der sig = do
    serlen ← lsa_serialise_length lsa true none
    assert (not (ltb (65536 - 128) serlen))
    (buf, len) ← lsa_serialise (room (serlen + 128)) (serlen + 128) serlen lsa true none
    assert (not (ltb (serlen + 128) len))
    check (crypto.verify_data der (take len buf) (attr_data p sig))

  -- The path must be whole node ids, come from the neighbour, and not go through this node.
  unfoldable pub check_path : Ends → Attr → Result (Unit {0})
  check_path ends path = do
    check (is_path (attr_data p path))
    check (from_remote ends.remoteid (attr_data p path))
    loop ← contains_me ends.myid path
    check (not loop)

  abbrev pub is_key_of : Lsa → Bytes → Bool
  is_key_of lsa der = is_eq (memcmp node_id_len lsa.id (crypto.sha256 der))

  -- The key must be that which the id is made from.
  unfoldable pub check_key : Lsa → Bytes → Result (Unit {0})
  unfolding check_signature
  check_key lsa der = do
    check (is_key_of lsa der)
    check crypto.pubkey_init
    check (crypto.pubkey_import der)
    sig ← found (lsa_find_attr lsa attr_type_signature [])
    check_signature lsa der sig

  abbrev pub with_key : Lsa → Attr → Result (Unit {0})
  with_key lsa key = check_key lsa (attr_data p key)

  abbrev pub with_path : Ends → Lsa → Attr → Result (Unit {0})
  with_path ends lsa path = do
    check_path ends path
    key ← found (lsa_find_attr lsa attr_type_pubkey [])
    with_key lsa key

  -- `ok` is the advertisement itself, and `err` is NULL.
  unfoldable pub accept : Ends → Lsa → Result (Unit {0})
  unfolding check_path check_key
  accept ends lsa = do
    check (is_bounded lsa)
    path ← found (lsa_find_attr lsa attr_type_adv_path [])
    with_path ends lsa path
