-- ===== src/Daemon/Own.antt =====
-- What dvpn.c does with the advertisement of this node.
use dvpn.Base.{
  ℕ, ◌+◌, ◌-◌, ◌*◌, ◌/◌, ◌%◌, ◌^◌, Bool, true, false, ltb, if◌then◌else◌, [], ◌∷◌, ◌++◌, length,
  take, Option, none, some, Result, ok, err, aborted, fault, stuck, ◌>>=◌,
}
use dvpn.Bytes.{Bytes, big_endian}
use dvpn.Avl.Walk.{Tree, walk}
use dvpn.Bytes.{memcmp}
use dvpn.Lsa.Types.{
  Attr, AttrTree, empty, Lsa, node_id_len, attr_type_peer, attr_type_version, attr_type_pubkey,
  attr_type_signature,
}
use dvpn.Lsa.Platform.{Platform}
use dvpn.Lsa.Build.{
  attr_data, lsa_find_attr, lsa_add_attr, lsa_add_attr_set, lsa_attr_set_add_attr, lsa_del_attr,
  lsa_del_attr_bykey, put_child,
}
use dvpn.Lsa.Clone.{lsa_clone}
use dvpn.Lsa.Peer.{peer_attr_type_metric, peer_attr_type_peer_flags}
use dvpn.Serialise.Encoder.{lsa_serialise_length, lsa_serialise}
use dvpn.AdjRibIn.Rib.{Obj, set_count, put_obj}
use dvpn.LocRib.State.{LocRib}
use dvpn.LocRib.Update.{loc_rib_mod_lsa}
use dvpn.ConfDiff.Entries.{PeerType, invalid, dbonly, epeer, customer, transit, ipeer}
use dvpn.Dgp.Writer.{fresh_buffer}

-- What GnuTLS makes with the key of this node: its public key, and the signature of some bytes; `none`
-- is an error of one of the calls.
pub record NodeKey : Type 0 where
  pub der_pubkey : Option Bytes
  pub signature : Bytes → Option Bytes

-- The variables me and loc_rib; `next` is the address of the next advertisement that is made.
pub record Own : Type 0 where
  pub me : Obj
  pub loc_rib : LocRib
  pub next : ℕ

unfoldable pub conf_peer_type_to_lsa_peer_flags : PeerType → Result ℕ
conf_peer_type_to_lsa_peer_flags epeer = ok 0
conf_peer_type_to_lsa_peer_flags customer = ok 1
conf_peer_type_to_lsa_peer_flags transit = ok 2
conf_peer_type_to_lsa_peer_flags ipeer = ok 3
conf_peer_type_to_lsa_peer_flags invalid = aborted
conf_peer_type_to_lsa_peer_flags dbonly = aborted

-- htons and htonl, as bytes in memory.
abbrev pub be16 : ℕ → Bytes
be16 n = n / 256 % 256 ∷ n % 256 ∷ []

abbrev pub be32 : ℕ → Bytes
be32 n = n / 2 ^ 24 % 256 ∷ n / 2 ^ 16 % 256 ∷ n / 2 ^ 8 % 256 ∷ n % 256 ∷ []

abbrev pub version_bytes : ℕ → Bytes
version_bytes v = be32 (v / 2 ^ 32 % 2 ^ 32) ++ be32 (v % 2 ^ 32)

-- A result that is not looked at: where lsa_add_attr returns -1, nothing was added.
abbrev pub or_as_before : Lsa → Result Lsa → Result Lsa
or_as_before lsa (ok l) = ok l
or_as_before lsa err = ok lsa
or_as_before lsa aborted = aborted
or_as_before lsa fault = fault
or_as_before lsa stuck = stuck

module _ (p : Platform) where
  unfoldable pub lsa_add_version : Lsa → ℕ → Result Lsa
  unfolding lsa_add_attr
  lsa_add_version lsa version =
      or_as_before lsa (lsa_add_attr p lsa attr_type_version true [] (version_bytes version))

  -- time(NULL) << 8, in 64 bits, or one more than the version so far.
  abbrev pub next_version : ℕ → ℕ → ℕ
  next_version now cur =
      let t64 = now * 256 % 2 ^ 64 in if ltb cur t64 then t64 else (cur + 1) % 2 ^ 64

  -- The first eight bytes of the attribute are read, whatever its length.
  abbrev pub version_at : Attr → Result ℕ
  version_at a =
      if ltb (length (attr_data p a)) 8 then fault else ok (big_endian 0 (take 8 (attr_data p a)))

  abbrev pub update_at : ℕ → Lsa → Option Attr → Result Lsa
  update_at now lsa none = aborted
  update_at now lsa (some a) = do
    cur ← version_at a
    lsa₁ ← lsa_del_attr p lsa a
    lsa_add_version lsa₁ (next_version now cur)

  unfoldable pub lsa_update_version : ℕ → Lsa → Result Lsa
  unfolding lsa_find_attr lsa_del_attr lsa_add_version big_endian
  lsa_update_version now lsa = update_at now lsa (lsa_find_attr lsa attr_type_version [])

  unfoldable pub lsa_initial_version : ℕ → Lsa → Result Lsa
  unfolding lsa_add_version
  lsa_initial_version now lsa = lsa_add_version lsa ((now + 1) * 256 % 2 ^ 64)

  abbrev pub add_der : Lsa → Option Bytes → Result Lsa
  add_der lsa none = aborted
  add_der lsa (some key) = or_as_before lsa (lsa_add_attr p lsa attr_type_pubkey true [] key)

  unfoldable pub lsa_add_pubkey : NodeKey → Lsa → Result Lsa
  unfolding lsa_add_attr
  lsa_add_pubkey key lsa = add_der lsa key.der_pubkey

  abbrev pub without_signature : Lsa → Option Attr → Result Lsa
  without_signature lsa none = ok lsa
  without_signature lsa (some a) = lsa_del_attr p lsa a

  abbrev pub add_signature : Lsa → Option Bytes → Result Lsa
  add_signature lsa none = aborted
  add_signature lsa (some sig) =
      or_as_before lsa (lsa_add_attr p lsa attr_type_signature false [] sig)

  unfoldable pub lsa_sign : NodeKey → Lsa → Result Lsa
  unfolding lsa_find_attr lsa_del_attr lsa_add_attr lsa_serialise_length lsa_serialise
  lsa_sign key lsa = do
    lsa₁ ← without_signature lsa (lsa_find_attr lsa attr_type_signature [])
    serlen ← lsa_serialise_length lsa₁ true none
    let buflen = serlen + 128
    (buf, len) ←
        (if ltb (65536 - 128) serlen
          then aborted
          else lsa_serialise (fresh_buffer buflen) buflen serlen lsa₁ true none)
    if ltb buflen len then aborted else add_signature lsa₁ (key.signature (take len buf))

  -- A null pointer to an advertisement or a set is read as soon as it is used.
  abbrev pub or_null : {A : Type 0} → Result A → Result A
  or_null err = fault
  or_null r = r

  abbrev pub cloned_lsa : Option Lsa → Result Lsa
  cloned_lsa none = fault
  cloned_lsa (some lsa) = ok lsa

  -- The end of mylsa_add_peer and mylsa_del_peer.
  unfoldable pub replace_me : NodeKey → ℕ → Own → Lsa → Result Own
  unfolding lsa_update_version lsa_sign loc_rib_mod_lsa put_obj
  replace_me key now own lsa = do
    lsa₁ ← lsa_update_version now lsa
    lsa₂ ← lsa_sign key lsa₁
    let o : Obj = record { addr = own.next; lsa = lsa₂ }
    let rib = record own.loc_rib { counts = set_count own.loc_rib.counts own.next 1 }
    rib₁ ← loc_rib_mod_lsa p rib own.me o
    counts ← put_obj rib₁.counts own.me
    ok (record { me = o; loc_rib = record rib₁ { counts = counts }; next = own.next + 1 })

  -- Where lsa_attr_set_add_attr returns -1, which is not looked at, nothing was added.
  abbrev pub or_kept : Lsa × AttrTree → Result (Lsa × AttrTree) → Result (Lsa × AttrTree)
  or_kept old (ok new) = ok new
  or_kept old err = ok old
  or_kept old aborted = aborted
  or_kept old fault = fault
  or_kept old stuck = stuck

  -- The two attributes of the set of a peer.
  unfoldable pub peer_set : Lsa → ℕ → ℕ → Result (Lsa × AttrTree)
  unfolding lsa_attr_set_add_attr
  peer_set lsa metric flags = do
    (lsa₁, set₁) ←
        or_kept (lsa, empty)
          (lsa_attr_set_add_attr p lsa empty peer_attr_type_metric true [] (be16 (metric % 2 ^ 16)))
    or_kept (lsa₁, set₁)
        (lsa_attr_set_add_attr p lsa₁ set₁ peer_attr_type_peer_flags true [] (flags ∷ []))

  unfoldable pub with_peer : Lsa → Bytes → PeerType → ℕ → Result Lsa
  unfolding lsa_add_attr_set peer_set conf_peer_type_to_lsa_peer_flags put_child
  with_peer lsa id type cost = do
    lsa₁ ← or_null (lsa_add_attr_set p lsa attr_type_peer true (take node_id_len id))
    flags ← conf_peer_type_to_lsa_peer_flags type
    (lsa₂, set) ← peer_set lsa₁ cost flags
    ok (record lsa₂ { root = put_child attr_type_peer (take node_id_len id) set lsa₂.root })

  unfoldable pub mylsa_add_peer : Bool → NodeKey → ℕ → Own → Bytes → PeerType → ℕ → Result Own
  unfolding lsa_clone with_peer replace_me
  mylsa_add_peer mem key now own id type cost = do
    new ← lsa_clone p mem own.me.lsa
    lsa ← cloned_lsa new
    lsa₁ ← with_peer lsa id type cost
    replace_me key now own lsa₁

  unfoldable pub mylsa_del_peer : Bool → NodeKey → ℕ → Own → Bytes → Result Own
  unfolding lsa_clone lsa_del_attr_bykey replace_me
  mylsa_del_peer mem key now own id = do
    new ← lsa_clone p mem own.me.lsa
    lsa ← cloned_lsa new
    lsa₁ ← lsa_del_attr_bykey p lsa attr_type_peer (take node_id_len id)
    replace_me key now own lsa₁

-- struct direct_peer
pub record DirectPeer : Type 0 where
  pub addr : Bytes
  pub itfname : Bytes

unfoldable pub dp_find : Tree DirectPeer → Bytes → Option DirectPeer
unfolding walk memcmp
dp_find peers addr = walk (λ dp. memcmp 16 addr dp.addr) peers
