-- ===== src/Dgp/Tests.antt =====
-- An advertisement on its way to a neighbour.
use dvpn.Base.{
  ◌+◌, ◌-◌, ◌^◌, ◌≤◌, ◌<◌, ◌≡◌, ◌≢◌, refl, true, false, none, some, [], ◌∷◌, ◌++◌, length, ok,
  ◌>>=◌, arith, replicate,
}
use dvpn.Bytes.{memcmp, Bytes}
use dvpn.Avl.Walk.{leaf, in_order}
use dvpn.Lsa.Types.{AttrTree, nodes}
use dvpn.Lsa.Platform.{lp64}
use dvpn.Lsa.Build.{lsa_find_attr, attr_data}
use dvpn.Lsa.Compare.{lsa_attr_compare_keys}
use dvpn.Lsa.Totals.{tree_total, own_total}
use dvpn.Lsa.Insert.{IsKeyed}
use dvpn.Lsa.View.{view}
use dvpn.Serialise.Dst.{int_bytes, seven_bit_groups, skip_empty}
use dvpn.Serialise.Encoding.{attr_code, attrs_code}
use dvpn.Serialise.Message.{body}
use dvpn.Deserialise.Decoder.{need_more, lsa_deserialise}
use dvpn.Deserialise.Prefix.{lsa_deserialise-append}
use dvpn.Deserialise.RoundTrip.{TreeFits, copy_with}
use dvpn.Deserialise.Src.{read_size, read_first, read_groups}
use dvpn.AdjRibIn.Accept.{Crypto}
use dvpn.LocRib.Tests.{me, near_lsa}
use dvpn.Dgp.Reader.{DgpReader, on_lsa, take_bytes}
use dvpn.Dgp.Cut.{take_bytes-append}
use dvpn.Dgp.Writer.{DgpWriter, visible, dgp_writer_output_lsa}
use dvpn.Dgp.Hop.{through, hop, output_lsa-take_bytes}

abbrev crypto : Crypto
crypto = record {
  sha256 = λ d. replicate 32 7;
  pubkey_init = true;
  pubkey_import = λ d. true;
  verify_data = λ k d s. true;
}

abbrev neighbour : Bytes
neighbour = replicate 32 9

abbrev reader : DgpReader
reader = record {
  peering = record {
    myid = some neighbour;
    remoteid = some me;
    adj_rib_in = record {
      ends = record { myid = some neighbour; remoteid = some me };
      lsas = leaf;
      size = 0;
      listeners = 0 ∷ [];
      counts = λ a. 0;
      calls = [];
    };
    to_loc = 0;
    next = 1;
  };
  buf = [];
}

take_bytes-append_example : take_bytes lp64 crypto true reader ((0 ∷ 40 ∷ []) ++ (7 ∷ [])) ≡ (
    take_bytes lp64 crypto true reader (0 ∷ 40 ∷ []) >>= λ dr.
    take_bytes lp64 crypto true dr (7 ∷ []))
take_bytes-append_example =
    take_bytes-append lp64 crypto true reader (0 ∷ 40 ∷ []) (7 ∷ []) (omega arith) (omega arith)

keepalive_lem : lsa_deserialise lp64 true (0 ∷ []) ≢ ok need_more
unfolding lsa_deserialise read_size read_first read_groups
keepalive_lem = λ e. cc

lsa_deserialise-append_example :
    lsa_deserialise lp64 true ((0 ∷ []) ++ (5 ∷ [])) ≡ lsa_deserialise lp64 true (0 ∷ [])
lsa_deserialise-append_example = lsa_deserialise-append (5 ∷ []) lp64 true (0 ∷ []) keepalive_lem

abbrev writer : DgpWriter
writer = record { myid = some me; remoteid = some neighbour; sent = []; room = []; io_errors = 0 }

near_visible : visible lp64 writer (some near_lsa) ≡ ok (some near_lsa)
unfolding visible lsa_find_attr lsa_attr_compare_keys memcmp attr_data
near_visible = refl

near_small : length (body near_lsa false (some me)) ≤ 65536 - 128
unfolding attrs_code attr_code int_bytes seven_bit_groups skip_empty
near_small = omega arith

near-IsKeyed : IsKeyed (through me near_lsa.root)
unfolding through nodes in_order lsa_attr_compare_keys
near-IsKeyed = ((refl, tt), (tt, tt))

near_fits : TreeFits 8 (through me near_lsa.root)
unfolding through nodes in_order lsa_attr_compare_keys
near_fits = (
  tt,
  (omega arith, omega arith, tt),
  (
    tt,
    (
      omega arith,
      omega arith,
      (
        ((refl, tt), (tt, tt)),
        (tt, (omega arith, omega arith, tt), (tt, (omega arith, omega arith, tt), tt)),
      ),
    ),
    tt,
  ),
)

near_room : 42 + tree_total (through me near_lsa.root) < 2 ^ 32
unfolding through tree_total own_total
near_room = omega arith

output_lsa-take_bytes_example :
    (d : Bytes) × (root : AttrTree) × (dgp_writer_output_lsa lp64 writer none (some near_lsa)
      ≡ ok (record writer { sent = [] ++ d }, false))
    × (take_bytes lp64 crypto true reader d ≡ (
        on_lsa lp64 crypto true reader.peering (copy_with lp64 (hop me near_lsa) [] root)
        >>= λ peering. ok (record { peering = peering; buf = [] })))
    × (view root ≡ view (through me near_lsa.root))
output_lsa-take_bytes_example =
    output_lsa-take_bytes lp64 crypto writer reader none near_lsa me refl refl refl refl refl
      near_visible near_small near-IsKeyed near_fits near_room
