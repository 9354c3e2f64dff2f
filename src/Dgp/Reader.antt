-- ===== src/Dgp/Reader.antt =====
-- dgp_reader.c: cutting the bytes of a connection into messages. The timer that ends a silent
-- connection is left out.
use dvpn.Base.{
  ℕ, zero, suc, ◌+◌, Bool, true, false, ◌==◌, ◌&&◌, if◌then◌else◌, List, [], ◌∷◌, ◌++◌, length,
  drop, Option, none, some, Result, ok, err, stuck, ◌>>=◌,
}
use dvpn.Bytes.{Bytes}
use dvpn.Lsa.Types.{Lsa}
use dvpn.Lsa.Platform.{Platform}
use dvpn.Deserialise.Decoder.{Decoded, message, need_more, malformed, lsa_deserialise}
use dvpn.AdjRibIn.Accept.{Crypto}
use dvpn.AdjRibIn.Rib.{
  Obj, AdjRibIn, set_count, put_obj, adj_rib_in_init, adj_rib_in_add_lsa, adj_rib_in_truncate,
  adj_rib_in_listener_register,
}

-- struct dgp_reader without its buffer. `next` is the address that the next advertisement is allocated
-- at, and `to_loc` is the listener that feeds the local route database, which is told what is in the
-- calls of adj_rib_in.
pub record Peering : Type 0 where
  pub myid : Option Bytes
  pub remoteid : Option Bytes
  pub adj_rib_in : AdjRibIn
  pub to_loc : ℕ
  pub next : ℕ

-- `buf` is what stands in the buffer before `bytes`.
pub record DgpReader : Type 0 where
  pub peering : Peering
  pub buf : Bytes

-- sizeof(dr->buf)
abbrev pub buf_size : ℕ
buf_size = 65536

-- What a call of read returns: bytes, of which there are none at the end of the stream, or -1 with
-- EINTR, EAGAIN or another error.
pub data SysRead : Type 0 where
  bytes : Bytes → SysRead
  interrupted try_again failed : SysRead

abbrev pub registered_rib : Peering → Option Bytes → AdjRibIn
registered_rib dr none = dr.adj_rib_in
registered_rib dr (some remoteid) =
    adj_rib_in_listener_register
      (adj_rib_in_init
        (record dr.adj_rib_in { ends = record { myid = dr.myid; remoteid = some remoteid } }))
      dr.to_loc

unfoldable pub dgp_reader_register : DgpReader → DgpReader
unfolding adj_rib_in_init adj_rib_in_listener_register
dgp_reader_register dr = record {
  peering = record dr.peering { adj_rib_in = registered_rib dr.peering dr.peering.remoteid };
  buf = [];
}

module _ (p : Platform) (crypto : Crypto) (mem : Bool) where
  -- adj_rib_in_add_lsa, whose result is not looked at, if the other end is known.
  abbrev pub add_if_known : Option Bytes → AdjRibIn → Obj → Result AdjRibIn
  add_if_known none rib o = ok rib
  add_if_known (some remoteid) rib o = adj_rib_in_add_lsa p crypto mem rib o >>= λ done. ok done.0

  -- What is done with an advertisement: the reader holds the one reference that there is to it.
  unfoldable pub on_lsa : Peering → Lsa → Result Peering
  unfolding adj_rib_in_add_lsa put_obj
  on_lsa dr lsa = do
    let o : Obj = record { addr = dr.next; lsa = lsa }
    let fresh = record dr.adj_rib_in { counts = set_count dr.adj_rib_in.counts dr.next 1 }
    rib ← add_if_known dr.remoteid fresh o
    counts ← put_obj rib.counts o
    ok (record dr { adj_rib_in = record rib { counts = counts }; next = dr.next + 1 })

  abbrev pub on_message : Peering → Option Lsa → Result Peering
  on_message dr none = ok dr
  on_message dr (some lsa) = on_lsa dr lsa

  -- The rest of the loop body: `first` is off == 0, and `rest` what stands from off.
  abbrev pub on_decoded :
      Bool
      → Peering
      → Bytes
      → (Peering → ℕ → Result (Peering × Bytes))
      → Decoded
      → Result (Peering × Bytes)
  on_decoded first dr rest continue malformed = err
  on_decoded first dr rest continue need_more =
      if first && (length rest == buf_size) then err else ok (dr, rest)
  on_decoded first dr rest continue (message lsa len) =
      on_message dr lsa >>= λ dr₁. continue dr₁ len

  -- while (off < dr->bytes); every message takes a byte at least, so the bytes are fuel enough.
  unfoldable pub messages_loop : ℕ → Bool → Peering → Bytes → Result (Peering × Bytes)
  unfolding lsa_deserialise on_lsa
  messages_loop fuel first dr [] = ok (dr, [])
  messages_loop zero first dr (b ∷ rest) = stuck
  messages_loop (suc fuel) first dr (b ∷ rest) =
      lsa_deserialise p mem (b ∷ rest)
      >>= on_decoded first dr (b ∷ rest)
          (λ dr₁ len. messages_loop fuel false dr₁ (drop len (b ∷ rest)))

  -- After a read: `bytes` is not 0.
  unfoldable pub take_bytes : DgpReader → Bytes → Result DgpReader
  unfolding messages_loop
  take_bytes dr d = do
    let all = dr.buf ++ d
    (peering, rest) ← messages_loop (length all) true dr.peering all
    ok (record { peering = peering; buf = rest })

  -- dgp_reader_read, by what the calls of read return; -1 is err.
  unfoldable pub dgp_reader_read : DgpReader → List SysRead → Result DgpReader
  unfolding take_bytes
  dgp_reader_read dr [] = stuck
  dgp_reader_read dr (interrupted ∷ reads) = dgp_reader_read dr reads
  dgp_reader_read dr (try_again ∷ reads) = ok dr
  dgp_reader_read dr (failed ∷ reads) = err
  dgp_reader_read dr (bytes [] ∷ reads) = err
  dgp_reader_read dr (bytes (b ∷ d) ∷ reads) = take_bytes dr (b ∷ d)

  abbrev pub truncate_if_known : Peering → Option Bytes → Result Peering
  truncate_if_known dr none = ok dr
  truncate_if_known dr (some remoteid) = do
    rib ← adj_rib_in_truncate p crypto dr.adj_rib_in
    ok (record dr { adj_rib_in = rib })

  unfoldable pub dgp_reader_unregister : DgpReader → Result DgpReader
  unfolding adj_rib_in_truncate
  dgp_reader_unregister dr = do
    peering ← truncate_if_known dr.peering dr.peering.remoteid
    ok (record dr { peering = peering })
