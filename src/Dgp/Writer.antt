-- ===== src/Dgp/Writer.antt =====
-- dgp_writer.c: the messages that a neighbour is sent. The timer that keeps the connection alive is left
-- out, but what its handler sends is not, and so is the corking of the socket.
use dvpn.Base.{
  ℕ, ◌+◌, ◌-◌, Bool, true, false, ltb, if◌then◌else◌, List, [], ◌∷◌, ◌++◌, length, take, replicate,
  Option, none, some, Result, ok, aborted, ◌>>=◌,
}
use dvpn.Bytes.{Bytes}
use dvpn.Avl.Walk.{Tree, leaf, node, in_order}
use dvpn.Lsa.Types.{Attr, Lsa, AttrTree, attr_type_adv_path}
use dvpn.Lsa.Platform.{Platform}
use dvpn.Lsa.Build.{lsa_find_attr}
use dvpn.Lsa.AdvPath.{lsa_path_contains}
use dvpn.Serialise.Encoder.{lsa_serialise_length, lsa_serialise}
use dvpn.AdjRibIn.Rib.{Obj, RibEvent, lsa_add, lsa_mod, lsa_del}
use dvpn.LocRib.State.{RibId}

-- struct dgp_writer: `sent` is what has been written to the socket; `room` is how many bytes each of the
-- coming calls of write takes, and all calls after those take all; `io_errors` counts the calls of
-- io_error.
pub record DgpWriter : Type 0 where
  pub myid : Option Bytes
  pub remoteid : Option Bytes
  pub sent : Bytes
  pub room : List ℕ
  pub io_errors : ℕ

-- write(dw->fd, d, length d), and io_error if not all was written. The result is true for 1.
abbrev pub write_some : DgpWriter → Bytes → List ℕ → DgpWriter × Bool
write_some dw d [] = (record dw { sent = dw.sent ++ d }, false)
write_some dw d (n ∷ ns) =
    if ltb n (length d)
    then (record dw { sent = dw.sent ++ take n d; room = ns; io_errors = dw.io_errors + 1 }, true)
    else (record dw { sent = dw.sent ++ d; room = ns }, false)

unfoldable pub write_bytes : DgpWriter → Bytes → DgpWriter × Bool
write_bytes dw d = write_some dw d dw.room

unfoldable pub dgp_writer_send_keepalive : DgpWriter → DgpWriter × Bool
unfolding write_bytes
dgp_writer_send_keepalive dw = write_bytes dw (0 ∷ [])

-- The stack buffer holds anything before it is written to.
abbrev pub fresh_buffer : ℕ → Bytes
fresh_buffer n = replicate n 0

abbrev pub dummy : Lsa → Lsa
dummy old = record { refcount = 0; size = 0; id = old.id; root = AttrTree.empty }

module _ (p : Platform) where
  abbrev pub unless_through : Option Bytes → Lsa → Attr → Result (Option Lsa)
  unless_through none lsa a = ok (some lsa)
  unless_through (some remoteid) lsa a = do
    loop ← lsa_path_contains p a remoteid
    ok (if loop then none else some lsa)

  abbrev pub with_adv_path : Option Bytes → Lsa → Option Attr → Result (Option Lsa)
  with_adv_path remoteid lsa none = ok none
  with_adv_path remoteid lsa (some a) = unless_through remoteid lsa a

  -- map: what the neighbour may see.
  unfoldable pub visible : DgpWriter → Option Lsa → Result (Option Lsa)
  unfolding lsa_path_contains
  visible dw none = ok none
  visible dw (some lsa) = with_adv_path dw.remoteid lsa (lsa_find_attr lsa attr_type_adv_path [])

  -- The end of dgp_writer_output_lsa.
  unfoldable pub send_lsa : DgpWriter → Lsa → Result (DgpWriter × Bool)
  unfolding write_bytes
  send_lsa dw lsa = do
    serlen ← lsa_serialise_length lsa false dw.myid
    let buflen = serlen + 128
    let buf = fresh_buffer buflen
    (buf', len) ←
        (if ltb (65536 - 128) serlen
          then aborted
          else lsa_serialise buf buflen serlen lsa false dw.myid)
    if ltb buflen len then aborted else ok (write_bytes dw (take len buf'))

  abbrev pub withdraw : DgpWriter → Option Lsa → Option Lsa → Result (DgpWriter × Bool)
  withdraw dw old none = ok (dw, false)
  withdraw dw none (some seen) = ok (dw, false)
  withdraw dw (some old) (some seen) = send_lsa dw (dummy old)

  abbrev pub output : DgpWriter → Option Lsa → Option Lsa → Result (DgpWriter × Bool)
  output dw old none = do seen ← visible dw old; withdraw dw old seen
  output dw old (some lsa) = send_lsa dw lsa

  -- The result is true for 1, the answer where write did not take the message.
  unfoldable pub dgp_writer_output_lsa :
      DgpWriter → Option Lsa → Option Lsa → Result (DgpWriter × Bool)
  unfolding visible send_lsa
  dgp_writer_output_lsa dw old new = do new' ← visible dw new; output dw old new'

  -- dgp_writer_lsa_add, dgp_writer_lsa_mod and dgp_writer_lsa_del.
  unfoldable pub on_loc_event : DgpWriter → RibEvent → Result (DgpWriter × Bool)
  unfolding dgp_writer_output_lsa
  on_loc_event dw (lsa_add a cost) = dgp_writer_output_lsa dw none (some a.lsa)
  on_loc_event dw (lsa_mod a acost b bcost) = dgp_writer_output_lsa dw (some a.lsa) (some b.lsa)
  on_loc_event dw (lsa_del a cost) = dgp_writer_output_lsa dw (some a.lsa) none

  abbrev pub dump_best : DgpWriter → Option Obj → Result (DgpWriter × Bool)
  dump_best dw none = ok (dw, false)
  dump_best dw (some o) = dgp_writer_output_lsa dw none (some o.lsa)

  -- The loop over the ids, which a write that fails ends.
  unfoldable pub dump_ids : DgpWriter → List RibId → Result DgpWriter
  unfolding dgp_writer_output_lsa dgp_writer_send_keepalive
  dump_ids dw [] = ok (dgp_writer_send_keepalive dw).0
  dump_ids dw (rid ∷ rids) = do
    (dw₁, failed) ← dump_best dw rid.best
    let rest = dump_ids dw₁ rids
    if failed then ok dw₁ else rest

  unfoldable pub dgp_writer_rib_dump : DgpWriter → Tree RibId → Result DgpWriter
  unfolding dump_ids
  dgp_writer_rib_dump dw leaf = ok (dgp_writer_send_keepalive dw).0
  dgp_writer_rib_dump dw (node l a r) = dump_ids dw (in_order (node l a r))
