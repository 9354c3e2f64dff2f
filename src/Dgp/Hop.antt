-- ===== src/Dgp/Hop.antt =====
-- What dgp_writer.c writes for an advertisement, dgp_reader.c of the neighbour takes as that
-- advertisement with one more node on its path.
use dvpn.Base.{
  ◌+◌, ◌-◌, ◌%◌, ◌^◌, ◌≤◌, ◌<◌, ◌≡◌, refl, sym, ap, ◌∙◌, Bool, true, false, ltb, ◌==◌,
  if◌then◌else◌, [], ◌∷◌, ◌++◌, append-nil, length, length-append, length-replicate, take, drop,
  replicate, Option, none, some, Result, ok, err, aborted, fault, stuck, ◌>>=◌, subst, arith,
  Bool-cases, inl, inr,
}
use dvpn.Bytes.{Bytes, size_max}
use dvpn.Lsa.Types.{
  Attr, attr, attr_type, Data, bytes, attr_set, AttrTree, empty, branch, Lsa, node_id_len,
  attr_type_adv_path,
}
use dvpn.Lsa.Platform.{Platform}
use dvpn.Lsa.Totals.{tree_total, own_total}
use dvpn.Lsa.AdvPath.{IsId, take-append}
use dvpn.Lsa.Insert.{IsKeyed}
use dvpn.Lsa.View.{view}
use dvpn.Serialise.Encoder.{preid_for, attr_flags, lsa_serialise}
use dvpn.Serialise.Dst.{int_bytes}
use dvpn.Serialise.Varint.{length-int_bytes}
use dvpn.Serialise.Encoding.{attr_code, attrs_code, key_code}
use dvpn.Serialise.Message.{body, message, lsa_serialise_length-body, lsa_serialise-message}
use dvpn.Deserialise.RoundTrip.{TreeFits, copy_with, deserialise-message}
use dvpn.Deserialise.Decoder
use dvpn.Deserialise.Decoder.{lsa_deserialise}
use dvpn.Deserialise.Prefix.{InBuffer, lsa_deserialise-InBuffer}
use dvpn.AdjRibIn.Accept.{Crypto}
use dvpn.Dgp.Reader.{Peering, DgpReader, on_lsa, take_bytes, messages_loop}
use dvpn.Dgp.Writer.{DgpWriter, visible, write_some, write_bytes, send_lsa, dgp_writer_output_lsa}

no_preid : (b : Bool) → if◌then◌else◌ {A = Option Bytes} b none none ≡ none
no_preid true = refl
no_preid false = refl

module _ (me : Bytes) where
  -- A node in front of a path.
  abbrev through_data : Data → Data
  through_data (bytes d) = bytes (me ++ d)
  through_data (attr_set t) = attr_set t

  abbrev through_attr : Attr → Attr
  through_attr (attr type sign key d) =
      attr type sign key (if type == attr_type_adv_path then through_data d else d)

  unfoldable pub through : AttrTree → AttrTree
  through empty = empty
  through (branch l a r) = branch (through l) (through_attr a) (through r)

  abbrev pub hop : Lsa → Lsa
  hop lsa = record lsa { root = through lsa.root }

  through-attr_code :
      (a : Attr)
      → IsId me
      → own_total (through_attr a) < 2 ^ 32
      → attr_code false (preid_for (some me) a) a ≡ attr_code false none (through_attr a)
  unfolding attr_code own_total
  through-attr_code (attr type sign key (bytes d)) i h =
      elim (Bool-cases (type == attr_type_adv_path)) [
        | inl e ↦ rw e (
            let len : (length d + node_id_len) % (size_max + 1) ≡ length (me ++ d) =
              omega (arith, length-append me d, rw e at h) in
            ap
              (λ n.
                int_bytes type
                ++ (int_bytes (attr_flags (attr type sign key (bytes d)))
                    ++ (key_code key ++ (int_bytes n ++ (me ++ d)))))
              len)
        | inr e ↦ rw e refl
      ]
  through-attr_code (attr type sign key (attr_set t)) i h =
      elim (Bool-cases (type == attr_type_adv_path)) [ inl e ↦ rw e refl | inr e ↦ rw e refl ]

  through-attrs_code :
      (t : AttrTree)
      → IsId me
      → tree_total (through t) < 2 ^ 32
      → attrs_code false (some me) t ≡ attrs_code false none (through t)
  unfolding attrs_code through tree_total
  through-attrs_code empty i h = refl
  through-attrs_code (branch l a r) i h =
      rw
        (
          through-attrs_code l i (omega arith),
          through-attr_code a i (omega arith),
          through-attrs_code r i (omega arith),
          no_preid (attr_type (through_attr a) == attr_type_adv_path),
        )
        refl

  through-body :
      (lsa : Lsa)
      → IsId me
      → tree_total (through lsa.root) < 2 ^ 32
      → body lsa false (some me) ≡ body (hop lsa) false none
  through-body lsa i h = ap (λ c. lsa.id ++ c) (through-attrs_code lsa.root i h)

  through-message :
      (lsa : Lsa)
      → IsId me
      → tree_total (through lsa.root) < 2 ^ 32
      → message lsa false (some me) ≡ message (hop lsa) false none
  through-message lsa i h = ap (λ b. int_bytes (length b) ++ b) (through-body lsa i h)

module _ (p : Platform) where
  -- Where the socket takes all bytes, send_lsa writes the message.
  pub send_lsa-message :
      (dw : DgpWriter) (lsa : Lsa)
      → dw.room ≡ []
      → length lsa.id ≡ node_id_len
      → length (body lsa false dw.myid) ≤ 65536 - 128
      → send_lsa p dw lsa ≡ ok (record dw { sent = dw.sent ++ message lsa false dw.myid }, false)
  unfolding send_lsa write_bytes
  send_lsa-message dw lsa free id small =
      let b = body lsa false dw.myid in
      let m = message lsa false dw.myid in
      let n = length b in
      let buf : Bytes = replicate (n + 128) 0 in
      let len : length buf ≡ n + 128 = length-replicate (n + 128) 0 in
      let lm : length m ≡ length (int_bytes n) + n = length-append (int_bytes n) b in
      let ok₁ : ltb (65536 - 128) n ≡ false = ground arith in
      let ok₂ : ltb (n + 128) (length m) ≡ false = ground (arith, length-int_bytes n) in
      let run : lsa_serialise buf (n + 128) n lsa false dw.myid
          ≡ ok (m ++ drop (length m) buf, length m) =
        rw len at (
          lsa_serialise-message lsa false dw.myid buf (omega arith)
            (omega (arith, length-int_bytes n))) in
      let front : take (length m) (m ++ drop (length m) buf) ≡ m =
        take-append (length m) m _ refl in
      rw (lsa_serialise_length-body lsa false dw.myid id (omega arith))
        (rw (ok₁, run, ok₂, front) (ap (λ r. ok (write_some dw m r)) free))

  module _ (crypto : Crypto) where
    drop_all : (q : Bytes) → drop (length q) q ≡ []
    drop_all [] = refl
    drop_all (x ∷ q) = drop_all q

    one_message :
        (dr : Peering) (q : Bytes) (l : Lsa)
        → lsa_deserialise p true q ≡ ok (Decoder.message (some l) (length q))
        → messages_loop p crypto true (length q) true dr q
          ≡ (on_lsa p crypto true dr l >>= λ dr₁. ok (dr₁, []))
    unfolding messages_loop
    one_message dr [] l e =
        let (pos, room) = subst (InBuffer p true 0) e (lsa_deserialise-InBuffer p true []) in
        absurd (omega arith)
    one_message dr (b ∷ q) l e = rw (e, drop_all q) refl

    abbrev finished : Result (Peering × Bytes) → Result DgpReader
    finished r = r >>= λ q. ok (record { peering = q.0; buf = q.1 })

    then_empty :
        (r : Result Peering)
        → finished (r >>= λ dr. ok (dr, [])) ≡ (r >>= λ dr. ok (record { peering = dr; buf = [] }))
    then_empty (ok dr) = refl
    then_empty err = refl
    then_empty aborted = refl
    then_empty fault = refl
    then_empty stuck = refl

    -- A message that comes alone in an empty buffer is handled.
    take_bytes-message :
        (dr : DgpReader) (lsa : Lsa)
        → dr.buf ≡ []
        → length lsa.id ≡ node_id_len
        → IsKeyed lsa.root
        → TreeFits 8 lsa.root
        → 42 + tree_total lsa.root < 2 ^ 32
        → (root : AttrTree) × (take_bytes p crypto true dr (message lsa false none) ≡ (
            on_lsa p crypto true dr.peering (copy_with p lsa [] root) >>= λ peering.
            ok (record { peering = peering; buf = [] })))
          × (view root ≡ view lsa.root)
    unfolding take_bytes
    take_bytes-message dr lsa nothing id s f room =
        let m = message lsa false none in
        let (root, e, v) = deserialise-message p lsa [] id s f room (omega arith) in
        let whole : lsa_deserialise p true m
            ≡ ok (Decoder.message (some (copy_with p lsa [] root)) (length m)) =
          ap (lsa_deserialise p true) (sym (append-nil m)) ∙ e in
        (
          root,
          ap
                (λ b.
                  finished (messages_loop p crypto true (length (b ++ m)) true dr.peering (b ++ m)))
                nothing
              ∙ ap finished (one_message dr.peering m (copy_with p lsa [] root) whole)
              ∙ then_empty (on_lsa p crypto true dr.peering (copy_with p lsa [] root)),
          v,
        )

    -- Where the socket takes all bytes, the messages that the writer of a node with an id sends for an
    -- advertisement that the neighbour may see is handled by the reader of the neighbour, once it
    -- has come whole: with the same id, one reference, the count of its attributes, and the attributes
    -- of the advertisement at every depth, but for the id of the sender, which stands before its path.
    -- That advertisement must be in order at every depth, nest at most 8 deep, count less than 2 ^ 32
    -- bytes, and have a message that the writer has room for.
    pub output_lsa-take_bytes :
        (dw : DgpWriter) (dr : DgpReader) (old : Option Lsa) (lsa : Lsa) (me : Bytes)
        → dw.room ≡ []
        → dr.buf ≡ []
        → dw.myid ≡ some me
        → IsId me
        → length lsa.id ≡ node_id_len
        → visible p dw (some lsa) ≡ ok (some lsa)
        → length (body lsa false (some me)) ≤ 65536 - 128
        → IsKeyed (through me lsa.root)
        → TreeFits 8 (through me lsa.root)
        → 42 + tree_total (through me lsa.root) < 2 ^ 32
        → (d : Bytes) × (root : AttrTree) × (dgp_writer_output_lsa p dw old (some lsa)
            ≡ ok (record dw { sent = dw.sent ++ d }, false))
          × (take_bytes p crypto true dr d ≡ (
              on_lsa p crypto true dr.peering (copy_with p (hop me lsa) [] root) >>= λ peering.
              ok (record { peering = peering; buf = [] })))
          × (view root ≡ view (through me lsa.root))
    unfolding dgp_writer_output_lsa
    output_lsa-take_bytes dw dr old lsa me free nothing mine i id seen small s f room =
        let (root, e, v) = take_bytes-message dr (hop me lsa) nothing id s f room in
        let fits = subst (λ x. length (body lsa false x) ≤ 65536 - 128) (sym mine) small in
        let same : message lsa false dw.myid ≡ message (hop me lsa) false none =
          ap (message lsa false) mine ∙ through-message me lsa i (omega arith) in
        (
          message (hop me lsa) false none,
          root,
          rw seen (
              send_lsa-message dw lsa free id fits
              ∙ ap (λ m. ok (record dw { sent = dw.sent ++ m }, false)) same),
          e,
          v,
        )
