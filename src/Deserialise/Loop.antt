-- ===== src/Deserialise/Loop.antt =====
-- The loop of lsa_deserialise_attr_set on the attributes of a set, as they were serialised.
use dvpn.Base.{
  ℕ, zero, suc, ◌+◌, ◌≤◌, ◌<◌, ◌^◌, ◌≡◌, refl, ap, ◌∙◌, sym, Bool, true, false, List, [], ◌∷◌, ◌++◌,
  length, length-append, arith, none, Option, ok, add-zero, append_assoc, Ordering,
}
use dvpn.Bytes.{Bytes, int_max}
use dvpn.Avl.Order.{Sorted, Each}
use dvpn.Avl.Walk.{in_order}
use dvpn.Avl.Replace.{IsLast, Sorted-snoc, Each-snoc}
use dvpn.Lsa.Types.{Attr, attr, Data, bytes, attr_set, AttrTree, empty, branch, nodes, Lsa}
use dvpn.Lsa.Compare.{lsa_attr_compare_keys}
use dvpn.Lsa.Platform.{Platform}
use dvpn.Lsa.Totals.{own_total, tree_total, attr_total, list_total}
use dvpn.Lsa.Insert.{attrs, IsKeyed}
use dvpn.Lsa.View.{Items, cons, list_view, list_view-append}
use dvpn.Serialise.Dst.{int_bytes}
use dvpn.Serialise.Varint.{int_bytes_pos}
use dvpn.Serialise.Encoding.{attr_code, set_code}
use dvpn.Serialise.Bound.{set_code-le}
use dvpn.Deserialise.Src.{Src, got}
use dvpn.Deserialise.Decoder.{Reader, read_attr, place, after_read, attrs_loop}
use dvpn.Deserialise.ReadAttr.{raw_of, payload_of, read_attr-attr_code}
use dvpn.Deserialise.Step.{ChildReads, place_last}
use dvpn.Lsa.Last.{compare_keys-payload, IsLast-payload}

unfoldable pub list_code : List Attr → Bytes
list_code [] = []
list_code (a ∷ more) = attr_code false none a ++ list_code more

list_code-append : (xs ys : List Attr) → list_code (xs ++ ys) ≡ list_code xs ++ list_code ys
unfolding list_code
list_code-append [] ys = refl
list_code-append (x ∷ xs) ys =
    rw (list_code-append xs ys) (sym (append_assoc (attr_code false none x) _ _))

pub set_code-list_code : (set : AttrTree) → set_code false set ≡ list_code (attrs set)
unfolding set_code list_code nodes in_order
set_code-list_code empty = refl
set_code-list_code (branch l a r) =
    rw (list_code-append (attrs l) (a ∷ attrs r), set_code-list_code l, set_code-list_code r) refl

-- What the reader needs to know of an attribute.
abbrev pub AttrReads : Option Reader → Attr → Type 0
AttrReads child (attr type sign key d) =
    (type ≤ int_max) × (length key ≤ 65536) × ChildReads child d

attr_code-pos :
    (type : ℕ) (sign : Bool) (key : Bytes) (d : Data)
    → type ≤ int_max
    → 0 < length (attr_code false none (attr type sign key d))
unfolding attr_code
attr_code-pos type sign key d h =
    omega (arith, int_bytes_pos type (omega arith), length-append (int_bytes type) _)

payload-lt :
    (type : ℕ) (sign : Bool) (key : Bytes) (d : Data)
    → attr_total (attr type sign key d) < 2 ^ 32
    → (length key < 2 ^ 64) × (length (payload_of d) < 2 ^ 64)
unfolding own_total tree_total
payload-lt type sign [] (bytes d) h = omega arith
payload-lt type sign [] (attr_set t) h = omega (arith, set_code-le false t)
payload-lt type sign (k ∷ key) (bytes d) h = omega arith
payload-lt type sign (k ∷ key) (attr_set t) h = omega (arith, set_code-le false t)

module _ (p : Platform) (child : Option Reader) where
  loop_step :
      (fuel : ℕ) (lsa : Lsa) (set : AttrTree) (code : Bytes) (off : ℕ)
      → 0 < length code
      → attrs_loop p child (suc fuel) lsa set (record { rest = code; off = off })
        ≡ after_read p child
            (attrs_loop p child fuel)
            lsa
            set
            (read_attr (record { rest = code; off = off }))
  unfolding attrs_loop
  loop_step fuel lsa set [] off h = absurd (omega arith)
  loop_step fuel lsa set (b ∷ bs) off h = refl

  abbrev pub Below : List Attr → List Attr → Type 0
  Below xs l = Each (IsLast lsa_attr_compare_keys xs) l

  loop_end :
      (fuel : ℕ) (lsa : Lsa) (set : AttrTree) (off : ℕ)
      → attrs_loop p child fuel lsa set (record { rest = []; off = off })
        ≡ ok (record { lsa = lsa; set = set; good = true })
  unfolding attrs_loop
  loop_end zero lsa set off = refl
  loop_end (suc fuel) lsa set off = refl

  -- A placed attribute lets the loop go on.
  after_placed :
      (fuel : ℕ) (lsa : Lsa) (set : AttrTree) (a : Attr) (src : Src) {lsa₁ : Lsa} {set₁ : AttrTree}
      → place p child lsa set (raw_of a) ≡ ok (record { lsa = lsa₁; set = set₁; good = true })
      → after_read p child (attrs_loop p child fuel) lsa set (got (raw_of a, src))
        ≡ attrs_loop p child fuel lsa₁ set₁ src
  unfolding after_read
  after_placed fuel lsa set a src e = rw e refl

  -- What came after an attribute comes after the set that the attribute was added to.
  Below-snoc :
      (xs : List Attr) (type : ℕ) (sign : Bool) (key : Bytes) (d d' : Data) (l : List Attr)
      → Below xs l
      → Each (λ y. lsa_attr_compare_keys (attr type sign key d) y ≡ Ordering.lt) l
      → Below (xs ++ attr type sign key d' ∷ []) l
  Below-snoc xs type sign key d d' [] h k = tt
  Below-snoc xs type sign key d d' (y ∷ l) (h, hs) (k, ks) = (
    Each-snoc _ xs (attr type sign key d') h (compare_keys-payload type sign sign key d' d y ∙ k),
    Below-snoc xs type sign key d d' l hs ks,
  )

  pub loop_reads :
      (l : List Attr) (fuel : ℕ) (lsa : Lsa) (set : AttrTree) (off : ℕ)
      → lsa.refcount ≡ 1
      → IsKeyed set
      → Each (AttrReads child) l
      → Sorted lsa_attr_compare_keys l
      → Below (attrs set) l
      → length (list_code l) ≤ fuel
      → lsa.size + list_total l < 2 ^ 32
      → (set' : AttrTree) × (attrs_loop p child fuel lsa set
            (record { rest = list_code l; off = off })
          ≡ ok (record {
            lsa = record lsa { size = lsa.size + list_total l };
            set = set';
            good = true;
          }))
        × ((tail : Items) → list_view (attrs set') tail ≡ list_view (attrs set) (list_view l tail))
  unfolding list_code list_total list_view
  loop_reads [] fuel lsa set off one s reads sorted below enough room =
      (set, loop_end fuel lsa set off ∙ rw (add-zero lsa.size) refl, λ tail. refl)
  loop_reads (attr type sign key d ∷ more) zero lsa set off one s (r, reads) sorted below enough
        room =
      absurd (
        omega (
          arith,
          attr_code-pos type sign key d r.0,
          length-append (attr_code false none (attr type sign key d)) (list_code more),
        ))
  loop_reads (attr type sign key d ∷ more) (suc fuel) lsa set off one s (r, reads) (first, sorted)
        (last, below) enough room =
      let a = attr type sign key d in
      let code = attr_code false none a in
      let pos = attr_code-pos type sign key d r.0 in
      let split = length-append code (list_code more) in
      let lens = payload-lt type sign key d (omega arith) in
      let (off', read) =
        read_attr-attr_code type sign key d (list_code more) off r.0 lens.0 lens.1 in
      let (set₁, d', placed, o, v) =
        place_last p lsa set type sign key child d r.2 one s r.1 last (omega arith) in
      let a' = attr type sign key d' in
      let keyed : IsKeyed set₁ = rw o (
        Sorted-snoc lsa_attr_compare_keys (attrs set) a' s
          (IsLast-payload (attrs set) type sign sign key d d' last)) in
      let (set', e, w) =
        loop_reads more fuel (record lsa { size = lsa.size + attr_total a }) set₁ off' one keyed
          reads sorted (rw o (Below-snoc (attrs set) type sign key d d' more below first))
          (omega arith) (omega arith) in
      let q : lsa.size + attr_total a + list_total more
          ≡ lsa.size + (attr_total a + list_total more) =
        omega arith in
      (
        set',
        loop_step fuel lsa set (code ++ list_code more) off (omega arith)
            ∙ rw read (
                after_placed fuel lsa set a (record { rest = list_code more; off = off' }) placed
                ∙ e
                ∙ rw q refl),
        λ tail.
            w tail
            ∙ rw (o, list_view-append)
                (ap (λ i. list_view (attrs set) (cons i (list_view more tail))) v),
      )
