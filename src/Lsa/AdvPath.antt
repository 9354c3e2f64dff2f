-- ===== src/Lsa/AdvPath.antt =====
-- lsa_path.c: whether an advertised path goes through a node.
use dvpn.Base.{
  ℕ, zero, suc, ◌≤◌, ◌≡◌, refl, ◌∙◌, Bool, true, false, not, ◌==◌, ltb, if◌then◌else◌, List, [],
  ◌∷◌, ◌++◌, length, length-append, take, drop, ap, Result, ok, aborted, fault, stuck, arith,
  Bool-cases, ◌⊎◌, inl, inr,
}
use dvpn.Bytes.{Bytes, memcmp, is_eq}
use dvpn.Bytes.Memcmp.{memcmp-append, memcmp-eq, memcmp_self}
use dvpn.Avl.Order.{Each}
use dvpn.Lsa.Types.{Attr, attr, attr_type, bytes, node_id_len, attr_type_adv_path}
use dvpn.Lsa.Platform.{Platform}
use dvpn.Lsa.Build.{attr_data}

-- The loop over the pieces of node_id_len bytes. A last piece that is shorter is a read past the end
-- of the data.
unfoldable pub path_loop : ℕ → Bytes → Bytes → Result Bool
path_loop fuel [] id = ok false
path_loop zero (b ∷ data') id = stuck
path_loop (suc fuel) (b ∷ data') id =
    let rest = path_loop fuel (drop node_id_len (b ∷ data')) id in
    if ltb (length (b ∷ data')) node_id_len
    then fault
    else if is_eq (memcmp node_id_len (b ∷ data') id)
    then ok true
    else rest

unfoldable pub lsa_path_contains : Platform → Attr → Bytes → Result Bool
unfolding path_loop
lsa_path_contains p a id =
    if not (attr_type a == attr_type_adv_path)
    then aborted
    else path_loop (length (attr_data p a)) (attr_data p a) id

-- A path through the nodes of a list, as it stands in the data.
abbrev pub path_data : List Bytes → Bytes
path_data [] = []
path_data (hop ∷ hops) = hop ++ path_data hops

-- Whether a node is one of a list.
unfoldable pub is_hop : Bytes → List Bytes → Bool
is_hop id [] = false
is_hop id (hop ∷ hops) = if is_eq (memcmp node_id_len hop id) then true else is_hop id hops

abbrev pub IsId : Bytes → Type 0
IsId id = length id ≡ node_id_len

pub take-append : (n : ℕ) (a b : Bytes) → length a ≡ n → take n (a ++ b) ≡ a
take-append zero [] b e = refl
take-append zero (x ∷ a) b e = absurd (omega arith)
take-append (suc n) [] b e = absurd (omega arith)
take-append (suc n) (x ∷ a) b e = ap (λ l. x ∷ l) (take-append n a b (omega arith))

pub drop-append : (n : ℕ) (a b : Bytes) → length a ≡ n → drop n (a ++ b) ≡ b
drop-append zero [] b e = refl
drop-append zero (x ∷ a) b e = absurd (omega arith)
drop-append (suc n) [] b e = absurd (omega arith)
drop-append (suc n) (x ∷ a) b e = drop-append n a b (omega arith)

abbrev pub IsHop : Bytes → List Bytes → Type 0
IsHop id [] = ⊥
IsHop id (hop ∷ hops) = (hop ≡ id) ⊎ IsHop id hops

is_hop-IsHop :
    (id : Bytes) (hops : List Bytes)
    → IsId id
    → Each IsId hops
    → (is_hop id hops ≡ true → IsHop id hops) × (IsHop id hops → is_hop id hops ≡ true)
unfolding is_hop
is_hop-IsHop id [] i h = (λ e. absurd (ground arith), λ f. absurd f)
is_hop-IsHop id (hop ∷ hops) i (j, h) =
    let (from, to) = is_hop-IsHop id hops i h in
    elim (Bool-cases (is_eq (memcmp node_id_len hop id))) [
      | inl e ↦ (λ q. inl (memcmp-eq node_id_len hop id j i (ground arith)), λ q. rw e refl)
      | inr e ↦ (
        λ q. inr (from (ground arith)),
        λ q. elim q [
          | inl same ↦ absurd (ground (arith, memcmp_self node_id_len id, same))
          | inr later ↦ rw e (to later)
        ],
      )
    ]

path_loop-is_hop :
    (hops : List Bytes) (id : Bytes) (fuel : ℕ)
    → Each IsId hops
    → length (path_data hops) ≤ fuel
    → path_loop fuel (path_data hops) id ≡ ok (is_hop id hops)
unfolding path_loop is_hop
path_loop-is_hop [] id zero h room = refl
path_loop-is_hop [] id (suc fuel) h room = refl
path_loop-is_hop ([] ∷ hops) id fuel (i, h) room = absurd (omega arith)
path_loop-is_hop ((b ∷ hop) ∷ hops) id zero (i, h) room = absurd (omega arith)
path_loop-is_hop ((b ∷ hop) ∷ hops) id (suc fuel) (i, h) room =
    let all = (b ∷ hop) ++ path_data hops in
    let len = length-append (b ∷ hop) (path_data hops) in
    let long : ltb (length all) node_id_len ≡ false = ground (arith, len) in
    let same = memcmp-append node_id_len (b ∷ hop) (path_data hops) id i in
    let left = drop-append node_id_len (b ∷ hop) (path_data hops) i in
    let ih = path_loop-is_hop hops id fuel h (omega arith) in
    elim (Bool-cases (is_eq (memcmp node_id_len (b ∷ hop) id))) [
      | inl e ↦ rw (long, same) (rw e refl)
      | inr e ↦ rw (long, same) (rw e (rw (left, ih) refl))
    ]

path_loop_lem :
    (p : Platform) (sign : Bool) (key path id : Bytes)
    → lsa_path_contains p (attr attr_type_adv_path sign key (bytes path)) id
      ≡ path_loop (length path) path id
unfolding lsa_path_contains attr_data
path_loop_lem p sign key path id = refl

-- On the path of a list of node ids, lsa_path_contains comes to an end, and answers 1 if and only if
-- the id is one of them.
pub path_contains-IsHop :
    (p : Platform) (sign : Bool) (key : Bytes) (hops : List Bytes) (id : Bytes)
    → IsId id
    → Each IsId hops
    → (b : Bool) × (lsa_path_contains p
          (attr attr_type_adv_path sign key (bytes (path_data hops)))
          id
        ≡ ok b)
      × (b ≡ true → IsHop id hops)
      × (IsHop id hops → b ≡ true)
path_contains-IsHop p sign key hops id i h =
    let (from, to) = is_hop-IsHop id hops i h in
    (
      is_hop id hops,
      path_loop_lem p sign key (path_data hops) id
          ∙ path_loop-is_hop hops id (length (path_data hops)) h (omega arith),
      from,
      to,
    )
