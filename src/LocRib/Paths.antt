-- ===== src/LocRib/Paths.antt =====
-- Which paths lsa_path_cost of loc_rib.c follows, and what they cost.
use dvpn.Base.{
  ℕ, zero, suc, ◌+◌, ◌%◌, ◌^◌, ◌≤◌, ◌≡◌, refl, ap, ◌∙◌, Bool, true, false, ◌&&◌, if◌then◌else◌,
  List, [], ◌∷◌, length, length-append, Option, none, some, Result, ok, aborted, arith, Bool-cases,
  inl, inr, ltb, not, ◌==◌, ◌<◌,
}
use dvpn.Bytes.{Bytes}
use dvpn.Avl.Order.{Each}
use dvpn.Lsa.Types.{Attr, Lsa, node_id_len, attr_type_adv_path}
use dvpn.Lsa.Build.{attr_data, lsa_find_attr}
use dvpn.Lsa.Platform.{Platform}
use dvpn.Lsa.AdvPath.{path_data, IsId, take-append, drop-append}
use dvpn.Lsa.Peer.{LsaPeerInfo, lsa_get_peer_info}
use dvpn.AdjRibIn.Rib.{rib_cost_unreachable}
use dvpn.LocRib.State.{RibId, LocRib, lsa_get_version, find_recent_lsa}
use dvpn.LocRib.Cost.{
  is_customer, is_transit, traverse, with_hop, with_next, hops_cost, from_me, lsa_path_cost,
}

-- A hop: what the node before it says of the node after it, and what that says of the node before.
pub record Hop : Type 0 where
  pub forward : LsaPeerInfo
  pub reverse : LsaPeerInfo

-- The next node is a transit of the node before, which is its customer.
abbrev pub goes_up : Hop → Bool
goes_up h = is_transit h.forward.flags && is_customer h.reverse.flags

-- The next node is a customer of the node before, which is its transit.
abbrev pub goes_down : Hop → Bool
goes_down h = is_customer h.forward.flags && is_transit h.reverse.flags

-- Up through transits, over at most one hop of any other kind, and down through customers.
pub data ValleyFree : List Hop → Type 0 where
  end : ValleyFree []
  up : {h : Hop} {hs : List Hop} → goes_up h ≡ true → ValleyFree hs → ValleyFree (h ∷ hs)
  over : {h : Hop} {hs : List Hop} → Each (λ h. goes_down h ≡ true) hs → ValleyFree (h ∷ hs)

-- The state machine of the loop: whether it takes all the hops.
pub takes : Bool → List Hop → Bool
takes t [] = true
takes true (h ∷ hs) = takes (goes_up h) hs
takes false (h ∷ hs) = if goes_down h then takes false hs else false

takes_down : (hs : List Hop) → takes false hs ≡ true → Each (λ h. goes_down h ≡ true) hs
unfolding takes
takes_down [] e = tt
takes_down (h ∷ hs) e = elim (Bool-cases (goes_down h)) [
  | inl d ↦ (d, takes_down hs (rw d at e))
  | inr d ↦ absurd (ground arith)
]

down_takes : (hs : List Hop) → Each (λ h. goes_down h ≡ true) hs → takes false hs ≡ true
unfolding takes
down_takes [] d = refl
down_takes (h ∷ hs) (d, ds) = rw d (down_takes hs ds)

takes-ValleyFree : (hs : List Hop) → takes true hs ≡ true → ValleyFree hs
unfolding takes
takes-ValleyFree [] e = end
takes-ValleyFree (h ∷ hs) e = elim (Bool-cases (goes_up h)) [
  | inl u ↦ up u (takes-ValleyFree hs (rw u at e))
  | inr d ↦ over (takes_down hs (rw d at e))
]

-- Going down only is valley free too.
down-ValleyFree : (hs : List Hop) → Each (λ h. goes_down h ≡ true) hs → takes true hs ≡ true
unfolding takes
down-ValleyFree [] d = refl
down-ValleyFree (h ∷ hs) (d, ds) = elim (Bool-cases (goes_up h)) [
  | inl u ↦ rw u (down-ValleyFree hs ds)
  | inr n ↦ rw n (down_takes hs ds)
]

ValleyFree-takes : {hs : List Hop} → ValleyFree hs → takes true hs ≡ true
unfolding takes
ValleyFree-takes end = refl
ValleyFree-takes (up u v) = rw u (ValleyFree-takes v)
ValleyFree-takes (over {h} {hs} d) = elim (Bool-cases (goes_up h)) [
  | inl u ↦ rw u (down-ValleyFree hs d)
  | inr n ↦ rw n (down_takes hs d)
]

abbrev pub metrics : List Hop → ℕ
metrics [] = 0
metrics (h ∷ hs) = h.forward.metric + metrics hs

abbrev add_hop : Option LsaPeerInfo → Option LsaPeerInfo → Option (List Hop) → Option (List Hop)
add_hop none reverse hops = none
add_hop (some forward) none hops = none
add_hop (some forward) (some reverse) none = none
add_hop (some forward) (some reverse) (some hops) =
    some (record { forward = forward; reverse = reverse } ∷ hops)

path_data_whole : (ids : List Bytes) → Each IsId ids → length (path_data ids) % node_id_len ≡ 0
path_data_whole [] i = refl
path_data_whole (id ∷ ids) (i, is) =
    omega (arith, path_data_whole ids is, length-append id (path_data ids))

module _ (p : Platform) (rib : LocRib) where
  -- The hops from a node through the nodes of a list, if all are known, and are neighbours.
  abbrev next_hop : Lsa → Option Lsa → (Lsa → Option (List Hop)) → Option (List Hop)
  next_hop from none rest = none
  next_hop from (some to) rest =
      add_hop (lsa_get_peer_info p from to.id) (lsa_get_peer_info p to from.id) (rest to)

  pub hops_through : Lsa → List Bytes → Option (List Hop)
  hops_through from [] = some []
  hops_through from (id ∷ ids) =
      next_hop from (find_recent_lsa p rib id) (λ to. hops_through to ids)

  abbrev price : Bool → ℕ → Option (List Hop) → ℕ
  price t cost none = rib_cost_unreachable
  price t cost (some hops) =
      if takes t hops then (cost + metrics hops) % 2 ^ 32 else rib_cost_unreachable

  price_hop :
      (t : Bool) (cost : ℕ) (f r : LsaPeerInfo) (k : Bool → ℕ → Result ℕ) (hops : Option (List Hop))
      → ((t' : Bool) (m : ℕ) → k t' m ≡ ok (price t' ((cost + m) % 2 ^ 32) hops))
      → with_hop (some f) (some r) t k ≡ ok (price t cost (add_hop (some f) (some r) hops))
  unfolding traverse takes
  price_hop true cost f r k none h = h _ f.metric
  price_hop true cost f r k (some hs) h =
      h _ f.metric
      ∙ ap
          (λ c. ok (
            if takes (is_transit f.flags && is_customer r.flags) hs
            then c
            else rib_cost_unreachable))
          (omega arith)
  price_hop false cost f r k none h =
      elim (Bool-cases (is_customer f.flags && is_transit r.flags)) [
        | inl d ↦ rw (d, with_hop) (h false f.metric)
        | inr d ↦ rw (d, with_hop) refl
      ]
  price_hop false cost f r k (some hs) h =
      elim (Bool-cases (is_customer f.flags && is_transit r.flags)) [
        | inl d ↦
            rw (d, with_hop)
              (h false f.metric
                ∙ ap (λ c. ok (if takes false hs then c else rib_cost_unreachable)) (omega arith))
        | inr d ↦ rw (d, with_hop) refl
      ]

  price_next :
      (to : Option Lsa) (from : Lsa) (t : Bool) (cost : ℕ) (k : Lsa → Bool → ℕ → Result ℕ)
      (rest : Lsa → Option (List Hop))
      → ((to : Lsa) (t' : Bool) (m : ℕ) → k to t' m ≡ ok (price t' ((cost + m) % 2 ^ 32) (rest to)))
      → with_next p to (some from) t k ≡ ok (price t cost (next_hop from to rest))
  price_next none from t cost k rest h = refl
  price_next (some to) from t cost k rest h =
      by_infos (lsa_get_peer_info p from to.id) (lsa_get_peer_info p to from.id)
    where
      by_infos :
          (f r : Option LsaPeerInfo)
          → with_hop f r t (k to) ≡ ok (price t cost (add_hop f r (rest to)))
      by_infos none r = refl
      by_infos (some f) none = refl
      by_infos (some f) (some r) = price_hop t cost f r (k to) (rest to) (h to)

  hops_cost-price :
      (ids : List Bytes) (fuel : ℕ) (from : Lsa) (t : Bool) (cost : ℕ)
      → Each IsId ids
      → length (path_data ids) ≤ fuel
      → cost < 2 ^ 32
      → hops_cost p rib fuel (path_data ids) (some from) t cost
        ≡ ok (price t cost (hops_through from ids))
  unfolding hops_cost hops_through takes
  hops_cost-price [] zero from t cost i room small = ap ok (omega arith)
  hops_cost-price [] (suc fuel) from t cost i room small = ap ok (omega arith)
  hops_cost-price ([] ∷ ids) fuel from t cost (i, is) room small = absurd (omega arith)
  hops_cost-price ((b ∷ id) ∷ ids) zero from t cost (i, is) room small = absurd (omega arith)
  hops_cost-price ((b ∷ id) ∷ ids) (suc fuel) from t cost (i, is) room small =
      let len = length-append (b ∷ id) (path_data ids) in
      let first = take-append node_id_len (b ∷ id) (path_data ids) i in
      let left = drop-append node_id_len (b ∷ id) (path_data ids) i in
      rw (first, left)
        (price_next (find_recent_lsa p rib (b ∷ id)) from t cost _ (λ to. hops_through to ids)
          (λ to t' m.
            hops_cost-price ids fuel to t' ((cost + m) % 2 ^ 32) is (omega arith) (omega arith)))

  -- The cost of a way: the sum of its metrics, if it goes through no valley.
  abbrev pub Priced : ℕ → Option (List Hop) → Type 0
  Priced c none = c ≡ rib_cost_unreachable
  Priced c (some hops) =
      (ValleyFree hops → c ≡ metrics hops % 2 ^ 32) × (¬ ValleyFree hops → c ≡ rib_cost_unreachable)

  price-Priced : (hops : Option (List Hop)) → Priced (price true 0 hops) hops
  price-Priced none = refl
  price-Priced (some hops) = (
    λ v. rw (ValleyFree-takes v) (ap (λ n. n % 2 ^ 32) (omega arith)),
    λ n. elim (Bool-cases (takes true hops)) [
      | inl e ↦ absurd (n (takes-ValleyFree hops e))
      | inr e ↦ rw e refl
    ],
  )

  -- For an advertisement of the newest version of its node, whose path attribute holds a list of whole
  -- ids, and on a node whose id is set and whose own recent advertisement is in the table,
  -- lsa_path_cost comes to an end, and returns the sum of the metrics along the path modulo 2 ^ 32 if all nodes on it are
  -- known and are neighbours one of the next, and the path is valley free; and otherwise, the cost of
  -- the unreachable.
  pub lsa_path_cost-Priced :
      (rid : RibId) (lsa : Lsa) (a : Attr) (ids : List Bytes) (me : Bytes) (from : Lsa)
      → ltb (lsa_get_version p lsa) rid.highest_version_seen ≡ false
      → lsa_find_attr lsa attr_type_adv_path [] ≡ some a
      → attr_data p a ≡ path_data ids
      → Each IsId ids
      → rib.myid ≡ some me
      → find_recent_lsa p rib me ≡ some from
      → (c : ℕ) × (lsa_path_cost p rib rid lsa ≡ ok c) × Priced c (hops_through from ids)
  unfolding lsa_path_cost
  lsa_path_cost-Priced rid lsa a ids me from new found path i mine recent =
      let whole : not (length (path_data ids) % node_id_len == 0) ≡ false =
        ground (arith, path_data_whole ids i) in
      (
        price true 0 (hops_through from ids),
        rw (new, found)
            (ap
                (λ d.
                  if not (length d % node_id_len == 0) then aborted else from_me p rib d rib.myid)
                path
              ∙ ap (λ w. if w then aborted else from_me p rib (path_data ids) rib.myid) whole
              ∙ ap (from_me p rib (path_data ids)) mine
              ∙ (rw (recent, from_me)
                  (hops_cost-price ids (length (path_data ids)) from true 0 i (omega arith)
                    (omega arith)))),
        price-Priced (hops_through from ids),
      )
