-- ===== src/RtBuilder/Tracks.antt =====
-- The calls of rt_builder.c keep a table of routes in step with the best advertisements.
use dvpn.Base.{
  ℕ, ◌%◌, ◌≡◌, ◌≢◌, refl, sym, ap, ◌∙◌, subst, ◌==◌, Bool, true, false, ◌&&◌, ltb, if◌then◌else◌,
  List, [], ◌∷◌, ◌++◌, append-nil, length, length-drop, drop, Option, none, some, Result, ok, ◌>>=◌,
  arith, Bool-cases, inl, inr,
}
use dvpn.Bytes.{Bytes, memcmp, is_eq}
use dvpn.Bytes.Memcmp.{memcmp-eq, memcmp_self}
use dvpn.Lsa.Types.{Attr, Lsa, node_id_len, attr_type_adv_path}
use dvpn.Lsa.Platform.{Platform}
use dvpn.Lsa.Build.{attr_data, lsa_find_attr}
use dvpn.Util.Address.{v6_global_addr_from_key_id, length-v6_global}
use dvpn.AdjRibIn.Rib.{Obj, rib_cost_unreachable}
use dvpn.LocRib.State.{rib_cost_ineligible}
use dvpn.LocRib.Update.{Best, best_event}
use dvpn.LocRib.Total.{HasPath, IsWholePath}
use dvpn.RtBuilder.{
  RtCall, rt_add, rt_mod, rt_del, same_addr, is_me, starts_at_me, mapped_path, mapped_lsa, nh_of,
  getnh, add_route, mod_route, del_route, to_route, on_rib_event, on_rib_events,
}

-- A route to one destination, if there is one: over its next hop, or directly.
abbrev pub Route : Type 0
Route = Option (Option Bytes)

-- What a call does to the route; `none` is a call that does not fit what is there, or is for another
-- destination.
abbrev same_bytes : Bytes → Bytes → Bool
same_bytes a b = (length a == length b) && is_eq (memcmp (length a) a b)

abbrev same_nh : Option Bytes → Option Bytes → Bool
same_nh none none = true
same_nh (some a) (some b) = same_bytes a b
same_nh _ _ = false

abbrev after : Bytes → Route → RtCall → Option Route
after dest none (rt_add d nh) = if same_bytes d dest then some (some nh) else none
after dest (some r) (rt_mod d old new) =
    if same_bytes d dest && same_nh r old then some (some new) else none
after dest (some r) (rt_del d nh) = if same_bytes d dest && same_nh r nh then some none else none
after dest _ _ = none

-- What a list of calls does to the route.
pub replay : Bytes → Route → List RtCall → Option Route
replay dest r [] = some r
replay dest r (c ∷ cs) = elim (after dest r c) [ none ↦ none | some r' ↦ replay dest r' cs ]

abbrev IsNh : Option Bytes → Type 0
IsNh none = Unit
IsNh (some a) = length a ≡ 16

same_addr-eq : (x y : Option Bytes) → IsNh x → IsNh y → same_addr x y ≡ true → x ≡ y
same_addr-eq none none h k e = refl
same_addr-eq none (some y) h k e = cc
same_addr-eq (some x) none h k e = cc
same_addr-eq (some x) (some y) h k e = ap some (memcmp-eq 16 x y h k (ground arith))

same_bytes_self : (a : Bytes) → same_bytes a a ≡ true
same_bytes_self a = rw (memcmp_self (length a) a) (ground arith)

same_nh_self : (x : Option Bytes) → same_nh x x ≡ true
same_nh_self none = refl
same_nh_self (some a) = same_bytes_self a

-- The route along the nodes of a path, the first of which is not this node.
abbrev hops_route : Bytes → Route
hops_route path =
    if length path == 0
    then none
    else if length path == node_id_len
    then some none
    else some (some (v6_global_addr_from_key_id path))

module _ (p : Platform) (myid : Option Bytes) where
  -- The route that there is to be for an advertisement: none if it is unreachable or its path is empty
  -- or this node alone; else over the first node of the path that is not this node, or directly if the
  -- path ends with it.
  abbrev after_me : Bytes → Bytes
  after_me path = if starts_at_me myid path then drop node_id_len path else path

  abbrev path_route : Bytes → Route
  path_route path = hops_route (after_me path)

  abbrev path_of : Option Attr → Bytes
  path_of none = []
  path_of (some a) = attr_data p a

  abbrev lsa_route : Lsa → ℕ → Route
  lsa_route lsa cost =
      if cost == rib_cost_unreachable
      then none
      else path_route (path_of (lsa_find_attr lsa attr_type_adv_path []))

  abbrev obj_route : Option Obj → ℕ → Route
  obj_route none cost = none
  obj_route (some o) cost = lsa_route o.lsa cost

  abbrev pub route : Best → Route
  route b = obj_route b.best b.bestcost

  -- An eligible advertisement of a node, with a path of whole ids.
  abbrev ObjRoutable : Bytes → Option Obj → ℕ → Type 0
  ObjRoutable id none cost = Unit
  ObjRoutable id (some o) cost = (o.lsa.id ≡ id) × HasPath p o.lsa × (cost ≢ rib_cost_ineligible)

  abbrev pub IsRoutable : Bytes → Best → Type 0
  IsRoutable id b = ObjRoutable id b.best b.bestcost

  -- The code splits this into map, and getnh for what map lets through.
  abbrev Mapped : Bytes → Option Lsa → Route → Type 0
  Mapped id none r = r ≡ none
  Mapped id (some lsa) r =
      (nh : Option Bytes) × (getnh p myid lsa ≡ ok nh) × IsNh nh × (r ≡ some nh) × (lsa.id ≡ id)

  nh_of-hops_route :
      (q : Bytes)
      → length q % node_id_len ≡ 0
      → length q ≢ 0
      → (nh : Option Bytes) × (nh_of p myid q ≡ ok nh) × IsNh nh × (hops_route q ≡ some nh)
  nh_of-hops_route q w n =
      let some_hops : (length q == 0) ≡ false = ground arith in
      elim (Bool-cases (length q == node_id_len)) [
        | inl e ↦ (none, rw (some_hops, e) refl, tt, rw (some_hops, e) refl)
        | inr e ↦
            let long : ltb (length q) 22 ≡ false = ground arith in
            (
              some (v6_global_addr_from_key_id q),
              rw (some_hops, e, long) refl,
              length-v6_global q (ground arith),
              rw (some_hops, e) refl,
            )
      ]

  -- What is left of a whole path is whole.
  after_me_whole :
      (path : Bytes) → length path % node_id_len ≡ 0 → length (after_me path) % node_id_len ≡ 0
  after_me_whole path w = elim (Bool-cases (starts_at_me myid path)) [
    | inl e ↦ rw e (omega (arith, length-drop node_id_len path))
    | inr e ↦ rw e w
  ]

  -- The paths that map refuses are those after which nothing is left.
  refused :
      (path : Bytes)
      → length path % node_id_len ≡ 0
      → (length path == 0) ≡ true
      → length (after_me path) ≡ 0
  refused path w e = elim (Bool-cases (starts_at_me myid path)) [
    | inl k ↦ rw k (ground (arith, length-drop node_id_len path))
    | inr k ↦ rw k (ground arith)
  ]

  refused_me :
      (me : Option Bytes) (path : Bytes)
      → is_me me path ≡ true
      → length (if starts_at_me me path then drop node_id_len path else path) ≡ 0
  refused_me none path e = cc
  refused_me (some me) path e = elim (Bool-cases (is_eq (memcmp node_id_len path me))) [
    | inl k ↦ ground (arith, length-drop node_id_len path)
    | inr k ↦ absurd (ground arith)
  ]

  let_through :
      (me : Option Bytes) (path : Bytes)
      → length path % node_id_len ≡ 0
      → (length path == 0) ≡ false
      → is_me me path ≡ false
      → length (if starts_at_me me path then drop node_id_len path else path) ≢ 0
  let_through none path w n m = λ e. ground arith
  let_through (some me) path w n m = λ e. ground (arith, length-drop node_id_len path)

  -- map and getnh come to the route, whatever way they are called.
  by_attr :
      (lsa : Lsa) (a : Option Attr)
      → lsa_find_attr lsa attr_type_adv_path [] ≡ a
      → IsWholePath p a
      → (m : Option Lsa) × (mapped_path p myid lsa a ≡ ok m)
        × Mapped lsa.id m (path_route (path_of a))
  unfolding getnh
  by_attr lsa none e w = absurd w
  by_attr lsa (some a) e w =
      let path = attr_data p a in
      elim (Bool-cases (length path == 0)) [
        | inl z ↦ (none, rw z refl, rw (refused path w z) refl)
        | inr z ↦ elim (Bool-cases (is_me myid path)) [
          | inl m ↦ (none, rw (z, m) refl, rw (refused_me myid path m) refl)
          | inr m ↦
              let (nh, run, size, r) =
                nh_of-hops_route (after_me path) (after_me_whole path w)
                  (let_through myid path w z m) in
              (some lsa, rw (z, m) refl, (nh, rw e run, size, r, refl))
        ]
      ]

  map_getnh :
      (lsa : Lsa) (cost : ℕ)
      → HasPath p lsa
      → cost ≢ rib_cost_ineligible
      → (m : Option Lsa) × (mapped_lsa p myid lsa cost ≡ ok m)
        × Mapped lsa.id m (lsa_route lsa cost)
  unfolding mapped_lsa
  map_getnh lsa cost h n =
      let eligible : (cost == rib_cost_ineligible) ≡ false = ground (arith, n) in
      elim (Bool-cases (cost == rib_cost_unreachable)) [
        | inl u ↦ (none, rw (eligible, u) refl, rw u refl)
        | inr u ↦
            let (m, run, r) = by_attr lsa (lsa_find_attr lsa attr_type_adv_path []) refl h in
            (m, rw (eligible, u) run, rw u r)
      ]

  module _ (id : Bytes) where
    abbrev dest : Bytes
    dest = v6_global_addr_from_key_id id

    abbrev Follows : Route → Route → Result (List RtCall) → Type 0
    Follows ra rb m = (calls : List RtCall) × (m ≡ ok calls) × (replay dest ra calls ≡ some rb)

    to_route-Follows :
        (a b : Option Lsa) (ra rb : Route)
        → Mapped id a ra
        → Mapped id b rb
        → Follows ra rb (to_route p myid a b)
    unfolding add_route mod_route del_route replay
    to_route-Follows none none ra rb h k = ([], refl, ap some (h ∙ sym k))
    to_route-Follows none (some b) ra rb h (nh, run, size, k, i) = (
      rt_add (v6_global_addr_from_key_id b.id) nh ∷ [],
      rw run refl,
      rw (h, k, i) (rw (same_bytes_self dest, replay) refl),
    )
    to_route-Follows (some a) none ra rb (nh, run, size, h, i) k = (
      rt_del (v6_global_addr_from_key_id a.id) nh ∷ [],
      rw run refl,
      rw (h, k, i) (rw (same_bytes_self dest, same_nh_self nh, replay) refl),
    )
    to_route-Follows (some a) (some b) ra rb (nh, run, size, h, i) (nh', run', size', k, j) =
        elim (Bool-cases (same_addr nh nh')) [
          | inl e ↦ (
            [],
            rw (run, run', e) refl,
            ap some (h ∙ ap some (same_addr-eq nh nh' size size' e) ∙ sym k),
          )
          | inr e ↦ (
            rt_mod (v6_global_addr_from_key_id b.id) nh nh' ∷ [],
            rw (run, run', e) refl,
            rw (h, k, j) (rw (same_bytes_self dest, same_nh_self nh, replay) refl),
          )
        ]

    one_call :
        (m : Result (List RtCall)) (ra rb : Route)
        → Follows ra rb m
        → Follows ra rb (m >>= λ calls. ok (calls ++ []))
    one_call m ra rb (calls, run, e) = (calls, rw (run, append-nil calls) refl, e)

    at_id :
        (o : Obj) (cost : ℕ)
        → ObjRoutable id (some o) cost
        → (m : Option Lsa) × (mapped_lsa p myid o.lsa cost ≡ ok m)
          × Mapped id m (lsa_route o.lsa cost)
    at_id o cost (i, h, n) =
        let (m, run, r) = map_getnh o.lsa cost h n in
        (m, run, subst (λ i. Mapped i m (lsa_route o.lsa cost)) i r)

    follows :
        (a b : Option Obj) (acost bcost : ℕ)
        → ObjRoutable id a acost
        → ObjRoutable id b bcost
        → Follows (obj_route a acost) (obj_route b bcost) (
            on_rib_events p myid (
              best_event
                (record { best = a; bestcost = acost })
                (record { best = b; bestcost = bcost })))
    unfolding on_rib_events on_rib_event replay
    follows none none acost bcost h k = ([], refl, refl)
    follows none (some b) acost bcost h k =
        let (m, run, r) = at_id b bcost k in
        rw run (
          one_call (to_route p myid none m) none (lsa_route b.lsa bcost)
            (to_route-Follows none m none (lsa_route b.lsa bcost) refl r))
    follows (some a) none acost bcost h k =
        let (m, run, r) = at_id a acost h in
        rw run (
          one_call (to_route p myid m none) (lsa_route a.lsa acost) none
            (to_route-Follows m none (lsa_route a.lsa acost) none r refl))
    follows (some a) (some b) acost bcost h k =
        let (m, run, r) = at_id a acost h in
        let (n, run', q) = at_id b bcost k in
        rw (run, run')
          (one_call (to_route p myid m n) (lsa_route a.lsa acost) (lsa_route b.lsa bcost)
            (to_route-Follows m n (lsa_route a.lsa acost) (lsa_route b.lsa bcost) r q))

    -- When the best advertisement of an id changes, the events that the local route database sends make
    -- the route builder return calls that fit a table in which the route to the address of the id is the
    -- one that the old best asks for, and leave in it the one that the new best asks for: none if there
    -- is no best, it is unreachable, or its path is empty or this node alone; direct if one other node
    -- is left of its path; and else over the address of the first node of the path after this one. Each
    -- best must be of that id, have a path of whole ids, and be eligible.
    pub on_rib_events-replay :
        (old new : Best)
        → IsRoutable id old
        → IsRoutable id new
        → (calls : List RtCall) × (on_rib_events p myid (best_event old new) ≡ ok calls)
          × (replay (v6_global_addr_from_key_id id) (route old) calls ≡ some (route new))
    on_rib_events-replay old new h k = follows old.best new.best old.bestcost new.bestcost h k
