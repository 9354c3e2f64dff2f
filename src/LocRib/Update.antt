-- ===== src/LocRib/Update.antt =====
-- The operations of loc_rib.c: choosing the best advertisements, and adding, changing and deleting.
use dvpn.Base.{
  ℕ, zero, suc, length, stuck, ◌==◌, Bool, true, false, ◌&&◌, ltb, if◌then◌else◌, List, [], ◌∷◌,
  ◌++◌, Option, none, some, Result, ok, aborted, ◌>>=◌, Ordering,
}
use dvpn.Bytes.{Bytes}
use dvpn.Avl.Walk.{Tree, leaf, node, in_order}
use dvpn.Lsa.Types.{Lsa}
use dvpn.Lsa.Platform.{Platform}
use dvpn.AdjRibIn.Rib.{Obj, RibEvent, lsa_add, lsa_del, lsa_mod, tell, get_obj, put_obj, remove}
use dvpn.LocRib.State.{
  LsaRef, RibId, LocRib, rib_cost_ineligible, compare_ids, loc_rib_find_id, lsa_get_version,
  compare_lsa_refs, find_lsa_ref,
}
use dvpn.LocRib.Cost.{lsa_path_cost, lsa_has_shorter_adv_path}

-- The best advertisement so far, and its cost.
pub record Best : Type 0 where
  pub best : Option Obj
  pub bestcost : ℕ

abbrev pub lsa_of : Option Obj → Option Lsa
lsa_of none = none
lsa_of (some o) = some o.lsa

-- Pointers are the same when their addresses are.
abbrev pub same_obj : Option Obj → Option Obj → Bool
same_obj none none = true
same_obj (some a) (some b) = a.addr == b.addr
same_obj _ _ = false

abbrev pub best_event : Best → Best → List RibEvent
best_event old new = elim old.best [
  | none ↦ elim new.best [ none ↦ [] | some b ↦ lsa_add b new.bestcost ∷ [] ]
  | some a ↦ elim new.best [
    | none ↦ lsa_del a old.bestcost ∷ []
    | some b ↦ lsa_mod a old.bestcost b new.bestcost ∷ []
  ]
]

-- lsa_get and lsa_put, which let a null pointer be.
abbrev pub get_best : (ℕ → ℕ) → Option Obj → ℕ → ℕ
get_best counts none = counts
get_best counts (some o) = get_obj counts o

abbrev pub put_best : (ℕ → ℕ) → Option Obj → Result (ℕ → ℕ)
put_best counts none = ok counts
put_best counts (some o) = put_obj counts o

-- A write to the struct of an id, which is a node of the tree.
unfoldable pub put_id : RibId → Tree RibId → Tree RibId
put_id rid leaf = leaf
put_id rid (node l a r) = elim (compare_ids rid a) [
  | Ordering.eq ↦ node l rid r
  | Ordering.lt ↦ node (put_id rid l) a r
  | Ordering.gt ↦ node l a (put_id rid r)
]

-- iv_avl_tree_insert with compare_lsa_refs, which aborts when it meets an equal node.
abbrev pub or_abort : Option (Tree LsaRef) → Result (Tree LsaRef)
or_abort none = aborted
or_abort (some t) = ok t

abbrev pub inserted_id : Tree RibId → Option (Tree RibId) → Tree RibId
inserted_id t none = t
inserted_id t (some t') = t'

module _ (p : Platform) where
  -- An advertisement is better if it costs less, or the same over a shorter path.
  unfoldable pub consider : LsaRef → Best → ℕ → Result (LsaRef × Best)
  consider ref b cost =
      let ref' : LsaRef = record ref { cost = cost } in
      let chosen : Best = record { best = some ref.obj; bestcost = cost } in
      if ltb cost b.bestcost
      then ok (ref', chosen)
      else if cost == b.bestcost
      then (lsa_has_shorter_adv_path p ref.obj.lsa (lsa_of b.best) >>= λ shorter.
          ok (ref', if shorter then chosen else b))
      else ok (ref', b)

  -- The loop over the advertisements of an id, in their order.
  unfoldable pub refresh : LocRib → RibId → Tree LsaRef → Best → Result (Tree LsaRef × Best)
  unfolding consider
  refresh rib rid leaf b = ok (leaf, b)
  refresh rib rid (node l a r) b = do
    (l', b₁) ← refresh rib rid l b
    cost ← lsa_path_cost p rib rid a.obj.lsa
    (a', b₂) ← consider a b₁ cost
    (r', b₃) ← refresh rib rid r b₂
    ok (node l' a' r', b₃)

  -- The end of recompute_rid, on the id with its new costs.
  unfoldable pub choose : LocRib → RibId → Best → Result LocRib
  unfolding put_id
  choose rib rid new =
      let old : Best = record { best = rid.best; bestcost = rid.bestcost } in
      let rid' = record rid { best = new.best; bestcost = new.bestcost } in
      if same_obj old.best new.best && (old.bestcost == new.bestcost)
      then ok (record rib { ids = put_id rid rib.ids })
      else (put_best (get_best rib.counts new.best) old.best >>= λ counts. ok (record rib {
        ids = put_id rid' rib.ids;
        counts = counts;
        calls = rib.calls ++ tell rib.listeners (best_event old new);
      }))

  unfoldable pub recompute_rid : LocRib → RibId → Result LocRib
  unfolding refresh choose
  recompute_rid rib rid = do
    (lsas, b) ← refresh rib rid rid.lsas (record { best = none; bestcost = rib_cost_ineligible })
    choose rib (record rid { lsas = lsas }) b

  unfoldable pub recompute_rids : LocRib → List RibId → Result LocRib
  unfolding recompute_rid
  recompute_rids rib [] = ok rib
  recompute_rids rib (rid ∷ rids) = do rib₁ ← recompute_rid rib rid; recompute_rids rib₁ rids

  -- The task runs once it is registered, and is not registered any more then.
  unfoldable pub recompute_rib : LocRib → Result LocRib
  unfolding recompute_rids
  recompute_rib rib = recompute_rids (record rib { recompute = false }) (in_order rib.ids)

  abbrev pub new_id : Bytes → RibId
  new_id id = record {
    id = id;
    highest_version_seen = 0;
    lsas = leaf;
    best = none;
    bestcost = rib_cost_ineligible;
  }

  -- The id, made if it is not there, and the table with it; a malloc that fails is an abort.
  abbrev pub get_id : LocRib → Bytes → Option RibId → LocRib × RibId
  get_id rib id (some rid) = (rib, rid)
  get_id rib id none = (
    record rib { ids = inserted_id rib.ids (p.trees.insert RibId compare_ids (new_id id) rib.ids) },
    new_id id,
  )

  abbrev pub put_lsas : LocRib → RibId → LocRib
  put_lsas rib rid = record rib { ids = put_id rid rib.ids; recompute = true }

  abbrev pub max_version : ℕ → ℕ → ℕ
  max_version seen ver = if ltb seen ver then ver else seen

  -- The cost of a new reference is set when the task runs.
  abbrev pub add_to_id : Obj → LocRib × RibId → Result LocRib
  add_to_id o (rib, rid) = do
    lsas ←
        or_abort
          (p.trees.insert LsaRef (compare_lsa_refs p) (record { obj = o; cost = 0 }) rid.lsas)
    let seen = max_version rid.highest_version_seen (lsa_get_version p o.lsa)
    let rid' = record rid { lsas = lsas; highest_version_seen = seen }
    ok (put_lsas (record rib { counts = get_obj rib.counts o }) rid')

  unfoldable pub loc_rib_add_lsa : LocRib → Obj → Result LocRib
  unfolding put_id
  loc_rib_add_lsa rib o = add_to_id o (get_id rib o.lsa.id (loc_rib_find_id rib o.lsa.id))

  abbrev pub found_id : Option RibId → Result RibId
  found_id none = aborted
  found_id (some rid) = ok rid

  abbrev pub found_ref : Option LsaRef → Result LsaRef
  found_ref none = aborted
  found_ref (some ref) = ok ref

  unfoldable pub loc_rib_mod_lsa : LocRib → Obj → Obj → Result LocRib
  unfolding put_id
  loc_rib_mod_lsa rib old new = do
    rid ← found_id (loc_rib_find_id rib old.lsa.id)
    ref ← found_ref (find_lsa_ref p rid old)
    lsas ← or_abort (
        p.trees.insert LsaRef (compare_lsa_refs p) (record ref { obj = new })
          (p.trees.delete LsaRef (compare_lsa_refs p) ref rid.lsas))
    counts ← put_obj (get_obj rib.counts new) old
    ok (put_lsas (record rib { counts = counts }) (record rid { lsas = lsas }))

  unfoldable pub loc_rib_del_lsa : LocRib → Obj → Result LocRib
  unfolding put_id
  loc_rib_del_lsa rib o = do
    rid ← found_id (loc_rib_find_id rib o.lsa.id)
    ref ← found_ref (find_lsa_ref p rid o)
    counts ← put_obj rib.counts o
    ok (
        put_lsas (record rib { counts = counts })
          (record rid { lsas = p.trees.delete LsaRef (compare_lsa_refs p) ref rid.lsas }))

unfoldable pub loc_rib_listener_register : LocRib → ℕ → LocRib
loc_rib_listener_register rib rl = record rib { listeners = rib.listeners ++ rl ∷ [] }

unfoldable pub loc_rib_listener_unregister : LocRib → ℕ → LocRib
loc_rib_listener_unregister rib rl = record rib { listeners = remove rl rib.listeners }

-- loc_rib_init, which leaves myid as it is.
unfoldable pub loc_rib_init : LocRib → LocRib
loc_rib_init rib = record rib { ids = leaf; recompute = false; listeners = [] }

-- iv_avl_tree_min
unfoldable pub first {ℓ} : {A : Type ℓ} → Tree A → Option A
first leaf = none
first (node leaf a r) = some a
first (node (node ll b lr) a r) = first (node ll b lr)

module _ (p : Platform) where
  abbrev pub at_first {ℓ} : {A : Type ℓ} {B : Type 0} → Option A → B → (A → Result B) → Result B
  at_first none done next = ok done
  at_first (some a) done next = next a

  -- The inner loop of loc_rib_deinit, which frees the advertisements of an id; the fuel is for its
  -- rounds.
  unfoldable pub drain_lsas : ℕ → (ℕ → ℕ) → Tree LsaRef → Result (ℕ → ℕ)
  unfolding first
  drain_lsas zero counts t = at_first (first t) counts (λ ref. stuck)
  drain_lsas (suc fuel) counts t = at_first (first t) counts (λ ref.
      put_obj counts ref.obj >>= λ counts'.
      drain_lsas fuel counts' (p.trees.delete LsaRef (compare_lsa_refs p) ref t))

  unfoldable pub drain_ids : ℕ → (ℕ → ℕ) → Tree RibId → Result (ℕ → ℕ)
  unfolding drain_lsas
  drain_ids zero counts t = at_first (first t) counts (λ rid. stuck)
  drain_ids (suc fuel) counts t = at_first (first t) counts (λ rid.
      drain_lsas (length (in_order rid.lsas)) counts rid.lsas >>= λ counts₁.
      put_best counts₁ rid.best >>= λ counts₂.
      drain_ids fuel counts₂ (p.trees.delete RibId compare_ids rid t))

  unfoldable pub loc_rib_deinit : LocRib → Result LocRib
  unfolding drain_ids
  loc_rib_deinit rib = do
    counts ← drain_ids (length (in_order rib.ids)) rib.counts rib.ids
    ok (record rib { counts = counts; ids = leaf; recompute = false })
