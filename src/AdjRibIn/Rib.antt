-- ===== src/AdjRibIn/Rib.antt =====
-- The operations of adj_rib_in.c on its state.
use dvpn.Base.{
  ℕ, zero, suc, ◌+◌, ◌-◌, ◌%◌, ◌^◌, Bool, true, false, ◌==◌, ltb, if◌then◌else◌, List, [], ◌∷◌,
  ◌++◌, length, map, Option, none, some, Result, ok, err, aborted, fault, stuck, ◌>>=◌, Ordering,
}
use dvpn.Bytes.{Bytes, memcmp, size_max}
use dvpn.Avl.Walk.{Tree, leaf, node, walk, in_order}
use dvpn.Lsa.Types.{AttrTree, empty, branch, Lsa, node_id_len}
use dvpn.Lsa.Platform.{Platform}
use dvpn.Lsa.Build.{free_root}
use dvpn.Diff.Attrs.{lsa_diff}
use dvpn.AdjRibIn.Accept.{Crypto, Ends, accept}

-- A pointer to an advertisement: its address, and what stands there. An advertisement that is shared
-- is not changed any more but for its reference count, and that stands in a table of the state; the
-- field refcount of the contents is not looked at.
pub record Obj : Type 0 where
  pub addr : ℕ
  pub lsa : Lsa

-- A call of a listener, with the costs that it is told.
pub data RibEvent : Type 0 where
  lsa_add lsa_del : Obj → ℕ → RibEvent
  lsa_mod : Obj → ℕ → Obj → ℕ → RibEvent

-- struct adj_rib_in; `counts` is the table of reference counts, and `calls` what listeners have been
-- told so far, each call beside the listener that got it.
pub record AdjRibIn : Type 0 where
  pub ends : Ends
  pub lsas : Tree Obj
  pub size : ℕ
  pub listeners : List ℕ
  pub counts : ℕ → ℕ
  pub calls : List (ℕ × RibEvent)

abbrev pub adj_rib_in_max_bytes : ℕ
adj_rib_in_max_bytes = 1048576

abbrev pub rib_cost_unreachable : ℕ
rib_cost_unreachable = 0xffff_fffe

unfoldable pub compare_refs : Obj → Obj → Ordering
compare_refs a b = memcmp node_id_len a.lsa.id b.lsa.id

abbrev pub set_count : (ℕ → ℕ) → ℕ → ℕ → ℕ → ℕ
set_count counts addr n a = if a == addr then n else counts a

abbrev pub get_obj : (ℕ → ℕ) → Obj → ℕ → ℕ
get_obj counts o = set_count counts o.addr (counts o.addr + 1)

-- lsa_put
unfoldable pub put_obj : (ℕ → ℕ) → Obj → Result (ℕ → ℕ)
put_obj counts o =
    if counts o.addr == 1
    then (free_root o.lsa.root o.lsa.size >>= λ size. ok (set_count counts o.addr 0))
    else ok (set_count counts o.addr (counts o.addr - 1))

abbrev pub same_id : Bytes → Obj → Ordering
same_id id o = memcmp node_id_len id o.lsa.id

unfoldable pub adj_rib_in_find_ref : AdjRibIn → Bytes → Option Obj
unfolding walk
adj_rib_in_find_ref rib id = walk (same_id id) rib.lsas

-- The size is an int, in two's complement: `-=` and `+=` of a size_t, and its value as a size_t.
abbrev pub sub_int : ℕ → ℕ → ℕ
sub_int size n = (size + 2 ^ 32 - n % 2 ^ 32) % 2 ^ 32

abbrev pub add_int : ℕ → ℕ → ℕ
add_int size n = (size + n) % 2 ^ 32

abbrev pub to_size : ℕ → ℕ
to_size size = if ltb size (2 ^ 31) then size else size + (2 ^ 64 - 2 ^ 32)

-- What map returned, as a pointer.
unfoldable pub pointer : Obj → Result (Unit {0}) → Result (Option Obj)
pointer o (ok u) = ok (some o)
pointer o err = ok none
pointer o aborted = aborted
pointer o fault = fault
pointer o stuck = stuck

abbrev pub size_without : ℕ → Option Obj → ℕ
size_without size none = size
size_without size (some o) = sub_int size o.lsa.size

abbrev pub size_with : ℕ → Option Obj → ℕ
size_with size none = size
size_with size (some o) = add_int size o.lsa.size

abbrev pub event : Option Obj → Option Obj → List RibEvent
event none none = []
event none (some new) = lsa_add new rib_cost_unreachable ∷ []
event (some old) (some new) = lsa_mod old rib_cost_unreachable new rib_cost_unreachable ∷ []
event (some old) none = lsa_del old rib_cost_unreachable ∷ []

-- Every listener gets the event, in the order of their list.
abbrev pub tell : List ℕ → List RibEvent → List (ℕ × RibEvent)
tell listeners [] = []
tell listeners (e ∷ es) = map (λ l. (l, e)) listeners ++ tell listeners es

-- ref->lsa = new: the node of that id holds another advertisement of the same id.
unfoldable pub put_ref : Obj → Tree Obj → Tree Obj
put_ref new leaf = leaf
put_ref new (node l o r) = elim (compare_refs new o) [
  | Ordering.eq ↦ node l new r
  | Ordering.lt ↦ node (put_ref new l) o r
  | Ordering.gt ↦ node l o (put_ref new r)
]

abbrev pub is_empty : AttrTree → Bool
is_empty empty = true
is_empty (branch l a r) = false

abbrev pub inserted : Tree Obj → Option (Tree Obj) → Tree Obj
inserted t none = t
inserted t (some t') = t'

-- while (rib->lsas.root != NULL)
abbrev pub at_root : AdjRibIn → Tree Obj → (Obj → Result AdjRibIn) → Result AdjRibIn
at_root rib leaf body = ok rib
at_root rib (node l o r) body = body o

module _ (p : Platform) (crypto : Crypto) where
  unfoldable pub mapped : AdjRibIn → Option Obj → Result (Option Obj)
  unfolding pointer
  mapped rib none = ok none
  mapped rib (some o) = pointer o (accept p crypto rib.ends o.lsa)

  unfoldable pub notify : AdjRibIn → Option Obj → Option Obj → Result AdjRibIn
  unfolding mapped
  notify rib old new = do
    old' ← mapped rib old
    new' ← mapped rib new
    ok (record rib {
      size = size_with (size_without rib.size old') new';
      calls = rib.calls ++ tell rib.listeners (event old' new');
    })

  unfoldable pub adj_rib_in_del_lsa : AdjRibIn → Obj → Result AdjRibIn
  unfolding notify put_obj compare_refs
  adj_rib_in_del_lsa rib ref = do
    rib₁ ← notify rib (some ref) none
    counts ← put_obj rib₁.counts ref
    ok (record rib₁ { lsas = p.trees.delete Obj compare_refs ref rib₁.lsas; counts = counts })

  -- The result is true for 0 and false for -1.
  abbrev pub drop_ref : AdjRibIn → Bool → Option Obj → Result (AdjRibIn × Bool)
  drop_ref rib answer none = ok (rib, false)
  drop_ref rib answer (some ref) = do rib₁ ← adj_rib_in_del_lsa rib ref; ok (rib₁, answer)

  unfoldable pub add_ref : AdjRibIn → Obj → Result (AdjRibIn × Bool)
  unfolding notify compare_refs
  add_ref rib o = do
    rib₁ ← notify rib none (some o)
    ok (
      record rib₁ {
        counts = get_obj rib₁.counts o;
        lsas = inserted rib₁.lsas (p.trees.insert Obj compare_refs o rib₁.lsas);
      },
      true,
    )

  unfoldable pub mod_ref : AdjRibIn → Obj → Obj → ℕ → Result (AdjRibIn × Bool)
  unfolding notify put_obj put_ref
  mod_ref rib ref o zero = ok (rib, true)
  mod_ref rib ref o (suc n) = do
    rib₁ ← notify rib (some ref) (some o)
    counts ← put_obj rib₁.counts ref
    ok (record rib₁ { counts = get_obj counts o; lsas = put_ref o rib₁.lsas }, true)

  -- `mem` says whether malloc gives memory.
  unfoldable pub keep_lsa : Bool → AdjRibIn → Obj → Option Obj → Result (AdjRibIn × Bool)
  unfolding add_ref mod_ref
  keep_lsa mem rib o none = if mem then add_ref rib o else ok (rib, false)
  keep_lsa mem rib o (some ref) = do
    (diffs, calls) ← lsa_diff false (some ref.lsa) (some o.lsa)
    mod_ref rib ref o diffs

  unfoldable pub adj_rib_in_add_lsa : Bool → AdjRibIn → Obj → Result (AdjRibIn × Bool)
  unfolding keep_lsa adj_rib_in_find_ref
  adj_rib_in_add_lsa mem rib o =
      let ref = adj_rib_in_find_ref rib o.lsa.id in
      if is_empty o.lsa.root
      then drop_ref rib true ref
      else if ltb adj_rib_in_max_bytes ((to_size rib.size + o.lsa.size) % (size_max + 1))
      then drop_ref rib false ref
      else keep_lsa mem rib o ref

  -- The loop of adj_rib_in_truncate deletes the root until there is none; the fuel is for its rounds.
  unfoldable pub truncate_loop : ℕ → AdjRibIn → Result AdjRibIn
  unfolding adj_rib_in_del_lsa
  truncate_loop zero rib = at_root rib rib.lsas (λ o. stuck)
  truncate_loop (suc fuel) rib =
      at_root rib rib.lsas (λ o. adj_rib_in_del_lsa rib o >>= truncate_loop fuel)

  unfoldable pub adj_rib_in_truncate : AdjRibIn → Result AdjRibIn
  unfolding truncate_loop
  adj_rib_in_truncate rib = truncate_loop (length (in_order rib.lsas)) rib

unfoldable pub adj_rib_in_listener_register : AdjRibIn → ℕ → AdjRibIn
adj_rib_in_listener_register rib rl = record rib { listeners = rib.listeners ++ rl ∷ [] }

-- iv_list_del of the listener from the list that it is in.
abbrev pub remove : ℕ → List ℕ → List ℕ
remove rl [] = []
remove rl (l ∷ ls) = if l == rl then ls else l ∷ remove rl ls

unfoldable pub adj_rib_in_listener_unregister : AdjRibIn → ℕ → AdjRibIn
adj_rib_in_listener_unregister rib rl = record rib { listeners = remove rl rib.listeners }

-- The fields that are not set keep what they held.
unfoldable pub adj_rib_in_init : AdjRibIn → AdjRibIn
adj_rib_in_init rib = record rib { lsas = leaf; size = 0; listeners = [] }
