-- ===== src/ConfDiff/Entries.antt =====
-- The entries of conf.h, and the callbacks of confdiff.c for them.
use dvpn.Base.{
  ℕ, Bool, false, not, ◌==◌, ◌&&◌, ◌||◌, if◌then◌else◌, List, [], ◌∷◌, ◌++◌, Option, none, some,
  Result, ok, aborted, fault, ◌>>=◌, Ordering,
}
use dvpn.Bytes.{Bytes, memcmp, is_eq}
use dvpn.Bytes.Lex.{lex}
use dvpn.Avl.Walk.{Tree, walk, in_order}
use dvpn.Lsa.Types.{node_id_len}
use dvpn.Lsa.Platform.{Platform}
use dvpn.Diff.Trees.{Change, added, modified, deleted, avl_diff}

-- enum conf_fp_type
pub data FpType : Type 0 where
  any cname match_fp : FpType

-- enum conf_peer_type
pub data PeerType : Type 0 where
  invalid dbonly epeer customer transit ipeer : PeerType

abbrev pub fp_type_number : FpType → ℕ
fp_type_number any = 0
fp_type_number cname = 1
fp_type_number match_fp = 2

abbrev pub peer_type_number : PeerType → ℕ
peer_type_number invalid = 0
peer_type_number dbonly = 1
peer_type_number epeer = 2
peer_type_number customer = 3
peer_type_number transit = 4
peer_type_number ipeer = 5

-- struct conf_connect_entry, as far as confdiff.c looks at it; strings are without their final 0.
pub record ConnectEntry : Type 0 where
  pub name : Bytes
  pub hostname : Bytes
  pub port : Bytes
  pub fp_type : FpType
  pub fingerprint : Bytes
  pub peer_type : PeerType
  pub tunitf : Bytes
  pub cost : ℕ

-- struct conf_listen_entry, likewise.
pub record ListenEntry : Type 0 where
  pub name : Bytes
  pub fp_type : FpType
  pub fingerprint : Bytes
  pub peer_type : PeerType
  pub tunitf : Bytes
  pub cost : ℕ
  pub conn_limit : ℕ

-- strcmp
unfoldable pub compare_connect_entries : ConnectEntry → ConnectEntry → Ordering
unfolding lex
compare_connect_entries a b = lex a.name b.name

unfoldable pub compare_listen_entries : ListenEntry → ListenEntry → Ordering
unfolding lex
compare_listen_entries a b = lex a.name b.name

abbrev pub same_str : Bytes → Bytes → Bool
same_str a b = is_eq (lex a b)

abbrev pub same_fp : FpType → Bytes → FpType → Bytes → Bool
same_fp a afp b bfp =
    (fp_type_number a == fp_type_number b)
    && (not (fp_type_number a == 2) || is_eq (memcmp node_id_len afp bfp))

-- The test of cce_mod.
unfoldable pub same_connect_entry : ConnectEntry → ConnectEntry → Bool
unfolding lex memcmp
same_connect_entry a b =
    same_str a.hostname b.hostname
    && same_str a.port b.port
    && same_fp a.fp_type a.fingerprint b.fp_type b.fingerprint
    && (peer_type_number a.peer_type == peer_type_number b.peer_type)
    && same_str a.tunitf b.tunitf
    && (a.cost == b.cost)

-- The test of cle_mod.
unfoldable pub same_listen_entry : ListenEntry → ListenEntry → Bool
unfolding lex memcmp
same_listen_entry a b =
    same_fp a.fp_type a.fingerprint b.fp_type b.fingerprint
    && (peer_type_number a.peer_type == peer_type_number b.peer_type)
    && same_str a.tunitf b.tunitf
    && (a.cost == b.cost)
    && (a.conn_limit == b.conn_limit)

-- A call of new_connect_entry and the like, with its answer, or of removed_connect_entry.
pub data Call {ℓ} (E : Type ℓ) : Type ℓ where
  started : E → Bool → Call E
  removed : E → Call E

-- The trees of the running and of the new configuration. `failures` says of the coming calls of
-- new_connect_entry whether they fail; all after those succeed. `calls` has the calls so far.
pub record Sides (E : Type 0) : Type 0 where
  pub conf : Tree E
  pub newconf : Tree E
  pub failures : List Bool
  pub calls : List (Call E)

abbrev pub head_or : List Bool → Bool
head_or [] = false
head_or (b ∷ bs) = b

abbrev pub tail_of : List Bool → List Bool
tail_of [] = []
tail_of (b ∷ bs) = bs

module _ {E : Type 0} where
  abbrev pub inserted_entry : Tree E → Option (Tree E) → Tree E
  inserted_entry t none = t
  inserted_entry t (some t') = t'

  -- A node that is not in the tree has no parent to take it off: its deletion is undefined.
  abbrev pub delete_found : Tree E → Option E → Result (Tree E)
  delete_found t none = fault
  delete_found t (some a) = ok t

module _ (p : Platform) {E : Type 0} (cmp : E → E → Ordering) where
  unfoldable pub put_entry : E → Tree E → Tree E
  put_entry a t = inserted_entry t (p.trees.insert E cmp a t)

  unfoldable pub take_entry : E → Tree E → Result (Tree E)
  unfolding walk
  take_entry a t = delete_found (p.trees.delete E cmp a t) (walk (cmp a) t)

  -- new_connect_entry of an entry, which is in the tree of the configuration already.
  unfoldable pub start_entry : E → Sides E → Sides E × Bool
  start_entry a s =
      let failed = head_or s.failures in
      (record s { failures = tail_of s.failures; calls = s.calls ++ started a failed ∷ [] }, failed)

  -- An entry of the new configuration goes to the running one.
  unfoldable pub take_over : E → Sides E → Result (Sides E)
  unfolding put_entry take_entry
  take_over a s = do
    newconf ← take_entry a s.newconf
    ok (record s { newconf = newconf; conf = put_entry a s.conf })

  -- An entry goes back.
  unfoldable pub give_back : E → Sides E → Result (Sides E)
  unfolding put_entry take_entry
  give_back a s = do
    conf ← take_entry a s.conf
    ok (record s { conf = conf; newconf = put_entry a s.newconf })

  unfoldable pub remove_entry : E → Sides E → Result (Sides E)
  unfolding take_entry
  remove_entry a s = do
    conf ← take_entry a s.conf
    ok (record s { conf = conf; calls = s.calls ++ removed a ∷ [] })

  -- cce_add, cls_add and cle_add.
  unfoldable pub entry_add : E → Sides E → Result (Sides E)
  unfolding take_over give_back start_entry
  entry_add a s = do
    s₁ ← take_over a s
    let (s₂, failed) = start_entry a s₁
    if failed then give_back a s₂ else ok s₂

  -- cce_del, cls_del and cle_del.
  unfoldable pub entry_del : E → Sides E → Result (Sides E)
  unfolding remove_entry put_entry
  entry_del a s = do s₁ ← remove_entry a s; ok (record s₁ { newconf = put_entry a s₁.newconf })

  abbrev pub restarted : E → Sides E → Result (Sides E)
  restarted a s = let (s', failed) = start_entry a s in if failed then aborted else ok s'

module _ (p : Platform) where
  unfoldable pub cce_add : ConnectEntry → Sides ConnectEntry → Result (Sides ConnectEntry)
  unfolding entry_add
  cce_add a s = entry_add p compare_connect_entries a s

  unfoldable pub cce_del : ConnectEntry → Sides ConnectEntry → Result (Sides ConnectEntry)
  unfolding entry_del
  cce_del a s = entry_del p compare_connect_entries a s

  unfoldable pub cle_add : ListenEntry → Sides ListenEntry → Result (Sides ListenEntry)
  unfolding entry_add
  cle_add a s = entry_add p compare_listen_entries a s

  unfoldable pub cle_del : ListenEntry → Sides ListenEntry → Result (Sides ListenEntry)
  unfolding entry_del
  cle_del a s = entry_del p compare_listen_entries a s

  abbrev pub cce_rollback :
      ConnectEntry → ConnectEntry → Sides ConnectEntry → Result (Sides ConnectEntry)
  cce_rollback a b s = do
    s₁ ← give_back p compare_connect_entries b s
    restarted p compare_connect_entries a
        (record s₁ { conf = put_entry p compare_connect_entries a s₁.conf })

  unfoldable pub cce_mod :
      ConnectEntry → ConnectEntry → Sides ConnectEntry → Result (Sides ConnectEntry)
  unfolding remove_entry take_over start_entry give_back put_entry
  cce_mod a b s = if same_connect_entry a b then ok s else do
    s₁ ← remove_entry p compare_connect_entries a s
    s₂ ← take_over p compare_connect_entries b s₁
    let (s₃, failed) = start_entry p compare_connect_entries b s₂
    let done = record s₃ { newconf = put_entry p compare_connect_entries a s₃.newconf }
    if failed then cce_rollback a b s₃ else ok done

  -- The way back deletes `a`, which is in neither tree, where cce_mod inserts it.
  abbrev pub cle_rollback :
      ListenEntry → ListenEntry → Sides ListenEntry → Result (Sides ListenEntry)
  cle_rollback a b s = do
    s₁ ← give_back p compare_listen_entries b s
    conf ← take_entry p compare_listen_entries a s₁.conf
    restarted p compare_listen_entries a (record s₁ { conf = conf })

  unfoldable pub cle_mod :
      ListenEntry → ListenEntry → Sides ListenEntry → Result (Sides ListenEntry)
  unfolding remove_entry take_over start_entry give_back put_entry take_entry
  cle_mod a b s = if same_listen_entry a b then ok s else do
    s₁ ← remove_entry p compare_listen_entries a s
    s₂ ← take_over p compare_listen_entries b s₁
    let (s₃, failed) = start_entry p compare_listen_entries b s₂
    let done = record s₃ { newconf = put_entry p compare_listen_entries a s₃.newconf }
    if failed then cle_rollback a b s₃ else ok done

  -- The calls of avl_diff, which looks for the next node before it makes a call.
  abbrev pub cce_change : Change ConnectEntry → Sides ConnectEntry → Result (Sides ConnectEntry)
  cce_change (added a) s = cce_add a s
  cce_change (modified a b) s = cce_mod a b s
  cce_change (deleted a) s = cce_del a s

  unfoldable pub cce_changes :
      List (Change ConnectEntry) → Sides ConnectEntry → Result (Sides ConnectEntry)
  unfolding cce_add cce_mod cce_del
  cce_changes [] s = ok s
  cce_changes (c ∷ cs) s = do s₁ ← cce_change c s; cce_changes cs s₁

  abbrev pub cle_change : Change ListenEntry → Sides ListenEntry → Result (Sides ListenEntry)
  cle_change (added a) s = cle_add a s
  cle_change (modified a b) s = cle_mod a b s
  cle_change (deleted a) s = cle_del a s

  unfoldable pub cle_changes :
      List (Change ListenEntry) → Sides ListenEntry → Result (Sides ListenEntry)
  unfolding cle_add cle_mod cle_del
  cle_changes [] s = ok s
  cle_changes (c ∷ cs) s = do s₁ ← cle_change c s; cle_changes cs s₁

  -- The first call of diff_configs.
  unfoldable pub diff_connect_entries : Sides ConnectEntry → Result (Sides ConnectEntry)
  unfolding avl_diff cce_changes
  diff_connect_entries s =
      avl_diff compare_connect_entries (in_order s.conf) (in_order s.newconf) >>= λ changes.
      cce_changes changes s

  -- cls_mod: the listen entries of a socket that both configurations have.
  unfoldable pub diff_listen_entries : Sides ListenEntry → Result (Sides ListenEntry)
  unfolding avl_diff cle_changes
  diff_listen_entries s =
      avl_diff compare_listen_entries (in_order s.conf) (in_order s.newconf) >>= λ changes.
      cle_changes changes s
